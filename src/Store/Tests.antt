-- ===== src/Store/Tests.antt =====
-- SP_LAB5/src: the theorems at concrete tables and requests.
use fall_snu_system_pro.Base.{ℕ, true, none, List, [], ◌∷◌, ◌++◌, ◌≡◌, ◌≢◌, refl, arith}
use fall_snu_system_pro.Store.Chain.{Memory}
use fall_snu_system_pro.Store.Table.{
  Table, hash, hash_loop, made, hash_init, hash_insert, hash_search, hash_update, hash_delete,
}
use fall_snu_system_pro.Store.Table.Valid.{IsValid, lookup}
use fall_snu_system_pro.Store.Table.Map.{
  Effect, healthy, create, change, remove, present, hash_search-Effect,
}
use fall_snu_system_pro.Store.Table.Create.{hash_insert-Effect}
use fall_snu_system_pro.Store.Table.Change.{hash_update-Effect}
use fall_snu_system_pro.Store.Table.Remove.{hash_delete-Effect}
use fall_snu_system_pro.Store.RwLock.{null}
use fall_snu_system_pro.Store.RwLock.Threads.{all_made}
use fall_snu_system_pro.Store.Table.Fresh.{new_table, hash_init-IsValid}
use fall_snu_system_pro.Store.Table.Stale.{FirstLost, lost_insert}
use fall_snu_system_pro.Store.Parse.{skvs_parse}
use fall_snu_system_pro.Store.Parse.Requests.{Request, request, parsed, skvs_parse-request}
use fall_snu_system_pro.Store.Serve.{skvs_serve}
use fall_snu_system_pro.Store.Serve.Protocol.{answer, Answers, skvs_serve-request}

-- A table of two buckets; the keys `a` and `c` belong to the same one.
abbrev a : List ℕ
a = b'a' ∷ []

abbrev c : List ℕ
c = b'c' ∷ []

abbrev memory : Memory
memory = record { node_ok = true; key_ok = true; value_ok = true }

abbrev fresh : Table
fresh = new_table 2 0

fresh-none : (q : List ℕ) → lookup fresh q ≡ none
fresh-none = (hash_init-IsValid 2 0 (λ k. null) (omega arith) (omega arith) (λ k lt. refl)).2

fresh-IsValid : IsValid fresh
fresh-IsValid = (hash_init-IsValid 2 0 (λ k. null) (omega arith) (omega arith) (λ k lt. refl)).1

abbrev with_a :
    Effect
      (hash_insert (healthy 0 memory) fresh a (b'1' ∷ []))
      none
      (create true (lookup fresh) a (b'1' ∷ []))
with_a = hash_insert-Effect fresh a fresh-IsValid 0 memory (b'1' ∷ []) (omega arith)

hash_init-IsValid_example :
    (hash_init true (λ k. all_made) (λ k. null) 2 0 ≡ made fresh)
    × IsValid fresh
    × ((q : List ℕ) → lookup fresh q ≡ none)
hash_init-IsValid_example =
    hash_init-IsValid 2 0 (λ k. null) (omega arith) (omega arith) (λ k lt. refl)

hash_insert-Effect_example :
    Effect
      (hash_insert (healthy 0 memory) fresh a (b'1' ∷ []))
      none
      (create true (lookup fresh) a (b'1' ∷ []))
hash_insert-Effect_example =
    hash_insert-Effect fresh a fresh-IsValid 0 memory (b'1' ∷ []) (omega arith)

hash_search-Effect_example :
    Effect
      (hash_search (healthy 0 memory) with_a.table a)
      (lookup with_a.table a)
      (present (lookup with_a.table) a, lookup with_a.table)
hash_search-Effect_example = hash_search-Effect with_a.table a with_a.valid 0 memory

hash_update-Effect_example :
    Effect
      (hash_update (healthy 0 memory) with_a.table a (b'2' ∷ []))
      none
      (change true (lookup with_a.table) a (b'2' ∷ []))
hash_update-Effect_example = hash_update-Effect with_a.table a with_a.valid 0 memory (b'2' ∷ [])

hash_delete-Effect_example :
    Effect (hash_delete (healthy 0 memory) with_a.table a) none (remove (lookup with_a.table) a)
hash_delete-Effect_example = hash_delete-Effect with_a.table a with_a.valid 0 memory

same_bucket : hash a 2 ≡ hash c 2
unfolding hash hash_loop
same_bucket = refl

apart : a ≢ c
apart = ground arith

lost_insert_example : FirstLost fresh 0 1 a c (b'1' ∷ []) (b'2' ∷ [])
lost_insert_example =
    lost_insert fresh a c (b'1' ∷ []) (b'2' ∷ []) 0 1 fresh-IsValid same_bucket apart (fresh-none a)
      (fresh-none c)

-- `Create a 1` and what an earlier message left behind it.
abbrev create_name : List ℕ
create_name = b'C' ∷ b'r' ∷ b'e' ∷ b'a' ∷ b't' ∷ b'e' ∷ []

abbrev create_a : Request
create_a = Request.create a (b'1' ∷ [])

abbrev left_over : List ℕ
left_over = b'x' ∷ b'\n' ∷ []

skvs_parse-request_example :
    skvs_parse (request create_name create_a ++ b'\n' ∷ left_over) 11 ≡ parsed create_a
skvs_parse-request_example =
    skvs_parse-request create_name create_a left_over refl refl (omega arith)

skvs_serve-request_example :
    Answers
      (skvs_serve (healthy 0 memory) fresh (request create_name create_a ++ b'\n' ∷ left_over) 11)
      (answer memory (lookup fresh) create_a)
skvs_serve-request_example =
    skvs_serve-request 0 memory fresh create_name create_a left_over fresh-IsValid (omega arith)
      refl refl (omega arith)
