-- ===== src/Store/Table/Stale.antt =====
-- SP_LAB5/src/hashtable.c:200: two calls of hash_insert that both read the head of their bucket
-- before either takes the lock.
use fall_snu_system_pro.Base.{
  ℕ, ◌+◌, ◌%◌, ◌<◌, ◌≡◌, ◌≢◌, refl, ap, ◌∙◌, arith, none, some, List, [], ◌∷◌, length, get_or,
  get_or-set_self, set, set-set,
}
use fall_snu_system_pro.Store.Chain.{Node, done, list_insert}
use fall_snu_system_pro.Store.Chain.Lookup.{find, list_search-find, same_string_iff}
use fall_snu_system_pro.Store.RwLock.{RwLock, rwlock_write_lock, rwlock_write_unlock}
use fall_snu_system_pro.Store.RwLock.Threads.{all_ok}
use fall_snu_system_pro.Store.Table.{
  Table, size_limit, returned, hash, with_head, insert_section, hash_insert, hash_insert_between,
}
use fall_snu_system_pro.Store.Table.Free.{write-Rounds}
use fall_snu_system_pro.Store.Table.Valid.{IsLocked, IsValid, lookup}
use fall_snu_system_pro.Store.Table.Calls.{locked_lem}
use fall_snu_system_pro.Store.Table.Map.{all_memory, healthy, home-lt, head-eq}

-- The table after an insertion into the bucket as it was in `before`.
abbrev inserted : Table → Table → List ℕ → List ℕ → List RwLock → Table
inserted before now k v ls =
    let i = hash k before.hash_size in
    let node : Node = record { key = k; value = v } in
    record {
      buckets = set now.buckets i (node ∷ get_or before.buckets i []);
      locks = ls;
      bucket_sizes = set now.bucket_sizes i ((get_or now.bucket_sizes i 0 + 1) % size_limit);
      total_entries = (now.total_entries + 1) % size_limit;
      hash_size = now.hash_size;
    }

record Inserted (before now : Table) (self : ℕ) (k v : List ℕ) : Type 0 where
  locks' : List RwLock
  locks_ok : IsLocked now.hash_size locks'
  runs :
      hash_insert_between (healthy self all_memory) before now k v
      ≡ returned done none (inserted before now k v locks')

-- A call for a key that was new when it read the head of the bucket.
insert_between :
    (before now : Table) (self : ℕ) (k v : List ℕ)
    → IsValid before
    → now.hash_size ≡ before.hash_size
    → IsLocked now.hash_size now.locks
    → lookup before k ≡ none
    → Inserted before now self k v
unfolding hash_insert_between with_head insert_section list_insert
insert_between before now self k v ok same free no_k =
    let i = hash k before.hash_size in
    let head = get_or before.buckets i [] in
    let u =
      locked_lem (rwlock_write_lock all_ok self) (rwlock_write_unlock all_ok) now i
        (insert_section all_memory i head k v) (λ l f. write-Rounds self l f) free
        (omega (arith, home-lt before k ok, same)) (λ m. ground arith) in
    record {
      locks' = u.locks';
      locks_ok = u.locks_ok;
      runs = ground (arith, head-eq before k ok, u.runs, list_search-find head k, no_k);
    }

-- A first call stores `v` under `k`; a second one, which read the head of the bucket before it,
-- stores `w` under `l`, and loses `k`.
pub record FirstLost (t : Table) (self self' : ℕ) (k l v w : List ℕ) : Type 0 where
  pub after_first : Table
  pub after_second : Table
  pub first_done : hash_insert (healthy self all_memory) t k v ≡ returned done none after_first
  pub stored : lookup after_first k ≡ some v
  pub second_done :
      hash_insert_between (healthy self' all_memory) t after_first l w
      ≡ returned done none after_second
  pub lost : lookup after_second k ≡ none
  pub kept : lookup after_second l ≡ some w

-- On a valid table, when a second call of hash_insert reads the head of its bucket before a first
-- one inserts into the same bucket, and gets to the lock after it, for different keys that are
-- both new, both calls report success, the first key is in the table after the first call and is
-- not in it after the second; with memory enough, while the thread library makes no error.
pub lost_insert :
    (t : Table) (k l v w : List ℕ) (self self' : ℕ)
    → IsValid t
    → hash k t.hash_size ≡ hash l t.hash_size
    → k ≢ l
    → lookup t k ≡ none
    → lookup t l ≡ none
    → FirstLost t self self' k l v w
unfolding hash_insert find
lost_insert t k l v w self self' ok together apart no_k no_l =
    let i = hash k t.hash_size in
    let head = get_or t.buckets i [] in
    let a : List Node = record { key = k; value = v } ∷ head in
    let b : List Node = record { key = l; value = w } ∷ head in
    let inside : i < length t.buckets = omega (arith, home-lt t k ok, ok.data_ok.buckets_sized) in
    let one = insert_between t t self k v ok refl ok.locks_ok no_k in
    let t1 = inserted t t k v one.locks' in
    let two = insert_between t t1 self' l w ok refl one.locks_ok no_l in
    let t2 = inserted t t1 l w two.locks' in
    let written : t2.buckets ≡ set t.buckets i b =
      ground (arith, together, set-set t.buckets i a b) in
    let at_i : get_or t2.buckets i [] ≡ b =
      ap (λ bs. get_or bs i []) written ∙ get_or-set_self t.buckets i b [] inside in
    record {
      after_first = t1;
      after_second = t2;
      first_done = one.runs;
      stored = ground (arith, get_or-set_self t.buckets i a [] inside, same_string_iff k k);
      second_done = two.runs;
      lost = ground (arith, at_i, same_string_iff l k, apart, no_k);
      kept = ground (arith, at_i, same_string_iff l l, together);
    }
