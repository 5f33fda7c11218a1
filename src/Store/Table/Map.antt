-- ===== src/Store/Table/Map.antt =====
-- SP_LAB5/src/hashtable.c: the table as a finite map from keys to values.
use fall_snu_system_pro.Base.{
  ℕ, ◌<◌, ◌≡◌, refl, ap, arith, Bool, true, ◌&&◌, Option, none, some, List, [], ◌==◌, if◌then◌else◌,
  length, get_or, get_elem?, set, get_or-set, get_elem?-get_or,
}
use fall_snu_system_pro.Store.Chain.{
  Node, Memory, Result, done, not_done, internal_error, same_string,
}
use fall_snu_system_pro.Store.Chain.Lookup.{find, list_search-find, same_string_iff}
use fall_snu_system_pro.Store.RwLock.{rwlock_read_lock, rwlock_read_unlock}
use fall_snu_system_pro.Store.RwLock.Threads.{all_ok}
use fall_snu_system_pro.Store.Table.{
  Table, Env, Outcome, returned, hash, with_head, search_section, hash_search,
}
use fall_snu_system_pro.Store.Table.Free.{read-Rounds}
use fall_snu_system_pro.Store.Table.Valid.{IsValid, lookup}
use fall_snu_system_pro.Store.Table.Calls.{locked_lem}

-- A map, and the four operations as a client sees them: the result, and the map they leave.
abbrev pub Map : Type 0
Map = List ℕ → Option (List ℕ)

abbrev pub put : Map → List ℕ → Option (List ℕ) → Map
put f key v q = if same_string key q then v else f q

abbrev pub memory_ok : Memory → Bool
memory_ok m = m.node_ok && m.key_ok && m.value_ok

abbrev pub create : Bool → Map → List ℕ → List ℕ → Result × Map
create ok f key value = elim (f key) [
  | some old ↦ (not_done, f)
  | none ↦ if ok then (done, put f key (some value)) else (internal_error, f)
]

abbrev pub change : Bool → Map → List ℕ → List ℕ → Result × Map
change ok f key value = elim (f key) [
  | none ↦ (not_done, f)
  | some old ↦ if ok then (done, put f key (some value)) else (internal_error, f)
]

abbrev pub remove : Map → List ℕ → Result × Map
remove f key = elim (f key) [ none ↦ (not_done, f) | some old ↦ (done, put f key none) ]

abbrev pub present : Map → List ℕ → Result
present f key = elim (f key) [ none ↦ not_done | some old ↦ done ]

-- A call returns the specification's result and a valid table that holds its map.
pub record Effect (run : Outcome) (v : Option (List ℕ)) (spec : Result × Map) : Type 0 where
  pub table : Table
  pub returns : run ≡ returned spec.0 v table
  pub valid : IsValid table
  pub holds : (q : List ℕ) → lookup table q ≡ spec.1 q

abbrev pub all_memory : Memory
all_memory = record { node_ok = true; key_ok = true; value_ok = true }

-- The circumstances of a call in which the thread library makes no error.
abbrev pub healthy : ℕ → Memory → Env
healthy self m = record { self = self; entry = all_ok; exit = all_ok; memory = m }

module _ (t : Table) (key : List ℕ) (ok : IsValid t) where
  pub home-lt : hash key t.hash_size < t.hash_size
  unfolding hash
  home-lt = omega (arith, ok.data_ok.positive)

  pub head-eq :
      get_elem? t.buckets (hash key t.hash_size) ≡ some (get_or t.buckets (hash key t.hash_size) [])
  head-eq =
      get_elem?-get_or t.buckets (hash key t.hash_size) []
        (omega (arith, home-lt, ok.data_ok.buckets_sized))

  -- Hash_search on a valid table returns 1 and the value under the key, or 0 where there is none,
  -- and leaves the map and the table's validity as they were; while the thread library makes no
  -- error.
  pub hash_search-Effect :
      (self : ℕ) (m : Memory)
      → Effect
          (hash_search (healthy self m) t key)
          (lookup t key)
          (present (lookup t) key, lookup t)
  unfolding hash_search with_head search_section
  hash_search-Effect self m =
      let n = t.hash_size in
      let i = hash key n in
      let head = get_or t.buckets i [] in
      let u =
        locked_lem (rwlock_read_lock all_ok) (rwlock_read_unlock all_ok) t i
          (search_section head key) (λ l f. read-Rounds l f) ok.locks_ok home-lt
          (λ u. ground arith) in
      record {
        table = record t { locks = u.locks' };
        returns = ground (arith, head-eq, u.runs, list_search-find head key);
        valid = record { data_ok = ok.data_ok; locks_ok = u.locks_ok };
        holds = λ q. refl;
      }

  -- Replacing the key's bucket replaces the value under the key.
  pub put-lookup :
      (b : List Node) (v : Option (List ℕ)) (q : List ℕ)
      → find b q ≡ put (find (get_or t.buckets (hash key t.hash_size) [])) key v q
      → find (get_or (set t.buckets (hash key t.hash_size) b) (hash q t.hash_size) []) q
        ≡ put (lookup t) key v q
  put-lookup b v q h =
      let n = t.hash_size in
      let same : same_string key q ≡ true → hash key n ≡ hash q n =
        λ e. ap (λ k. hash k n) ((same_string_iff key q).0 e) in
      ground (
        arith,
        h,
        same,
        get_or-set t.buckets (hash key n) (hash q n) b []
            (omega (arith, home-lt, ok.data_ok.buckets_sized)),
      )

  pub hash-same :
      (q : List ℕ) → same_string key q ≡ true → hash key t.hash_size ≡ hash q t.hash_size
  hash-same q e = ap (λ k. hash k t.hash_size) ((same_string_iff key q).0 e)

  pub set-lookup :
      (b : List Node) (q : List ℕ)
      → find (get_or (set t.buckets (hash key t.hash_size) b) (hash q t.hash_size) []) q
        ≡ (if hash key t.hash_size == hash q t.hash_size then find b q else lookup t q)
  set-lookup b q =
      let inside : hash key t.hash_size < length t.buckets =
        omega (arith, home-lt, ok.data_ok.buckets_sized) in
      ground (arith, get_or-set t.buckets (hash key t.hash_size) (hash q t.hash_size) b [] inside)
