-- ===== src/Store/Table.antt =====
-- SP_LAB5/src/hashtable.c: the table of buckets, each behind a reader-writer lock. A call that
-- finds its lock taken is `blocked`; `fault` is an access out of bounds.
pub mod Free
pub mod Valid
pub mod Calls
pub mod Map
pub mod Create
pub mod Change
pub mod Remove
pub mod Fresh
pub mod Stale
use fall_snu_system_pro.Base.{
  ℕ, zero, suc, ◌+◌, ◌-◌, ◌*◌, ◌%◌, ◌^◌, Bool, not, Option, none, some, List, [], ◌∷◌, ◌==◌, ltb,
  if◌then◌else◌, get_or, get_elem?, set, replicate,
}
use fall_snu_system_pro.Store.Chain.{
  Node, Memory, Result, done, not_done, internal_error, list_search, list_insert, list_update,
  list_delete,
}
use fall_snu_system_pro.Store.RwLock.{
  RwLock, Pthread, Call, returns, waits, Code, success, failure, Setup, Pointer, rwlock_init,
  rwlock_destroy, rwlock_read_lock, rwlock_read_unlock, rwlock_write_lock, rwlock_write_unlock,
}

-- `hashtable_t`
pub record Table : Type 0 where
  pub buckets : List (List Node)
  pub locks : List RwLock
  pub bucket_sizes : List ℕ
  pub total_entries : ℕ
  pub hash_size : ℕ

abbrev pub size_limit : ℕ
size_limit = 2 ^ 64

-- A `char` is signed: added to an `unsigned int`, one from 128 on is its value less 256.
abbrev pub sign_extend : ℕ → ℕ
sign_extend c = if ltb c 128 then c else c + 2 ^ 32 - 256

unfoldable pub hash_loop : ℕ → List ℕ → ℕ
hash_loop h [] = h
hash_loop h (c ∷ key) = hash_loop ((h * 32 + sign_extend c) % 2 ^ 32) key

-- A table has at least one bucket.
unfoldable pub hash : List ℕ → ℕ → ℕ
hash key hash_size = hash_loop 0 key % hash_size

-- How `hash_init` ends: with what it made, with a NULL, or undefined.
pub data Init {ℓ} (A : Type ℓ) : Type ℓ where
  made : A → Init A
  refused undefined : Init A

-- The locks of `hash_init` from bucket `i` on, by what `malloc` left in the memory of each.
unfoldable pub init_locks : (ℕ → Setup) → (ℕ → Pointer) → ℕ → ℕ → ℕ → Init (List RwLock)
init_locks setup old delay i zero = made []
init_locks setup old delay i (suc n) =
    let rest = init_locks setup old delay (i + 1) n in
    elim (rwlock_init (setup i) (old i) delay) [
      | none ↦ undefined
      | some (failure, l) ↦ refused
      | some (success, l) ↦ elim rest [
        | made ls ↦ made (l ∷ ls)
        | refused ↦ refused
        | undefined ↦ undefined
      ]
    ]

-- The Boolean is whether the four `malloc`s succeed. From 2 ^ 31 buckets on, the `int i` of the
-- loop overflows, and the sizes for `malloc` may wrap around: taken as undefined.
unfoldable pub hash_init : Bool → (ℕ → Setup) → (ℕ → Pointer) → ℕ → ℕ → Init Table
unfolding init_locks
hash_init ok setup old hash_size delay =
    let locks = init_locks setup old delay 0 hash_size in
    if not ok
    then refused
    else if ltb hash_size (2 ^ 31)
    then elim locks [
      | undefined ↦ undefined
      | refused ↦ refused
      | made ls ↦ made (record {
        buckets = replicate hash_size [];
        locks = ls;
        bucket_sizes = replicate hash_size 0;
        total_entries = 0;
        hash_size = hash_size;
      })
    ]
    else undefined

-- The locks are destroyed in order, up to the first failure.
unfoldable pub destroy_locks : (ℕ → Setup) → ℕ → List RwLock → Code
destroy_locks setup i [] = success
destroy_locks setup i (l ∷ ls) =
    let rest = destroy_locks setup (i + 1) ls in
    let (code, m) = rwlock_destroy (setup i) l in elim code [ failure ↦ failure | success ↦ rest ]

unfoldable pub hash_destroy : (ℕ → Setup) → Table → Code
unfolding destroy_locks
hash_destroy setup t = destroy_locks setup 0 t.locks

-- The circumstances of one call: its thread, what the thread library answers when the lock is
-- taken and released, and the memory.
pub record Env : Type 0 where
  pub self : ℕ
  pub entry : Pthread
  pub exit : Pthread
  pub memory : Memory

-- The result, what `*value` was set to, and the table.
pub data Outcome : Type 0 where
  returned : Result → Option (List ℕ) → Table → Outcome
  blocked : Table → Outcome
  fault : Outcome

abbrev pub set_lock : Table → ℕ → RwLock → Table
set_lock t i l = record t { locks = set t.locks i l }

-- The end of a call after the lock is released: -1 if that fails.
abbrev pub released : Result → Option (List ℕ) → Table → ℕ → Call → Outcome
released r v t i (returns success w l) = returned r v (set_lock t i l)
released r v t i (returns failure w l) = returned internal_error v (set_lock t i l)
released r v t i (waits w l) = blocked (set_lock t i l)

-- After the critical section.
abbrev pub release : (RwLock → Call) → ℕ → Result × Option (List ℕ) × Table → Outcome
release unlock i (r, v, t) = elim (get_elem? t.locks i) [
  | none ↦ fault
  | some l ↦ released r v t i (unlock l)
]

-- What follows the attempt to take the lock.
abbrev pub acquired :
    (RwLock → Call) → Table → ℕ → (Table → Result × Option (List ℕ) × Table) → Call → Outcome
acquired unlock t i section (waits w l) = blocked (set_lock t i l)
acquired unlock t i section (returns failure w l) = returned internal_error none (set_lock t i l)
acquired unlock t i section (returns success w l) = release unlock i (section (set_lock t i l))

-- A critical section between a lock and an unlock of bucket `i`.
unfoldable pub locked :
    (RwLock → Call)
    → (RwLock → Call)
    → Table
    → ℕ
    → (Table → Result × Option (List ℕ) × Table)
    → Outcome
locked lock unlock t i section = elim (get_elem? t.locks i) [
  | none ↦ fault
  | some l ↦ acquired unlock t i section (lock l)
]

-- Between `hash` and the lock every operation reads `buckets[index]` into `head`.
unfoldable pub with_head : Table → ℕ → (List Node → Outcome) → Outcome
with_head t i rest = elim (get_elem? t.buckets i) [ none ↦ fault | some head ↦ rest head ]

-- The critical section of `hash_insert`, with the `head` that was read before.
unfoldable pub insert_section :
    Memory → ℕ → List Node → List ℕ → List ℕ → Table → Result × Option (List ℕ) × Table
insert_section m i head key value t =
    let (r, head') = list_insert m head key value in
    elim r [
      | done ↦ (
        done,
        none,
        record t {
          buckets = set t.buckets i head';
          bucket_sizes = set t.bucket_sizes i ((get_or t.bucket_sizes i 0 + 1) % size_limit);
          total_entries = (t.total_entries + 1) % size_limit;
        },
      )
      | other ↦ (other, none, t)
    ]

-- `hash_insert` in a thread that reads the head of the bucket while the table is `before`, and gets
-- to the lock while it is `now`: other threads may run between the two.
unfoldable pub hash_insert_between : Env → Table → Table → List ℕ → List ℕ → Outcome
unfolding locked with_head
hash_insert_between e before now key value =
    let i = hash key before.hash_size in
    with_head before i (λ head.
      locked (rwlock_write_lock e.entry e.self) (rwlock_write_unlock e.exit) now i
        (insert_section e.memory i head key value))

-- Without a turn of another thread between the two.
unfoldable pub hash_insert : Env → Table → List ℕ → List ℕ → Outcome
unfolding hash_insert_between
hash_insert e t key value = hash_insert_between e t t key value

unfoldable pub search_section : List Node → List ℕ → Table → Result × Option (List ℕ) × Table
search_section head key t = elim (list_search head key) [
  | none ↦ (not_done, none, t)
  | some n ↦ (done, some n.value, t)
]

unfoldable pub hash_search : Env → Table → List ℕ → Outcome
unfolding locked with_head
hash_search e t key =
    let i = hash key t.hash_size in
    with_head t i (λ head.
      locked (rwlock_read_lock e.entry) (rwlock_read_unlock e.exit) t i (search_section head key))

-- The node is changed in place, so the bucket has the new list of nodes.
unfoldable pub update_section :
    Memory → ℕ → List Node → List ℕ → List ℕ → Table → Result × Option (List ℕ) × Table
update_section m i head key value t =
    let (r, head') = list_update m head key value in
    (r, none, record t { buckets = set t.buckets i head' })

unfoldable pub hash_update : Env → Table → List ℕ → List ℕ → Outcome
unfolding locked with_head
hash_update e t key value =
    let i = hash key t.hash_size in
    with_head t i (λ head.
      locked (rwlock_write_lock e.entry e.self) (rwlock_write_unlock e.exit) t i
        (update_section e.memory i head key value))

unfoldable pub delete_section : ℕ → List Node → List ℕ → Table → Result × Option (List ℕ) × Table
delete_section i head key t =
    let (r, head') = list_delete head key in
    elim r [
      | done ↦ (
        done,
        none,
        record t {
          buckets = set t.buckets i head';
          bucket_sizes =
              set t.bucket_sizes i ((get_or t.bucket_sizes i 0 + size_limit - 1) % size_limit);
          total_entries = (t.total_entries + size_limit - 1) % size_limit;
        },
      )
      | other ↦ (other, none, t)
    ]

unfoldable pub hash_delete : Env → Table → List ℕ → Outcome
unfolding locked with_head
hash_delete e t key =
    let i = hash key t.hash_size in
    with_head t i (λ head.
      locked (rwlock_write_lock e.entry e.self) (rwlock_write_unlock e.exit) t i
        (delete_section i head key))
