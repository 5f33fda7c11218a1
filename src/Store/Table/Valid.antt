-- ===== src/Store/Table/Valid.antt =====
-- SP_LAB5/src/hashtable.c: when the fields of a table agree with each other.
use fall_snu_system_pro.Base.{
  ℕ, zero, suc, ◌+◌, ◌≤◌, ◌<◌, ◌≡◌, ◌∙◌, arith, Option, some, List, [], ◌∷◌, ◌==◌, if◌then◌else◌,
  length, get_or, get_elem?, set, length-set, get_or-set, set-all,
}
use fall_snu_system_pro.Store.Chain.{Node}
use fall_snu_system_pro.Store.Chain.Lookup.{find, count}
use fall_snu_system_pro.Store.RwLock.{RwLock}
use fall_snu_system_pro.Store.Table.{Table, size_limit, hash}
use fall_snu_system_pro.Store.Table.Free.{IsFree}

abbrev pub total_length : List (List Node) → ℕ
total_length [] = 0
total_length (b ∷ bs) = length b + total_length bs

-- The data: a key is in its own bucket alone, and once; the counters count the nodes.
pub record IsData (hash_size : ℕ) (buckets : List (List Node)) (sizes : List ℕ) (total : ℕ)
    : Type 0 where
  pub positive : 0 < hash_size
  pub buckets_sized : length buckets ≡ hash_size
  pub sizes_sized : length sizes ≡ hash_size
  pub placed :
      (i : ℕ) (key : List ℕ)
      → count (get_or buckets i []) key ≤ (if hash key hash_size == i then 1 else 0)
  pub counted : (i : ℕ) → get_or sizes i 0 ≡ length (get_or buckets i [])
  pub summed : total ≡ total_length buckets
  pub fits : total < size_limit

-- There is a lock to each bucket, and it is free.
pub record IsLocked (hash_size : ℕ) (locks : List RwLock) : Type 0 where
  pub sized : length locks ≡ hash_size
  pub free : (i : ℕ) (l : RwLock) → get_elem? locks i ≡ some l → IsFree l

pub record IsValid (t : Table) : Type 0 where
  pub data_ok : IsData t.hash_size t.buckets t.bucket_sizes t.total_entries
  pub locks_ok : IsLocked t.hash_size t.locks

-- What the table holds under a key.
abbrev pub lookup : Table → List ℕ → Option (List ℕ)
lookup t key = find (get_or t.buckets (hash key t.hash_size) []) key

pub total_length-set :
    (bs : List (List Node)) (i : ℕ) (b : List Node)
    → i < length bs
    → total_length (set bs i b) + length (get_or bs i []) ≡ total_length bs + length b
total_length-set [] i b h = elim h [ ]
total_length-set (a ∷ bs) zero b h = omega arith
total_length-set (a ∷ bs) (suc i) b h = omega (arith, total_length-set bs i b (omega arith))

pub length-le-total_length :
    (bs : List (List Node)) (i : ℕ) → length (get_or bs i []) ≤ total_length bs
length-le-total_length [] i = omega arith
length-le-total_length (a ∷ bs) zero = omega arith
length-le-total_length (a ∷ bs) (suc i) = omega (arith, length-le-total_length bs i)

pub set-IsLocked :
    (n : ℕ) (locks : List RwLock) (i : ℕ) (l : RwLock)
    → IsLocked n locks
    → IsFree l
    → IsLocked n (set locks i l)
set-IsLocked n locks i l ok f = record {
  sized = length-set locks i l ∙ ok.sized;
  free = set-all locks i l ok.free f;
}

-- Replacing one bucket by a list whose keys belong there.
pub set-IsData :
    (n : ℕ) (buckets : List (List Node)) (sizes : List ℕ) (total i : ℕ) (b : List Node) (total' : ℕ)
    → i < n
    → IsData n buckets sizes total
    → ((key : List ℕ) → count b key ≤ (if hash key n == i then 1 else 0))
    → total + length b ≡ total' + length (get_or buckets i [])
    → total' < size_limit
    → IsData n (set buckets i b) (set sizes i (length b)) total'
set-IsData n buckets sizes total i b total' h ok placed' moved fits' =
    let hb : i < length buckets = omega (arith, ok.buckets_sized) in
    let hs : i < length sizes = omega (arith, ok.sizes_sized) in
    record {
      positive = ok.positive;
      buckets_sized = length-set buckets i b ∙ ok.buckets_sized;
      sizes_sized = length-set sizes i (length b) ∙ ok.sizes_sized;
      placed =
          λ j key. ground (arith, get_or-set buckets i j b [] hb, ok.placed j key, placed' key);
      counted = λ j. ground (
        arith,
        get_or-set buckets i j b [] hb,
        get_or-set sizes i j (length b) 0 hs,
        ok.counted j,
      );
      summed = omega (arith, total_length-set buckets i b hb, ok.summed);
      fits = fits';
    }
