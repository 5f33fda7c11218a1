-- ===== src/Heap/Bins.antt =====
-- SP_LAB3/src/heapmgr2.c: the bins of free chunks, by size. The record `Heap` has the memory and
-- its ends, with `large_chunk_free_head` for the head of its list; the arrays of bins are functions
-- on their indices.
pub mod Ranges
pub mod Search
pub mod Lists
pub mod Sorted
mod Tests
use fall_snu_system_pro.Base.{
  ℕ, zero, suc, ◌+◌, ◌-◌, ◌*◌, ◌^◌, Bool, true, false, ◌&&◌, Option, none, some, ◌==◌, leb, assert,
  ◌>>=◌, if◌then◌else◌,
}
use fall_snu_system_pro.Heap.Chunk.{chunk_get_units, chunk_get_status}
use fall_snu_system_pro.Heap.Manager
use fall_snu_system_pro.Heap.Manager.{Heap}
use fall_snu_system_pro.Heap.Malloc.{find_fit, fuel_of}

-- `&exponential_bins[i]`, `&fixed_bins[i]` and `&large_chunk_free_head`.
pub data Bin : Type 0 where
  exponential_bin fixed_bin : ℕ → Bin
  large_bin : Bin

pub record Bins : Type 0 where
  pub heap : Heap
  pub exponential_bins : ℕ → Option ℕ
  pub fixed_bins : ℕ → Option ℕ

abbrev pub exponential_limit : ℕ → ℕ
exponential_limit i = 1 * 2 ^ i

abbrev pub fixed_limit : ℕ → ℕ
fixed_limit i = 33 + (i + 1) * 32 - 1

-- The loops of `find_bin`, with `n` rounds left at the index `i`; a loop that ends falls through
-- to the last line.
unfoldable pub find_exponential : ℕ → ℕ → ℕ → Bin
find_exponential zero i units = large_bin
find_exponential (suc n) i units =
    let rest = find_exponential n (i + 1) units in
    if leb units (exponential_limit i) then exponential_bin i else rest

unfoldable pub find_fixed : ℕ → ℕ → ℕ → Bin
find_fixed zero i units = large_bin
find_fixed (suc n) i units =
    let rest = find_fixed n (i + 1) units in if leb units (fixed_limit i) then fixed_bin i else rest

unfoldable pub find_bin : ℕ → Bin
find_bin units =
    if leb units 32
    then find_exponential 6 0 units
    else if leb units 65536
    then find_fixed 2047 0 units
    else large_bin

abbrev pub head_of : Bins → Bin → Option ℕ
head_of b (exponential_bin i) = b.exponential_bins i
head_of b (fixed_bin i) = b.fixed_bins i
head_of b large_bin = b.heap.free_head

abbrev pub array_set : (ℕ → Option ℕ) → ℕ → Option ℕ → ℕ → Option ℕ
array_set f i v j = if i == j then v else f j

abbrev pub set_head : Bins → Bin → Option ℕ → Bins
set_head b (exponential_bin i) v = record b { exponential_bins = array_set b.exponential_bins i v }
set_head b (fixed_bin i) v = record b { fixed_bins = array_set b.fixed_bins i v }
set_head b large_bin v = record b { heap = record b.heap { free_head = v } }

-- A walk over one list, and the search behind it where it finds nothing.
abbrev pub or_else : Option (Option ℕ) → Option (Option ℕ) → Option (Option ℕ)
or_else none next = none
or_else (some none) next = next
or_else (some (some c)) next = some (some c)

-- The loops of `find_best_fit_chunk`, with `n` rounds left at the index `i`.
unfoldable pub search_exponential : Bins → ℕ → ℕ → ℕ → Option (Option ℕ)
search_exponential b zero i units = some none
search_exponential b (suc n) i units =
    let rest = search_exponential b n (i + 1) units in
    if leb units (1 * 2 ^ i)
    then or_else (find_fit (fuel_of b.heap) b.heap (b.exponential_bins i) units) rest
    else rest

unfoldable pub search_fixed : Bins → ℕ → ℕ → ℕ → Option (Option ℕ)
search_fixed b zero i units = some none
search_fixed b (suc n) i units =
    let rest = search_fixed b n (i + 1) units in
    if leb units (33 + i * 32)
    then or_else (find_fit (fuel_of b.heap) b.heap (b.fixed_bins i) units) rest
    else rest

unfoldable pub find_best_fit_chunk : Bins → ℕ → Option (Option ℕ)
find_best_fit_chunk b units =
    or_else (if leb units 32 then search_exponential b 6 0 units else some none) (
      or_else (if leb units 65536 then search_fixed b 2047 0 units else some none)
        (find_fit (fuel_of b.heap) b.heap b.heap.free_head units))

-- A function that works on `*free_head` is the one of heapmgr1.c on that head.
abbrev pub on_bin : Bins → Bin → (Heap → Option Heap) → Option Bins
on_bin b bin f = f (record b.heap { free_head = head_of b bin }) >>= (λ h.
    some (set_head (record b { heap = record h { free_head = b.heap.free_head } }) bin h.free_head))

unfoldable pub insert_chunk : Bins → ℕ → Option Bins
insert_chunk b c =
    chunk_get_units b.heap.memory c
    >>= (λ units. on_bin b (find_bin units) (λ h. Manager.insert_chunk h c))

unfoldable pub remove_chunk_from_list : Bins → ℕ → Option Bins
remove_chunk_from_list b c =
    chunk_get_units b.heap.memory c
    >>= (λ units. on_bin b (find_bin units) (λ h. Manager.remove_chunk_from_list h c))
