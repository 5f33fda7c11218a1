-- ===== src/Heap/Bins/Tests.antt =====
-- SP_LAB3/src/heapmgr2.c: the theorems on the bins, at a heap of one chunk.
use fall_snu_system_pro.Base.{
  Option, true, ℕ, zero, suc, ◌≡◌, refl, arith, none, some, List, [], ◌∷◌, ◌++◌, ◌==◌,
  if◌then◌else◌,
}
use fall_snu_system_pro.Heap.Chunk.{
  Chunk, chunk_free, chunk_in_use, chunk_get_units, chunk_get_next_free_chunk,
}
use fall_snu_system_pro.Heap.Manager.{Heap}
use fall_snu_system_pro.Heap.Malloc.{find_fit}
use fall_snu_system_pro.Heap.Blocks.{Block, find}
use fall_snu_system_pro.Heap.Blocks.Rep.{Rep, header_of, tail_of}
use fall_snu_system_pro.Heap.Blocks.Rep.Units.{Holds-moved}
use fall_snu_system_pro.Heap.FreeList.{shape, used}
use fall_snu_system_pro.Heap.Bins.{
  Bin, exponential_bin, large_bin, remove_chunk_from_list, Bins, fixed_bin, find_bin, find_fixed,
  set_head, search_exponential, search_fixed, find_best_fit_chunk, insert_chunk,
}
use fall_snu_system_pro.Heap.Bins.Ranges.{Fits, find_bin-Fits}
use fall_snu_system_pro.Heap.Bins.Search.{find_best_fit_chunk-set_head}
use fall_snu_system_pro.Heap.Links.{has, erase}
use fall_snu_system_pro.Heap.Bins.Sorted.{
  BinList, Sorted, Resorted, with_list, insert_chunk-Resorted, remove_chunk_from_list-Resorted,
}

find_bin-Fits_example : Fits (find_bin 40) 40
find_bin-Fits_example = find_bin-Fits 40 (omega arith)

-- A free chunk of 60 units, whose links are NULL.
abbrev only : Block
only = record { units = 60; status = chunk_free; next = none; prev = none; unread = chunk_free }

abbrev units_of : ℕ → List Chunk
units_of zero = []
units_of (suc n) = record { link = none; units = 0; status = chunk_in_use } ∷ units_of n

abbrev heap : Heap
heap = record {
  memory = header_of only ∷ units_of 60 ++ tail_of only ∷ [];
  heap_start = 0;
  heap_end = 62;
  free_head = none;
}

-- The chunk is in the first fixed bin.
abbrev first_bin : ℕ → Option ℕ
first_bin zero = some 0
first_bin (suc i) = none

abbrev bins : Bins
bins = record { heap = heap; exponential_bins = λ i. none; fixed_bins = first_bin }

-- The search for 40 units does not find it.
missed : find_best_fit_chunk bins 40 ≡ some none
unfolding find_best_fit_chunk search_exponential search_fixed find_fit chunk_get_units
    chunk_get_next_free_chunk
missed = refl

find_best_fit_chunk-set_head_example :
    find_best_fit_chunk (set_head bins (fixed_bin 0) none) 40 ≡ find_best_fit_chunk bins 40
find_best_fit_chunk-set_head_example =
    find_best_fit_chunk-set_head bins 0 none 40 (omega arith, omega arith, omega arith)
      (omega arith)

abbrev empty_bins : Bins
empty_bins = record { heap = heap; exponential_bins = λ i. none; fixed_bins = λ i. none }

at_zero : find 0 (only ∷ []) 0 ≡ some only
unfolding find
at_zero = refl

only-Rep : (head : Option ℕ) → Rep (record heap { free_head = head }) (only ∷ [])
unfolding find
only-Rep head = record {
  ends = refl;
  sized = refl;
  holds = λ c b f.
      Holds-moved heap.memory 0 c only b (ground (arith, f)) (ground (arith, f))
        (record { header = refl; footer = refl });
}

-- A bin without chunks.
no_chunk : (bin : Bin) → BinList heap (only ∷ []) bin []
no_chunk bin = record {
  listed = record {
    rep = only-Rep none;
    linked = refl;
    nodup = refl;
    free = λ c m. absurd (ground (arith, m));
  };
  sizes = λ c x m e. absurd (ground (arith, m));
}

empty_bins-Sorted : Sorted empty_bins (only ∷ []) (λ bin. [])
empty_bins-Sorted (exponential_bin i) = no_chunk (exponential_bin i)
empty_bins-Sorted (fixed_bin i) = no_chunk (fixed_bin i)
empty_bins-Sorted large_bin = no_chunk large_bin

insert_chunk-Resorted_example :
    Resorted empty_bins
      (insert_chunk empty_bins 0)
      (with_list (λ bin. []) (find_bin 60) (0 ∷ []))
      (λ d. shape (find 0 (only ∷ []) d))
insert_chunk-Resorted_example =
    insert_chunk-Resorted empty_bins (only ∷ []) (λ bin. []) empty_bins-Sorted 0 only at_zero refl
      (omega arith) refl

abbrev lists : Bin → List ℕ
lists (exponential_bin i) = []
lists (fixed_bin zero) = 0 ∷ []
lists (fixed_bin (suc i)) = []
lists large_bin = []

-- The bin of the chunk.
one_chunk : BinList (record heap { free_head = some 0 }) (only ∷ []) (fixed_bin 0) (0 ∷ [])
unfolding find find_bin find_fixed
one_chunk = record {
  listed = record {
    rep = only-Rep (some 0);
    linked = (refl, refl, refl);
    nodup = refl;
    free = λ c m. ground (arith, m);
  };
  sizes = λ c x m e. ground (arith, m, e);
}

bins-Sorted : Sorted bins (only ∷ []) lists
bins-Sorted (exponential_bin i) = no_chunk (exponential_bin i)
bins-Sorted (fixed_bin zero) = one_chunk
bins-Sorted (fixed_bin (suc i)) = no_chunk (fixed_bin (suc i))
bins-Sorted large_bin = no_chunk large_bin

in_list : has 0 (lists (find_bin 60)) ≡ true
unfolding find_bin find_fixed
in_list = refl

remove_chunk_from_list-Resorted_example :
    Resorted bins
      (remove_chunk_from_list bins 0)
      (with_list lists (find_bin 60) (erase (lists (find_bin 60)) 0))
      (λ d. if 0 == d then used (shape (find 0 (only ∷ []) d)) else shape (find 0 (only ∷ []) d))
remove_chunk_from_list-Resorted_example =
    remove_chunk_from_list-Resorted bins (only ∷ []) lists bins-Sorted 0 only at_zero in_list
