-- ===== src/Heap/Tests.antt =====
-- SP_LAB3/src: the theorems at a heap of two chunks.
use fall_snu_system_pro.Base.{ℕ, none, some, List, [], ◌∷◌, ◌≡◌, refl, arith}
use fall_snu_system_pro.Heap.Chunk.{
  Chunk, chunk_in_use, chunk_get_status, chunk_get_units, chunk_footer_get_units, at,
  chunk_get_next_adjacent, chunk_get_prev_adjacent,
}
use fall_snu_system_pro.Heap.Chunk.Adjacent.{IsChunk, next-prev}
use fall_snu_system_pro.Heap.Manager.{Heap, merge_chunk}
use fall_snu_system_pro.Heap.Manager.Merge.{Merged, merge_chunk-Merged}

abbrev unit_of : ℕ → Chunk
unit_of n = record { link = none; units = n; status = chunk_in_use }

-- Chunks of one and of two units.
abbrev heap : List Chunk
heap = unit_of 1 ∷ unit_of 0 ∷ unit_of 1 ∷ unit_of 2 ∷ unit_of 0 ∷ unit_of 0 ∷ unit_of 2 ∷ []

first-IsChunk : IsChunk heap 0 7 0 1
unfolding chunk_get_units chunk_footer_get_units
first-IsChunk = record { header = refl; footer = refl; lower = omega arith; upper = omega arith }

last-IsChunk : IsChunk heap 0 7 3 2
unfolding chunk_get_units chunk_footer_get_units
last-IsChunk = record { header = refl; footer = refl; lower = omega arith; upper = omega arith }

next-prev_example :
    (chunk_get_next_adjacent heap 0 0 7 ≡ at 3) × (chunk_get_prev_adjacent heap 3 0 7 ≡ at 0)
next-prev_example = next-prev heap 0 7 0 1 2 first-IsChunk last-IsChunk

abbrev manager : Heap
manager = record { memory = heap; heap_start = 0; heap_end = 7; free_head = none }

in_use :
    (chunk_get_status heap 0 ≡ some chunk_in_use) × (chunk_get_status heap 3 ≡ some chunk_in_use)
unfolding chunk_get_status
in_use = (refl, refl)

merge_chunk-Merged_example : Merged manager 0 1 2 (merge_chunk manager 0 3)
merge_chunk-Merged_example =
    merge_chunk-Merged manager 0 1 2 first-IsChunk last-IsChunk in_use.0 in_use.1 (omega arith)
