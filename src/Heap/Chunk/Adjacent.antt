-- ===== src/Heap/Chunk/Adjacent.antt =====
-- SP_LAB3/src/chunk.c: finding a chunk's footer, its header and its neighbours.
use fall_snu_system_pro.Base.{ℕ, ◌+◌, ◌-◌, ◌≤◌, ◌≡◌, ap, ◌∙◌, arith, some, List}
use fall_snu_system_pro.Heap.Chunk.{
  Chunk, chunk_get_units, chunk_footer_get_units, at, null, chunk_get_next_adjacent,
  chunk_get_prev_adjacent, chunk_get_header_from_footer, chunk_get_footer_from_header,
}

-- A chunk of `n` data units at `c` inside the heap: its header and its footer know its size.
pub record IsChunk (mem : List Chunk) (start end' c n : ℕ) : Type 0 where
  pub header : chunk_get_units mem c ≡ some n
  pub footer : chunk_footer_get_units mem (c + n + 1) ≡ some n
  pub lower : start ≤ c
  pub upper : c + n + 2 ≤ end'

-- The footer found from the header of a chunk is its last unit, and the header found from that
-- footer is the chunk.
pub footer-header :
    (mem : List Chunk) (start end' c n : ℕ)
    → IsChunk mem start end' c n
    → (chunk_get_footer_from_header mem c start end' ≡ at (c + n + 1))
      × (chunk_get_header_from_footer mem (c + n + 1) start end' ≡ at c)
unfolding chunk_get_footer_from_header chunk_get_header_from_footer
footer-header mem start end' c n h = ground (arith, h.header, h.footer, h.lower, h.upper)

-- When two chunks follow each other in the heap, the next chunk of the first is the second, and
-- the previous chunk of the second is the first.
pub next-prev :
    (mem : List Chunk) (start end' c n k : ℕ)
    → IsChunk mem start end' c n
    → IsChunk mem start end' (c + n + 2) k
    → (chunk_get_next_adjacent mem c start end' ≡ at (c + n + 2))
      × (chunk_get_prev_adjacent mem (c + n + 2) start end' ≡ at c)
unfolding chunk_get_next_adjacent chunk_get_prev_adjacent
next-prev mem start end' c n k h h' =
    let footer' : chunk_footer_get_units mem (c + n + 2 - 1) ≡ some n =
      ap (chunk_footer_get_units mem) (omega arith) ∙ h.footer in
    ground (arith, h.header, footer', h.lower, h.upper, h'.upper)

-- The chunk at the start of the heap has no previous chunk, and the chunk that ends at the end of
-- the heap has no next one.
pub next-prev_ends :
    (mem : List Chunk) (start end' c n k : ℕ)
    → IsChunk mem start end' start k
    → IsChunk mem start end' c n
    → c + n + 2 ≡ end'
    → (chunk_get_prev_adjacent mem start start end' ≡ null)
      × (chunk_get_next_adjacent mem c start end' ≡ null)
unfolding chunk_get_next_adjacent chunk_get_prev_adjacent
next-prev_ends mem start end' c n k h h' e = ground (arith, h'.header, h'.lower, h.upper)
