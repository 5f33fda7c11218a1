-- ===== src/Heap/Blocks/Rep.antt =====
-- SP_LAB3/src: what a memory holds of a list of chunks, and what chunk.c reads of it.
pub mod Write
pub mod Units
use fall_snu_system_pro.Base.{
  ℕ, ◌+◌, ◌-◌, ◌≤◌, ◌<◌, ◌≡◌, ◌≢◌, ◌⊎◌, refl, sym, ap, ◌∙◌, arith, Bool, true, Option, none, some,
  List, ◌==◌, if◌then◌else◌, length, get_elem?,
}
use fall_snu_system_pro.Heap.Chunk.{
  Status, Chunk, Found, at, null, chunk_get_status, chunk_get_units, chunk_get_next_free_chunk,
  chunk_footer_get_units, chunk_footer_get_prev_free_chunk, chunk_get_next_adjacent,
  chunk_get_prev_adjacent, chunk_get_footer_from_header, chunk_is_valid,
}
use fall_snu_system_pro.Heap.Blocks.{Block, span, find, find-in, find_next, find_prev}
use fall_snu_system_pro.Heap.Manager.{Heap, footer_of}

abbrev pub header_of : Block → Chunk
header_of b = record { link = b.next; units = b.units; status = b.status }

abbrev pub tail_of : Block → Chunk
tail_of b = record { link = b.prev; units = b.units; status = b.unread }

pub record Holds (mem : List Chunk) (c : ℕ) (b : Block) : Type 0 where
  pub header : get_elem? mem c ≡ some (header_of b)
  pub footer : get_elem? mem (c + b.units + 1) ≡ some (tail_of b)

-- The chunks fill the heap.
pub record Rep (h : Heap) (bs : List Block) : Type 0 where
  pub ends : h.heap_start + span bs ≡ h.heap_end
  pub sized : length h.memory ≡ h.heap_end
  pub holds : (c : ℕ) (b : Block) → find h.heap_start bs c ≡ some b → Holds h.memory c b

module _ (h : Heap) (bs : List Block) (r : Rep h bs) (c : ℕ) (b : Block)
    (found : find h.heap_start bs c ≡ some b) where
  pub read_units : chunk_get_units h.memory c ≡ some b.units
  unfolding chunk_get_units
  read_units = ground (arith, (r.holds c b found).header)

  pub read_status : chunk_get_status h.memory c ≡ some b.status
  unfolding chunk_get_status
  read_status = ground (arith, (r.holds c b found).header)

  pub read_next : chunk_get_next_free_chunk h.memory c ≡ some b.next
  unfolding chunk_get_next_free_chunk
  read_next = ground (arith, (r.holds c b found).header)

  pub read_prev : chunk_footer_get_prev_free_chunk h.memory (c + b.units + 1) ≡ some b.prev
  unfolding chunk_footer_get_prev_free_chunk
  read_prev = ground (arith, (r.holds c b found).footer)

  pub read_footer : footer_of h h.memory c ≡ some (c + b.units + 1)
  unfolding chunk_get_footer_from_header
  read_footer = ground (arith, read_units, find-in h.heap_start bs c b found, r.ends)

  pub read_valid : 0 < b.units → chunk_is_valid h.memory c h.heap_start h.heap_end ≡ some true
  unfolding chunk_is_valid
  read_valid pos = ground (arith, read_units, find-in h.heap_start bs c b found, r.ends)

  -- The next chunk in memory.
  pub next_there :
      (b' : Block)
      → find h.heap_start bs (c + b.units + 2) ≡ some b'
      → chunk_get_next_adjacent h.memory c h.heap_start h.heap_end ≡ at (c + b.units + 2)
  unfolding chunk_get_next_adjacent
  next_there b' f = ground (
    arith,
    read_units,
    find-in h.heap_start bs c b found,
    find-in h.heap_start bs (c + b.units + 2) b' f,
    r.ends,
  )

  pub next_end :
      find h.heap_start bs (c + b.units + 2) ≡ none
      → chunk_get_next_adjacent h.memory c h.heap_start h.heap_end ≡ null
  unfolding chunk_get_next_adjacent
  next_end f = ground (
    arith,
    read_units,
    find-in h.heap_start bs c b found,
    find_next h.heap_start bs c b found f,
    r.ends,
  )

  -- The chunk before it.
  pub prev_there :
      (d : ℕ) (b' : Block)
      → find h.heap_start bs d ≡ some b'
      → d + b'.units + 2 ≡ c
      → chunk_get_prev_adjacent h.memory c h.heap_start h.heap_end ≡ at d
  unfolding chunk_get_prev_adjacent chunk_footer_get_units
  prev_there d b' f e =
      let eq : d + b'.units + 1 ≡ c - 1 = omega arith in
      let unit : get_elem? h.memory (c - 1) ≡ some (tail_of b') =
        ap (get_elem? h.memory) (sym eq) ∙ (r.holds d b' f).footer in
      ground
        (arith, unit, find-in h.heap_start bs c b found, find-in h.heap_start bs d b' f, r.ends)

  pub prev_start :
      h.heap_start ≡ c → chunk_get_prev_adjacent h.memory c h.heap_start h.heap_end ≡ null
  unfolding chunk_get_prev_adjacent
  prev_start e = ground (arith, find-in h.heap_start bs c b found, r.ends)
