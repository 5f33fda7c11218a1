-- ===== src/Heap/Malloc/Alloc.antt =====
-- SP_LAB3/src/heapmgr1.c: what `heapmgr_malloc` does to the allocated chunks.
use fall_snu_system_pro.Base.{
  ℕ, ◌+◌, ◌*◌, ◌%◌, ◌^◌, ◌≤◌, ◌<◌, ◌≡◌, ◌⊎◌, inl, inr, refl, ap, ◌∙◌, arith, true, Option, none,
  some, List, length, Option-cases,
}
use fall_snu_system_pro.Heap.Chunk.{Chunk}
use fall_snu_system_pro.Heap.Links.{has}
use fall_snu_system_pro.Heap.Blocks.{Block, find}
use fall_snu_system_pro.Heap.Manager.{Heap, size_to_units}
use fall_snu_system_pro.Heap.Malloc.{
  find_fit, fuel_of, allocate_more_memory, malloc_more, malloc_from, at_least, take_fit,
}
use fall_snu_system_pro.Heap.Malloc.Sound.{Sound, length-fs}
use fall_snu_system_pro.Heap.Malloc.Check.{checked_lem, find_fit-found}
use fall_snu_system_pro.Heap.Malloc.Take.{Allocated, take_fit-Allocated}
use fall_snu_system_pro.Heap.Malloc.Grow.{grow-Allocated}

-- What `sbrk` promises: it fails, or adds as many bytes as a request asks for that is positive as
-- a signed number.
abbrev pub Grows : (ℕ → Option (List Chunk)) → Type 0
Grows sbrk = (n : ℕ) (new : List Chunk) → n < 2 ^ 63 → sbrk n ≡ some new → length new * 16 ≡ n

at_least-bounds :
    (units : ℕ) → units < 2 ^ 31 → (units ≤ at_least units) × (at_least units < 2 ^ 32)
at_least-bounds units small = ground arith

-- The result of an allocation, whatever computed it.
settled :
    (h : Heap) (bs : List Block) (units : ℕ) (run : Option (ℕ × Heap))
    (a : Allocated h bs units run)
    → Allocated h bs units (some (a.chunk, a.heap))
settled h bs units run a = record {
  chunk = a.chunk;
  heap = a.heap;
  runs = refl;
  blocks = a.blocks;
  list = a.list;
  sound = a.sound;
  fresh = a.fresh;
  size = a.size;
  large = a.large;
  table = a.table;
  same_start = a.same_start;
}

module _ (sbrk : ℕ → Option (List Chunk)) (grows : Grows sbrk) (h : Heap) (bs : List Block)
    (fs : List ℕ) (so : Sound h bs fs) (units : ℕ) (pos : 0 < units) (small : units < 2 ^ 31) where
  abbrev bytes : ℕ
  bytes = (at_least units + 2) * 16

  no_wrap : bytes % 2 ^ 64 ≡ bytes
  no_wrap = omega (arith, at_least-bounds units small)

  more_fails : sbrk bytes ≡ none → malloc_more sbrk h units ≡ some (none, h)
  unfolding malloc_more allocate_more_memory
  more_fails e =
      let answer : sbrk (bytes % 2 ^ 64) ≡ none = ap sbrk no_wrap ∙ e in
      ground (arith, answer, checked_lem h bs fs so)

  more_grows :
      (new : List Chunk)
      → sbrk bytes ≡ some new
      → (c : ℕ) × (h' : Heap) × (malloc_more sbrk h units ≡ some (some (c + 1), h'))
        × Allocated h bs units (some (c, h'))
  unfolding malloc_more allocate_more_memory
  more_grows new e =
      let enough : length new ≡ at_least units + 2 =
        omega (arith, grows bytes new (omega (arith, at_least-bounds units small)) e) in
      let answer : sbrk (bytes % 2 ^ 64) ≡ some new = ap sbrk no_wrap ∙ e in
      let g =
        grow-Allocated h bs fs so new (at_least units) enough units pos
          (at_least-bounds units small).0 in
      (
        g.chunk,
        g.heap,
        ground (arith, answer, g.runs, checked_lem g.heap g.blocks g.list g.sound),
        settled h bs units _ g,
      )

  -- The chunk comes from the list or from new memory; where there is neither, the heap stays.
  pub malloc_from-Allocated :
      (size : ℕ)
      → size_to_units size ≡ units
      → ((malloc_from sbrk h size ≡ some (none, h))
          × (sbrk bytes ≡ none)
          × ((d : ℕ) (b : Block)
              → has d fs ≡ true
              → find h.heap_start bs d ≡ some b
              → b.units < units))
        ⊎ ((c : ℕ) × (h' : Heap) × (malloc_from sbrk h size ≡ some (some (c + 1), h'))
            × Allocated h bs units (some (c, h')))
  unfolding malloc_from
  malloc_from-Allocated size eq =
      let valid = checked_lem h bs fs so in
      elim (find_fit-found h bs fs so (fuel_of h) none h.free_head fs units so.listed.linked
        (λ d m. m) (omega (arith, length-fs h bs fs so.listed))) [
          | inl (nothing, smaller) ↦
              let nothing' : find_fit (fuel_of h) h h.free_head (size_to_units size) ≡ some none =
                ap (find_fit (fuel_of h) h h.free_head) eq ∙ nothing in
              let more : malloc_more sbrk h (size_to_units size) ≡ malloc_more sbrk h units =
                ap (malloc_more sbrk h) eq in
              elim (Option-cases (sbrk bytes)) [
                | inl e ↦ inl (ground (arith, valid, nothing', more, more_fails e), e, smaller)
                | inr (new, e) ↦
                    let (c, h', runs, a) = more_grows new e in
                    inr (c, h', ground (arith, valid, nothing', more, runs), a)
              ]
          | inr (c, b, at_c, found, m, large) ↦
              let at_c' : find_fit (fuel_of h) h h.free_head (size_to_units size) ≡ some (some c) =
                ap (find_fit (fuel_of h) h h.free_head) eq ∙ at_c in
              let a = take_fit-Allocated h bs fs so c b found m units pos large in
              let taken : take_fit h c (size_to_units size) ≡ some (a.chunk, a.heap) =
                ap (take_fit h c) eq ∙ a.runs in
              inr (
                a.chunk,
                a.heap,
                ground (arith, valid, at_c', taken, checked_lem a.heap a.blocks a.list a.sound),
                settled h bs units _ a,
              )
        ]
