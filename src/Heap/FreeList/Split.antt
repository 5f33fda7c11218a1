-- ===== src/Heap/FreeList/Split.antt =====
-- SP_LAB3/src/heapmgr1.c: `split_chunk` makes two chunks of the list of one.
pub mod Cells
use fall_snu_system_pro.Base.{
  ℕ, ◌+◌, ◌-◌, ◌≤◌, ◌<◌, ◌≡◌, refl, ap, ◌∙◌, arith, Bool, true, false, Option, none, some, List,
  if◌then◌else◌, ◌==◌, Option-cases, inl, inr,
}
use fall_snu_system_pro.Heap.Chunk.{Status, chunk_free, Chunk, chunk_get_status, chunk_get_units}
use fall_snu_system_pro.Heap.Links.{has, next-in, points}
use fall_snu_system_pro.Heap.Links.After.{
  put_after, has-put_after, distinct-put_after, Linked-put_after,
}
use fall_snu_system_pro.Heap.Blocks.{Block, find, update, find-in, find-apart, find-update}
use fall_snu_system_pro.Heap.Blocks.Cut.{cut, find-cut}
use fall_snu_system_pro.Heap.Blocks.Rep.{
  Rep, read_units, read_status, read_footer, read_next, read_prev,
}
use fall_snu_system_pro.Heap.Blocks.Rep.Write.{with_memory, put_prev, Wrote, write_prev_of}
use fall_snu_system_pro.Heap.Manager.{Heap, is_free, relink, split_chunk}
use fall_snu_system_pro.Heap.FreeList.{next_at, prev_at, shape, free_shape, Listed, Returned}

-- The last step, on a heap with the chunks `bs`.
record LinkedUp (h : Heap) (bs : List Block) (v : Option ℕ) (e : ℕ) : Type 0 where
  memory : List Chunk
  runs : relink h h.memory v e ≡ some memory
  blocks : List Block
  rep : Rep (with_memory h memory) blocks
  links :
      (d : ℕ)
      → find h.heap_start blocks d ≡ (
          if points v d
          then elim (find h.heap_start bs d) [
            | none ↦ none
            | some x ↦ some (record x { prev = some e })
          ]
          else find h.heap_start bs d)

relink_lem :
    (h : Heap) (bs : List Block) (v : Option ℕ) (e : ℕ)
    → Rep h bs
    → ((q : ℕ) → v ≡ some q → (x : Block) × (find h.heap_start bs q ≡ some x))
    → LinkedUp h bs v e
relink_lem h bs none e r there = record {
  memory = h.memory;
  runs = refl;
  blocks = bs;
  rep = r;
  links = λ d. refl;
}
relink_lem h bs (some q) e r there =
    let (x, f) = there q refl in
    let w = write_prev_of h bs r q x f (some e) in
    record {
      memory = w.memory;
      runs = w.runs;
      blocks = update h.heap_start bs q (put_prev (some e));
      rep = w.rep;
      links = find-update h.heap_start bs q (put_prev (some e)) (λ y. refl);
    }

module _ (h : Heap) (bs : List Block) (fs : List ℕ) (l : Listed h bs fs) (c : ℕ) (b : Block)
    (found : find h.heap_start bs c ≡ some b) (is : has c fs ≡ true) (units : ℕ)
    (fits : units + 2 < b.units) where
  abbrev s : ℕ
  s = h.heap_start

  abbrev n : ℕ
  n = b.units - units - 2

  abbrev c2 : ℕ
  c2 = c + n + 2

  abbrev halves : List Block
  halves =
      cut s bs c (Cells.front h bs l.rep c b found units fits)
        (Cells.behind h bs l.rep c b found units fits)

  law :
      (d : ℕ)
      → find s halves d ≡ (
          if c == d
          then some (Cells.front h bs l.rep c b found units fits)
          else if c2 == d
          then some (Cells.behind h bs l.rep c b found units fits)
          else find s bs d)
  law d =
      find-cut s bs c b (Cells.front h bs l.rep c b found units fits)
        (Cells.behind h bs l.rep c b found units fits) found (omega (arith, fits)) d

  -- No chunk stood where the second one is.
  pub unused : find h.heap_start bs (c + (b.units - units - 2) + 2) ≡ none
  unused = elim (Option-cases (find s bs c2)) [
    | inl e ↦ e
    | inr (x, e) ↦ absurd (omega (arith, fits, find-apart s bs c c2 b x found e (omega arith)))
  ]

  out : has c2 fs ≡ false
  out = ground (arith, l.free c2, unused)

  abbrev h9 : Heap
  h9 = with_memory h (Cells.w9 h bs l.rep c b found units fits).memory

  at_next : (q : ℕ) → b.next ≡ some q → has q fs ≡ true
  at_next q e =
      next-in (λ d. next_at (find s bs d)) (λ d. prev_at (find s bs d)) none h.free_head fs c q
        l.linked is (ap next_at found ∙ e)

  there : (q : ℕ) → b.next ≡ some q → (x : Block) × (find s halves q ≡ some x)
  there q e = elim (Option-cases (find s halves q)) [
    | inl v ↦ absurd (ground (arith, law q, v, l.free q (at_next q e)))
    | inr x ↦ x
  ]

  up : LinkedUp h9 halves b.next c2
  up = relink_lem h9 halves b.next c2 (Cells.rep9 h bs l.rep c b found units fits) there

  next_law :
      (d : ℕ)
      → next_at (find s up.blocks d) ≡ (
          if c == d
          then some c2
          else if c2 == d
          then next_at (find s bs c)
          else next_at (find s bs d))
  next_law d = ground (arith, up.links d, law d, found, unused)

  prev_law :
      (d : ℕ)
      → prev_at (find s up.blocks d) ≡ (
          if c2 == d
          then some c
          else if points (next_at (find s bs c)) d
          then some c2
          else prev_at (find s bs d))
  prev_law d = ground (arith, up.links d, law d, found, out, at_next d, there d)

  -- In heapmgr1.c, split_chunk at a chunk of the free list that is larger than the units asked
  -- for and two more succeeds and returns the second part, which has the units asked for, is free
  -- and comes behind the first part in the memory and in the list; the first part keeps what is
  -- left, and all other chunks are as they were.
  pub split_chunk-Returned :
      Returned h
        (split_chunk h c units)
        (c + (b.units - units - 2) + 2)
        (put_after fs c (c + (b.units - units - 2) + 2))
        (λ d.
          if c == d
          then some (b.units - units - 2, chunk_free)
          else if c + (b.units - units - 2) + 2 == d
          then some (units, chunk_free)
          else shape (find h.heap_start bs d))
  unfolding split_chunk
  split_chunk-Returned = record {
    heap = record h { memory = up.memory };
    runs = ground (
      arith,
      find-in s bs c b found,
      l.rep.ends,
      read_status h bs l.rep c b found,
      read_units h bs l.rep c b found,
      ap shape found,
      l.free c is,
      fits,
      read_next h bs l.rep c b found,
      read_footer h bs l.rep c b found,
      read_prev h bs l.rep c b found,
      (Cells.w1 h bs l.rep c b found units fits).runs,
      Cells.footer1 h bs l.rep c b found units fits,
      (Cells.w2 h bs l.rep c b found units fits).runs,
      (Cells.w3 h bs l.rep c b found units fits).runs,
      Cells.next3 h bs l.rep c b found units fits,
      (Cells.w4 h bs l.rep c b found units fits).runs,
      Cells.footer2 h bs l.rep c b found units fits,
      (Cells.w5 h bs l.rep c b found units fits).runs,
      (Cells.w6 h bs l.rep c b found units fits).runs,
      (Cells.w7 h bs l.rep c b found units fits).runs,
      (Cells.w8 h bs l.rep c b found units fits).runs,
      (Cells.w9 h bs l.rep c b found units fits).runs,
      up.runs,
    );
    blocks = up.blocks;
    listed = record {
      rep = up.rep;
      linked =
          Linked-put_after (λ d. next_at (find s bs d)) (λ d. prev_at (find s bs d))
            (λ d. next_at (find s up.blocks d)) (λ d. prev_at (find s up.blocks d)) c c2 next_law
            prev_law none h.free_head fs l.linked l.nodup out is;
      nodup = distinct-put_after fs c c2 l.nodup out;
      free = λ d m. ground (
        arith,
        has-put_after fs c c2 d,
        l.free d,
        l.free c is,
        ap shape found,
        up.links d,
        law d,
      );
    };
    same_start = refl;
    same_end = refl;
    shapes = λ d. ground (arith, up.links d, law d, l.free c is, ap shape found);
  }
