-- ===== src/Heap/Malloc/Neighbours.antt =====
-- SP_LAB3/src/heapmgr1.c: `heapmgr_free` merges a chunk with the one behind it.
use fall_snu_system_pro.Base.{
  ℕ, ◌+◌, ◌^◌, ◌≤◌, ◌<◌, ◌≡◌, ◌⊎◌, inl, inr, refl, ap, arith, false, Option, none, some, List,
  if◌then◌else◌, ◌==◌, Bool-cases, Option-cases,
}
use fall_snu_system_pro.Heap.Chunk.{Status, chunk_free, chunk_in_use, chunk_get_next_adjacent}
use fall_snu_system_pro.Heap.Blocks.{Block, find}
use fall_snu_system_pro.Heap.Blocks.Rep.{read_status, next_there, next_end}
use fall_snu_system_pro.Heap.Manager.{Heap}
use fall_snu_system_pro.Heap.FreeList.{free_shape}
use fall_snu_system_pro.Heap.Malloc.{merge_next}
use fall_snu_system_pro.Heap.Malloc.Sound.{Sound, shapes_of, live}
use fall_snu_system_pro.Heap.Malloc.Absorb.{absorb}

-- The chunk `c` in use, merged with free neighbours: the allocations but for it are as they were.
pub record Merging (h : Heap) (bs : List Block) (c : ℕ) (run : Option (ℕ × Heap)) : Type 0 where
  pub chunk : ℕ
  pub heap : Heap
  pub runs : run ≡ some (chunk, heap)
  pub blocks : List Block
  pub list : List ℕ
  pub sound : Sound heap blocks list
  pub size : ℕ
  pub here : shapes_of heap blocks chunk ≡ some (size, chunk_in_use)
  pub origin : (chunk ≡ c) ⊎ (live (shapes_of h bs chunk) ≡ none)
  pub table :
      (d : ℕ)
      → live (shapes_of heap blocks d)
        ≡ (if chunk == d then some size else if c == d then none else live (shapes_of h bs d))
  pub quiet_next : free_shape (shapes_of heap blocks (chunk + size + 2)) ≡ false
  pub same_start : heap.heap_start ≡ h.heap_start
  pub same_end : heap.heap_end ≡ h.heap_end

module _ (h : Heap) (bs : List Block) (fs : List ℕ) (so : Sound h bs fs) (c : ℕ) (b : Block)
    (found : find h.heap_start bs c ≡ some b) (is : b.status ≡ chunk_in_use)
    (small : h.heap_end ≤ h.heap_start + 2 ^ 31) where
  abbrev g : ℕ → Option (ℕ × Status)
  g = shapes_of h bs

  at_c : g c ≡ some (b.units, chunk_in_use)
  at_c = ground (arith, found, is)

  abbrev run_next : Option (ℕ × Heap)
  run_next = merge_next h c (chunk_get_next_adjacent h.memory c h.heap_start h.heap_end)

  -- The chunks before `c` are not touched.
  pub record AfterNext : Type 0 where
    pub merging : Merging h bs c run_next
    pub same_chunk : merging.chunk ≡ c
    pub kept : (d : ℕ) → d < c → shapes_of merging.heap merging.blocks d ≡ g d

  stays : run_next ≡ some (c, h) → free_shape (g (c + b.units + 2)) ≡ false → AfterNext
  stays e quiet = record {
    merging = record {
      chunk = c;
      heap = h;
      runs = e;
      blocks = bs;
      list = fs;
      sound = so;
      size = b.units;
      here = at_c;
      origin = inl refl;
      table = λ d. ground (arith, at_c, ap g {x = c} {y = d});
      quiet_next = quiet;
      same_start = refl;
      same_end = refl;
    };
    same_chunk = refl;
    kept = λ d low. refl;
  }

  end_after : (y : Block) → c + (b.units + y.units + 2) + 2 ≡ c + b.units + 2 + y.units + 2
  end_after y = omega arith

  absorbs :
      (y : Block)
      → find h.heap_start bs (c + b.units + 2) ≡ some y
      → y.status ≡ chunk_free
      → AfterNext
  absorbs y at_y free =
      let e = c + b.units + 2 in
      let shape_y : g e ≡ some (y.units, chunk_free) = ground (arith, at_y, free) in
      let a =
        absorb h bs fs so c e b.units y.units e chunk_in_use chunk_free at_c shape_y refl
          (so.tidy.all e (ground (arith, shape_y))) small (inr (refl, refl)) in
      record {
        merging = record {
          chunk = c;
          heap = a.heap;
          runs = ground (
            arith,
            next_there h bs so.listed.rep c b found y at_y,
            read_status h bs so.listed.rep e y at_y,
            free,
            a.runs,
          );
          blocks = a.blocks;
          list = a.list;
          sound = a.sound;
          size = b.units + y.units + 2;
          here = ground (arith, a.shapes c);
          origin = inl refl;
          table = λ d. ground (arith, a.shapes d, shape_y, ap g {x = e} {y = d});
          quiet_next = ground (
            arith,
            a.shapes (c + (b.units + y.units + 2) + 2),
            so.tidy.coalesced e y.units shape_y,
            ap g (end_after y),
          );
          same_start = a.same_start;
          same_end = a.same_end;
        };
        same_chunk = refl;
        kept = λ d low. ground (arith, a.shapes d);
      }

  pub after_next : AfterNext
  after_next = elim (Option-cases (find h.heap_start bs (c + b.units + 2))) [
    | inl e ↦ stays (ground (arith, next_end h bs so.listed.rep c b found e)) (ground (arith, e))
    | inr (y, e) ↦ elim (Bool-cases (free_shape (g (c + b.units + 2)))) [
      | inl f ↦ absorbs y e (ground (arith, f, e))
      | inr f ↦
          stays
            (ground (
              arith,
              next_there h bs so.listed.rep c b found y e,
              read_status h bs so.listed.rep (c + b.units + 2) y e,
              f,
              e,
            ))
            f
    ]
  ]
