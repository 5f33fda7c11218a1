-- ===== src/Heap/Malloc/Absorb.antt =====
-- SP_LAB3/src/heapmgr1.c: `heapmgr_free` takes a free neighbour out of the list and merges it.
use fall_snu_system_pro.Base.{
  ℕ, ◌+◌, ◌^◌, ◌≤◌, ◌≡◌, ◌⊎◌, ap, ◌∙◌, arith, true, Option, none, some, List, if◌then◌else◌, ◌==◌,
  ◌>>=◌,
}
use fall_snu_system_pro.Heap.Chunk.{Status, chunk_in_use}
use fall_snu_system_pro.Heap.Links.{has, erase}
use fall_snu_system_pro.Heap.Blocks.{Block, find}
use fall_snu_system_pro.Heap.Manager.{Heap, merge_chunk, remove_chunk_from_list}
use fall_snu_system_pro.Heap.FreeList.{used}
use fall_snu_system_pro.Heap.FreeList.Insert.{block_of}
use fall_snu_system_pro.Heap.FreeList.Remove.{remove_chunk_from_list-Relisted}
use fall_snu_system_pro.Heap.FreeList.Merge.{merge_chunk-Returned}
use fall_snu_system_pro.Heap.Malloc.Sound.{Tidy, Tidy-same, Sound, shapes_of, shape_found}
use fall_snu_system_pro.Heap.Malloc.Take.{Tidy-used}

-- Two neighbours in use become one.
Tidy-join :
    (g : ℕ → Option (ℕ × Status)) (fs : List ℕ) (c e n m : ℕ)
    → Tidy g fs
    → Tidy (λ d. if c == d then some (n + m + 2, chunk_in_use) else if e == d then none else g d) fs
Tidy-join g fs c e n m t = record {
  all = λ d f. ground (arith, t.all d, f);
  positive = λ d k f. ground (arith, t.positive d k, f);
  coalesced = λ d k f. ground (arith, t.coalesced d k, f);
}

pub record Absorbed (h : Heap) (bs : List Block) (c e n m : ℕ) (run : Option (ℕ × Heap))
    : Type 0 where
  pub heap : Heap
  pub runs : run ≡ some (c, heap)
  pub blocks : List Block
  pub list : List ℕ
  pub sound : Sound heap blocks list
  pub shapes :
      (d : ℕ)
      → shapes_of heap blocks d ≡ (
          if c == d
          then some (n + m + 2, chunk_in_use)
          else if e == d
          then none
          else shapes_of h bs d)
  pub same_start : heap.heap_start ≡ h.heap_start
  pub same_end : heap.heap_end ≡ h.heap_end

-- One of the two neighbours at `c` and `e` is in the list, and the other is in use.
pub absorb :
    (h : Heap) (bs : List Block) (fs : List ℕ) (so : Sound h bs fs) (c e n m x : ℕ)
    (st st' : Status)
    → shapes_of h bs c ≡ some (n, st)
    → shapes_of h bs e ≡ some (m, st')
    → c + n + 2 ≡ e
    → has x fs ≡ true
    → h.heap_end ≤ h.heap_start + 2 ^ 31
    → ((x ≡ c) × (st' ≡ chunk_in_use)) ⊎ ((x ≡ e) × (st ≡ chunk_in_use))
    → Absorbed h bs c e n m (remove_chunk_from_list h x >>= (λ h'. merge_chunk h' c e))
absorb h bs fs so c e n m x st st' at_c at_e next is small which =
    let (b, found) : (b : Block) × (find h.heap_start bs x ≡ some b) =
      block_of (find h.heap_start bs x) (so.listed.free x is) in
    let r = remove_chunk_from_list-Relisted h bs fs so.listed x b found is in
    let in_use_c : shapes_of r.heap r.blocks c ≡ some (n, chunk_in_use) =
      ground (arith, r.shapes c, at_c, which, next) in
    let in_use_e : shapes_of r.heap r.blocks e ≡ some (m, chunk_in_use) =
      ground (arith, r.shapes e, at_e, which, next) in
    let (y, f, u, s) = shape_found (find r.heap.heap_start r.blocks c) n chunk_in_use in_use_c in
    let (y', f', u', s') =
      shape_found (find r.heap.heap_start r.blocks e) m chunk_in_use in_use_e in
    let eq : c + y.units + 2 ≡ e = omega (arith, u, next) in
    let v =
      merge_chunk-Returned r.heap r.blocks (erase fs x) r.listed c y y' f
        (ap (find r.heap.heap_start r.blocks) eq ∙ f') (ground (arith, s)) (ground (arith, s'))
        (omega (arith, small, r.same_start, r.same_end)) in
    let g : (d : ℕ)
        → shapes_of v.heap v.blocks d ≡ (
            if c == d
            then some (n + m + 2, chunk_in_use)
            else if e == d
            then none
            else shapes_of h bs d) =
      λ d. ground (arith, v.shapes d, r.shapes d, u, u', eq, which) in
    record {
      heap = v.heap;
      runs = ground (arith, r.runs, v.runs, ap (merge_chunk r.heap c) eq);
      blocks = v.blocks;
      list = erase fs x;
      sound = record {
        listed = v.listed;
        tidy =
            Tidy-same _ (shapes_of v.heap v.blocks) (erase fs x) (λ d. ground (arith, g d, which))
              (Tidy-join (λ d. if x == d then used (shapes_of h bs d) else shapes_of h bs d)
                (erase fs x) c e n m (Tidy-used (shapes_of h bs) fs x so.listed.nodup so.tidy));
      };
      shapes = g;
      same_start = v.same_start ∙ r.same_start;
      same_end = v.same_end ∙ r.same_end;
    }
