-- ===== src/Heap/Malloc/Take.antt =====
-- SP_LAB3/src/heapmgr1.c: `heapmgr_malloc` takes a chunk of the list, or the end of it.
use fall_snu_system_pro.Base.{
  ℕ, ◌+◌, ◌-◌, ◌≤◌, ◌<◌, ◌≡◌, inl, inr, ap, ◌∙◌, arith, true, Option, none, some, List,
  if◌then◌else◌, ◌==◌, Bool-cases, ltb,
}
use fall_snu_system_pro.Heap.Chunk.{Status, chunk_free, chunk_in_use}
use fall_snu_system_pro.Heap.Links.{has, distinct, erase, has-erase}
use fall_snu_system_pro.Heap.Links.After.{put_after, has-put_after}
use fall_snu_system_pro.Heap.Blocks.{Block, find}
use fall_snu_system_pro.Heap.Blocks.Rep.{read_units}
use fall_snu_system_pro.Heap.Manager.{Heap}
use fall_snu_system_pro.Heap.FreeList.{shape, free_shape, used}
use fall_snu_system_pro.Heap.FreeList.Remove.{remove_chunk_from_list-Relisted}
use fall_snu_system_pro.Heap.FreeList.Split.{split_chunk-Returned, unused}
use fall_snu_system_pro.Heap.Malloc.{take_fit}
use fall_snu_system_pro.Heap.Malloc.Sound.{Tidy, Tidy-same, Sound, shapes_of, live, shape_found}

-- A chunk of at least `units` is allocated: it was not allocated before, every other allocation
-- is as it was, and the heap is sound.
pub record Allocated (h : Heap) (bs : List Block) (units : ℕ) (run : Option (ℕ × Heap))
    : Type 0 where
  pub chunk : ℕ
  pub heap : Heap
  pub runs : run ≡ some (chunk, heap)
  pub blocks : List Block
  pub list : List ℕ
  pub sound : Sound heap blocks list
  pub fresh : live (shapes_of h bs chunk) ≡ none
  pub size : ℕ
  pub large : units ≤ size
  pub table :
      (d : ℕ)
      → live (shapes_of heap blocks d) ≡ (if chunk == d then some size else live (shapes_of h bs d))
  pub same_start : heap.heap_start ≡ h.heap_start

-- A chunk that is taken out of the list.
pub Tidy-used :
    (g : ℕ → Option (ℕ × Status)) (fs : List ℕ) (c : ℕ)
    → distinct fs ≡ true
    → Tidy g fs
    → Tidy (λ d. if c == d then used (g d) else g d) (erase fs c)
Tidy-used g fs c nd t = record {
  all = λ d f. ground (arith, t.all d, has-erase fs c d nd, f);
  positive = λ d n f. ground (arith, t.positive d n, f);
  coalesced = λ d n f. ground (arith, t.coalesced d n, f);
}

-- A chunk that is cut, with its end taken.
Tidy-cut :
    (g : ℕ → Option (ℕ × Status)) (fs : List ℕ) (c n units : ℕ)
    → Tidy g fs
    → distinct (put_after fs c (c + n + 2)) ≡ true
    → free_shape (g c) ≡ true
    → 0 < n
    → 0 < units
    → Tidy
        (λ d.
          if c == d
          then some (n, chunk_free)
          else if c + n + 2 == d
          then some (units, chunk_in_use)
          else g d)
        (erase (put_after fs c (c + n + 2)) (c + n + 2))
Tidy-cut g fs c n units t nd is pos pos' = record {
  all = λ d f. ground (
    arith,
    f,
    t.all d,
    t.all c is,
    has-erase (put_after fs c (c + n + 2)) (c + n + 2) d nd,
    has-put_after fs c (c + n + 2) d,
    ap (λ q. has q fs) {x = c} {y = d},
  );
  positive = λ d m f. ground (arith, t.positive d m, f, pos, pos');
  coalesced = λ d m f. ground (arith, f, t.coalesced d m, is, ap g {x = c} {y = d + m + 2});
}

module _ (h : Heap) (bs : List Block) (fs : List ℕ) (so : Sound h bs fs) (c : ℕ) (b : Block)
    (found : find h.heap_start bs c ≡ some b) (is : has c fs ≡ true) (units : ℕ) (pos : 0 < units)
    (large : units ≤ b.units) where
  take_whole : b.units ≤ units + 2 → Allocated h bs units (take_fit h c units)
  unfolding take_fit
  take_whole small =
      let r = remove_chunk_from_list-Relisted h bs fs so.listed c b found is in
      record {
        chunk = c;
        heap = r.heap;
        runs = ground (arith, read_units h bs so.listed.rep c b found, small, r.runs);
        blocks = r.blocks;
        list = erase fs c;
        sound = record {
          listed = r.listed;
          tidy =
              Tidy-same _ _ (erase fs c) r.shapes
                (Tidy-used (shapes_of h bs) fs c so.listed.nodup so.tidy);
        };
        fresh = ground (arith, so.listed.free c is, found);
        size = b.units;
        large = large;
        table = λ d. ground (arith, r.shapes d, found, ap (λ q. shapes_of h bs q) {x = c} {y = d});
        same_start = r.same_start;
      }

  take_end : units + 2 < b.units → Allocated h bs units (take_fit h c units)
  unfolding take_fit
  take_end fits =
      let n = b.units - units - 2 in
      let c2 = c + n + 2 in
      let s = split_chunk-Returned h bs fs so.listed c b found is units fits in
      let (x, at_2, u, t) =
        shape_found (find s.heap.heap_start s.blocks c2) units chunk_free
          (ground (arith, s.shapes c2)) in
      let m : has c2 (put_after fs c c2) ≡ true = ground (arith, has-put_after fs c c2 c2, is) in
      let r =
        remove_chunk_from_list-Relisted s.heap s.blocks (put_after fs c c2) s.listed c2 x at_2 m in
      record {
        chunk = c2;
        heap = r.heap;
        runs = ground (arith, read_units h bs so.listed.rep c b found, fits, s.runs, r.runs);
        blocks = r.blocks;
        list = erase (put_after fs c c2) c2;
        sound = record {
          listed = r.listed;
          tidy =
              Tidy-same _ (shapes_of r.heap r.blocks) (erase (put_after fs c c2) c2)
                (λ d. ground (arith, r.shapes d, s.shapes d))
                (Tidy-cut (shapes_of h bs) fs c n units so.tidy s.listed.nodup (so.listed.free c is)
                  (omega (arith, fits)) pos);
        };
        fresh = ap (λ o. live (shape o)) (unused h bs fs so.listed c b found is units fits);
        size = units;
        large = omega arith;
        table = λ d. ground (
          arith,
          r.shapes d,
          s.shapes d,
          found,
          so.listed.free c is,
          ap (λ q. shapes_of h bs q) {x = c} {y = d},
        );
        same_start = r.same_start ∙ s.same_start;
      }

  pub take_fit-Allocated : Allocated h bs units (take_fit h c units)
  take_fit-Allocated = elim (Bool-cases (ltb (units + 2) b.units)) [
    | inl e ↦ take_end (ground (arith, e))
    | inr e ↦ take_whole (ground (arith, e))
  ]
