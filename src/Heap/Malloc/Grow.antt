-- ===== src/Heap/Malloc/Grow.antt =====
-- SP_LAB3/src/heapmgr1.c: `heapmgr_malloc` takes a chunk of new memory.
use fall_snu_system_pro.Base.{
  ℕ, ◌+◌, ◌-◌, ◌≤◌, ◌<◌, ◌≡◌, inl, inr, ap, ◌∙◌, arith, false, Option, none, some, List, ◌∷◌,
  if◌then◌else◌, ◌==◌, Bool-cases, Option-cases, length, ltb, ◌>>=◌,
}
use fall_snu_system_pro.Heap.Chunk.{Status, Chunk, chunk_free, chunk_in_use}
use fall_snu_system_pro.Heap.Links.{has}
use fall_snu_system_pro.Heap.Blocks.{Block, find, find-in}
use fall_snu_system_pro.Heap.Blocks.Rep.{read_units}
use fall_snu_system_pro.Heap.Manager.{Heap}
use fall_snu_system_pro.Heap.FreeList.{shape, Listed, Relisted}
use fall_snu_system_pro.Heap.FreeList.State.{set_status-Relisted}
use fall_snu_system_pro.Heap.Malloc.{new_chunk, grown, use_new}
use fall_snu_system_pro.Heap.Malloc.Sound.{size_of, Tidy, Tidy-same, Sound, shapes_of, shape_found}
use fall_snu_system_pro.Heap.Malloc.Take.{Allocated}
use fall_snu_system_pro.Heap.Malloc.New.{new_chunk-Relisted}
use fall_snu_system_pro.Heap.Malloc.Carve.{carve-Relisted}

module _ (g : ℕ → Option (ℕ × Status)) (fs : List ℕ) (t : Tidy g fs) (c : ℕ)
    (below : (d n : ℕ) → size_of (g d) ≡ some n → d + n + 2 ≤ c) where
  free_size : (d n : ℕ) → g d ≡ some (n, chunk_free) → size_of (g d) ≡ some n
  free_size d n e = ap size_of e

  above : (d : ℕ) → c ≤ d → g d ≡ none
  above d high = elim (Option-cases (g d)) [
    | inl e ↦ e
    | inr (x, e) ↦ absurd (omega (arith, below d x.0 (ap size_of e)))
  ]

  -- A chunk in use behind the last one.
  Tidy-last : (n : ℕ) → 0 < n → Tidy (λ d. if c == d then some (n, chunk_in_use) else g d) fs
  Tidy-last n pos = record {
    all = λ d f. ground (arith, t.all d, f);
    positive = λ d m f. ground (arith, t.positive d m, f, pos);
    coalesced = λ d m f. ground (arith, t.coalesced d m, f);
  }

  -- Behind it a free one, which is listed.
  Tidy-pair :
      (u n : ℕ)
      → 0 < u
      → 0 < n
      → Tidy
          (λ d.
            if c == d
            then some (u, chunk_in_use)
            else if c + u + 2 == d
            then some (n, chunk_free)
            else g d)
          ((c + u + 2) ∷ fs)
  Tidy-pair u n pos pos' = record {
    all = λ d f. ground (arith, t.all d, f);
    positive = λ d m f. ground (arith, t.positive d m, f, pos, pos');
    coalesced =
        λ d m f. ground (arith, t.coalesced d m, f, below d m, free_size d m, above (d + m + 2));
  }

below_end :
    (h : Heap) (bs : List Block) (fs : List ℕ)
    → Listed h bs fs
    → (d n : ℕ) → size_of (shapes_of h bs d) ≡ some n
    → d + n + 2 ≤ h.heap_end
below_end h bs fs l d n e = elim (Option-cases (find h.heap_start bs d)) [
  | inl f ↦ absurd (ground (arith, e, f))
  | inr (b, f) ↦ ground (arith, e, f, find-in h.heap_start bs d b f, l.rep.ends)
]

module _ (h : Heap) (bs : List Block) (fs : List ℕ) (so : Sound h bs fs) (new : List Chunk) (n : ℕ)
    (enough : length new ≡ n + 2) (units : ℕ) (pos : 0 < units) (large : units ≤ n) where
  abbrev c : ℕ
  c = h.heap_end

  abbrev r :
      Relisted
        (grown h new)
        (new_chunk (grown h new) h.heap_end n)
        fs
        (λ d. if h.heap_end == d then some (n, chunk_free) else shape (find h.heap_start bs d))
  r = new_chunk-Relisted h bs fs so.listed new n enough

  nothing : shapes_of h bs c ≡ none
  nothing = above (shapes_of h bs) fs so.tidy c (below_end h bs fs so.listed) c (omega arith)

  out : has c fs ≡ false
  out = ground (arith, so.listed.free c, nothing)

  there :
      (x : Block) × (find r.heap.heap_start r.blocks c ≡ some x)
      × (x.units ≡ n)
      × (x.status ≡ chunk_free)
  there = shape_found (find r.heap.heap_start r.blocks c) n chunk_free (ground (arith, r.shapes c))

  abbrev run : Option (ℕ × Heap)
  run =
      new_chunk (grown h new) h.heap_end n
      >>= (λ h'. use_new h' h.heap_end units)
      >>= (λ h'. some (h.heap_end, h'))

  grow_whole : n ≤ units + 2 → Allocated h bs units run
  unfolding use_new
  grow_whole small =
      let (x, f, u, st) = there in
      let w = set_status-Relisted r.heap r.blocks fs r.listed c x f out chunk_in_use in
      record {
        chunk = c;
        heap = w.heap;
        runs =
            ground (
              arith,
              r.runs,
              read_units r.heap r.blocks r.listed.rep c x f,
              u,
              small,
              large,
              w.runs,
            );
        blocks = w.blocks;
        list = fs;
        sound = record {
          listed = w.listed;
          tidy =
              Tidy-same _ (shapes_of w.heap w.blocks) fs
                (λ d. ground (arith, w.shapes d, r.shapes d))
                (Tidy-last (shapes_of h bs) fs so.tidy c (below_end h bs fs so.listed) n
                  (omega arith));
        };
        fresh = ground (arith, nothing);
        size = n;
        large = large;
        table = λ d. ground (arith, w.shapes d, r.shapes d);
        same_start = w.same_start ∙ r.same_start;
      }

  grow_part : units + 2 < n → Allocated h bs units run
  unfolding use_new
  grow_part fits =
      let (x, f, u, st) = there in
      let v = carve-Relisted r.heap r.blocks fs r.listed c x f out units (omega (arith, fits, u)) in
      let c2 = c + units + 2 in
      let (y, f', u', st') =
        shape_found (find v.heap.heap_start v.blocks c) units x.status
          (ground (arith, v.shapes c)) in
      let out' : has c (c2 ∷ fs) ≡ false = ground (arith, out) in
      let w = set_status-Relisted v.heap v.blocks (c2 ∷ fs) v.listed c y f' out' chunk_in_use in
      record {
        chunk = c;
        heap = w.heap;
        runs =
            ground (
              arith,
              r.runs,
              read_units r.heap r.blocks r.listed.rep c x f,
              u,
              fits,
              v.runs,
              w.runs,
            );
        blocks = w.blocks;
        list = c2 ∷ fs;
        sound = record {
          listed = w.listed;
          tidy =
              Tidy-same _ (shapes_of w.heap w.blocks) (c2 ∷ fs)
                (λ d. ground (arith, w.shapes d, v.shapes d, r.shapes d, u))
                (Tidy-pair (shapes_of h bs) fs so.tidy c (below_end h bs fs so.listed) units
                  (n - units - 2) pos (omega (arith, fits)));
        };
        fresh = ground (arith, nothing);
        size = units;
        large = omega arith;
        table = λ d. ground (
          arith,
          w.shapes d,
          v.shapes d,
          r.shapes d,
          above (shapes_of h bs) fs so.tidy c (below_end h bs fs so.listed) d,
        );
        same_start = w.same_start ∙ v.same_start ∙ r.same_start;
      }

  pub grow-Allocated : Allocated h bs units run
  grow-Allocated = elim (Bool-cases (ltb (units + 2) n)) [
    | inl e ↦ grow_part (ground (arith, e))
    | inr e ↦ grow_whole (ground (arith, e))
  ]
