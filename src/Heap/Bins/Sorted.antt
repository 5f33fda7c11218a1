-- ===== src/Heap/Bins/Sorted.antt =====
-- SP_LAB3/src/heapmgr2.c: every bin is a list of free chunks of its sizes, and an operation on one
-- bin leaves the others.
use fall_snu_system_pro.Base.{
  ℕ, ◌<◌, ◌≡◌, ◌≢◌, refl, sym, ap, ◌∙◌, arith, Bool, true, false, Option, none, some, List, ◌∷◌,
  ◌==◌, if◌then◌else◌, subst, Bool-cases, inl, inr,
}
use fall_snu_system_pro.Heap.Chunk.{Status}
use fall_snu_system_pro.Heap.Links.{has, erase, frame, has-erase}
use fall_snu_system_pro.Heap.Blocks.{Block, find}
use fall_snu_system_pro.Heap.Blocks.Rep.{read_units}
use fall_snu_system_pro.Heap.Manager
use fall_snu_system_pro.Heap.Manager.{Heap, is_free}
use fall_snu_system_pro.Heap.FreeList.{
  next_at, prev_at, Listed, Careful, Rep-head, shape, free_shape, used,
}
use fall_snu_system_pro.Heap.FreeList.Insert.{block_of, insert_chunk-Careful}
use fall_snu_system_pro.Heap.FreeList.Remove.{remove_chunk_from_list-Careful}
use fall_snu_system_pro.Heap.Bins.{
  Bin, exponential_bin, fixed_bin, large_bin, Bins, find_bin, head_of, on_bin, insert_chunk,
  remove_chunk_from_list,
}
use fall_snu_system_pro.Heap.Bins.Lists.{view, stored, view-stored, head_of-stored}

abbrev pub same_bin : Bin → Bin → Bool
same_bin (exponential_bin i) (exponential_bin j) = i == j
same_bin (fixed_bin i) (fixed_bin j) = i == j
same_bin large_bin large_bin = true
same_bin _ _ = false

same_bin-true : (a b : Bin) → same_bin a b ≡ true → a ≡ b
same_bin-true (exponential_bin i) (exponential_bin j) e = ap exponential_bin (ground (arith, e))
same_bin-true (exponential_bin i) (fixed_bin j) e = absurd (ground (arith, e))
same_bin-true (exponential_bin i) large_bin e = absurd (ground (arith, e))
same_bin-true (fixed_bin i) (exponential_bin j) e = absurd (ground (arith, e))
same_bin-true (fixed_bin i) (fixed_bin j) e = ap fixed_bin (ground (arith, e))
same_bin-true (fixed_bin i) large_bin e = absurd (ground (arith, e))
same_bin-true large_bin (exponential_bin j) e = absurd (ground (arith, e))
same_bin-true large_bin (fixed_bin j) e = absurd (ground (arith, e))
same_bin-true large_bin large_bin e = refl

same_bin_refl : (a : Bin) → same_bin a a ≡ true
same_bin_refl (exponential_bin i) = ground arith
same_bin_refl (fixed_bin i) = ground arith
same_bin_refl large_bin = refl

-- The list of a bin: free chunks of its sizes.
pub record BinList (h : Heap) (bs : List Block) (bin : Bin) (cs : List ℕ) : Type 0 where
  pub listed : Listed h bs cs
  pub sizes :
      (c : ℕ) (x : Block)
      → has c cs ≡ true
      → find h.heap_start bs c ≡ some x
      → find_bin x.units ≡ bin

abbrev pub Sorted : Bins → List Block → (Bin → List ℕ) → Type 0
Sorted b bs lists = (bin : Bin) → BinList (view b bin) bs bin (lists bin)

abbrev pub with_list : (Bin → List ℕ) → Bin → List ℕ → Bin → List ℕ
with_list lists bin cs other = if same_bin bin other then cs else lists other

view_other :
    (b : Bins) (bin other : Bin) (h : Heap)
    → other ≢ bin
    → view (stored b bin h) other ≡ record h { free_head = head_of b other }
view_other b (exponential_bin i) other h ne =
    ap (λ o. record h { free_head = o }) (head_of-stored b (exponential_bin i) other h ne)
view_other b (fixed_bin i) other h ne =
    ap (λ o. record h { free_head = o }) (head_of-stored b (fixed_bin i) other h ne)
view_other b large_bin other h ne =
    ap (λ o. record h { free_head = o }) (head_of-stored b large_bin other h ne)

-- The bins after an operation on one of them.
pub record Resorted (b : Bins) (run : Option Bins) (lists : Bin → List ℕ)
    (g : ℕ → Option (ℕ × Status)) : Type 0 where
  pub bins : Bins
  pub runs : run ≡ some bins
  pub blocks : List Block
  pub sorted : Sorted bins blocks lists
  pub shapes : (d : ℕ) → shape (find b.heap.heap_start blocks d) ≡ g d

module _ (b : Bins) (bs : List Block) (lists : Bin → List ℕ) (so : Sorted b bs lists) (bin : Bin)
    (touched cs : List ℕ) (f : Heap → Option Heap) (g : ℕ → Option (ℕ × Status))
    (r : Careful (view b bin) bs touched (f (view b bin)) cs g)
    (sizes : (c : ℕ) (x : Block) → has c cs ≡ true → shape (some x) ≡ g c → find_bin x.units ≡ bin)
    (mine : (other : Bin) (d : ℕ)
      → other ≢ bin
      → has d (lists other) ≡ true
      → has d touched ≡ false) where
  abbrev h : Heap
  h = r.relisted.heap

  own_list : BinList h r.relisted.blocks bin cs
  own_list = record {
    listed = r.relisted.listed;
    sizes = λ c x m e. sizes c x m (ap shape (sym e) ∙ r.relisted.shapes c);
  }

  other_list :
      (other : Bin)
      → other ≢ bin
      → BinList (record h { free_head = head_of b other }) r.relisted.blocks other (lists other)
  other_list other ne =
      let l = so other in
      let kept : (d : ℕ)
          → has d (lists other) ≡ true
          → find h.heap_start r.relisted.blocks d ≡ find b.heap.heap_start bs d =
        λ d m. r.kept d (mine other d ne m) in
      record {
        listed = record {
          rep = Rep-head h r.relisted.blocks (head_of b other) r.relisted.listed.rep;
          linked =
              frame (λ d. next_at (find b.heap.heap_start bs d))
                (λ d. prev_at (find b.heap.heap_start bs d)) _ _ none (head_of b other)
                (lists other) l.listed.linked
                (λ d m. (ap next_at (kept d m), ap prev_at (kept d m)));
          nodup = l.listed.nodup;
          free = λ d m. ap (λ o. free_shape (shape o)) (kept d m) ∙ l.listed.free d m;
        };
        sizes = λ c x m e. l.sizes c x m (sym (kept c m) ∙ e);
      }

  on_bin-Resorted : Resorted b (on_bin b bin f) (with_list lists bin cs) g
  on_bin-Resorted = record {
    bins = stored b bin h;
    runs = rw r.relisted.runs refl;
    blocks = r.relisted.blocks;
    sorted = λ other. elim (Bool-cases (same_bin bin other)) [
      | inl e ↦
          let eq : bin ≡ other = same_bin-true bin other e in
          rw e (
            subst (λ o. BinList (view (stored b bin h) o) r.relisted.blocks o cs) eq
              (subst (λ k. BinList k r.relisted.blocks bin cs) (sym (view-stored b bin h))
                own_list))
      | inr e ↦
          let ne : other ≢ bin = λ eq. ground (arith, e, same_bin_refl bin, ap (same_bin bin) eq) in
          rw e (
            subst (λ k. BinList k r.relisted.blocks other (lists other))
              (sym (view_other b bin other h ne)) (other_list other ne))
    ];
    shapes = λ d.
        ap (λ s. shape (find s r.relisted.blocks d)) (sym r.relisted.same_start)
        ∙ r.relisted.shapes d;
  }

module _ (b : Bins) (bs : List Block) (lists : Bin → List ℕ) (so : Sorted b bs lists) (c : ℕ)
    (x : Block) (found : find b.heap.heap_start bs c ≡ some x) where
  abbrev bin : Bin
  bin = find_bin x.units

  -- A chunk is in the list of one bin only.
  one_bin :
      (one other : Bin) (d : ℕ)
      → has d (lists one) ≡ true
      → has d (lists other) ≡ true
      → one ≡ other
  one_bin one other d m m' =
      let (y, at_d) = block_of (find b.heap.heap_start bs d) ((so one).listed.free d m) in
      sym ((so one).sizes d y m at_d) ∙ (so other).sizes d y m' at_d

  listed_size :
      (d : ℕ) (y : Block)
      → has d (lists bin) ≡ true
      → shape (some y) ≡ shape (find b.heap.heap_start bs d)
      → find_bin y.units ≡ bin
  listed_size d y m e =
      let (z, at_d) = block_of (find b.heap.heap_start bs d) ((so bin).listed.free d m) in
      let same : y.units ≡ z.units = ground (arith, e, at_d) in
      ap find_bin same ∙ (so bin).sizes d z m at_d

  -- In heapmgr2.c, where every bin is a list of free chunks of its sizes, insert_chunk at a free
  -- chunk that is not in the bin for its size succeeds; that bin has the chunk in front then,
  -- every other bin has the list it had, so that every bin is a list of free chunks of its sizes
  -- again, and every chunk keeps its size and its status.
  pub insert_chunk-Resorted :
      is_free x.status ≡ true
      → 0 < x.units
      → has c (lists (find_bin x.units)) ≡ false
      → Resorted b
          (insert_chunk b c)
          (with_list lists (find_bin x.units) (c ∷ lists (find_bin x.units)))
          (λ d. shape (find b.heap.heap_start bs d))
  unfolding insert_chunk
  insert_chunk-Resorted is pos out =
      let l = (so bin).listed in
      let sizes : (d : ℕ) (y : Block)
          → has d (c ∷ lists bin) ≡ true
          → shape (some y) ≡ shape (find b.heap.heap_start bs d)
          → find_bin y.units ≡ bin =
        λ d y m e. elim (Bool-cases (c == d)) [
          | inl same ↦
              let eq : y.units ≡ x.units = ground (
                arith,
                e,
                found,
                ap (λ q. shape (find b.heap.heap_start bs q)) {x = c} {y = d},
                same,
              ) in
              ap find_bin eq
          | inr other ↦ listed_size d y (ground (arith, m, other)) e
        ] in
      let mine : (other : Bin) (d : ℕ)
          → other ≢ bin
          → has d (lists other) ≡ true
          → has d (c ∷ lists bin) ≡ false =
        λ other d ne m. elim (Bool-cases (has d (c ∷ lists bin))) [
          | inr e ↦ e
          | inl e ↦ elim (Bool-cases (c == d)) [
            | inl same ↦
                let eq : c ≡ d = ground (arith, same) in
                absurd (
                  ne (
                    sym (
                      (so other).sizes d x m
                        (subst (λ q. find b.heap.heap_start bs q ≡ some x) eq found))))
            | inr away ↦ absurd (ne (one_bin other bin d m (ground (arith, e, away))))
          ]
        ] in
      rw (read_units (view b bin) bs l.rep c x found) (
        on_bin-Resorted b bs lists so bin (c ∷ lists bin) (c ∷ lists bin)
          (λ h. Manager.insert_chunk h c) _
          (insert_chunk-Careful (view b bin) bs (lists bin) l c x found is pos out) sizes mine)

  -- In heapmgr2.c, where every bin is a list of free chunks of its sizes, remove_chunk_from_list
  -- at a chunk of the bin for its size succeeds; that bin is without the chunk then, which is in
  -- use, every other bin has the list it had, so that every bin is a list of free chunks of its
  -- sizes again, and every chunk keeps its size and every other one its status.
  pub remove_chunk_from_list-Resorted :
      has c (lists (find_bin x.units)) ≡ true
      → Resorted b
          (remove_chunk_from_list b c)
          (with_list lists (find_bin x.units) (erase (lists (find_bin x.units)) c))
          (λ d.
            if c == d
            then used (shape (find b.heap.heap_start bs d))
            else shape (find b.heap.heap_start bs d))
  unfolding remove_chunk_from_list
  remove_chunk_from_list-Resorted is =
      let l = (so bin).listed in
      let left = λ (d : ℕ). has-erase (lists bin) c d l.nodup in
      rw (read_units (view b bin) bs l.rep c x found) (
        on_bin-Resorted b bs lists so bin (lists bin) (erase (lists bin) c)
          (λ h. Manager.remove_chunk_from_list h c) _
          (remove_chunk_from_list-Careful (view b bin) bs (lists bin) l c x found is)
          (λ d y m e. listed_size d y (ground (arith, m, left d)) (ground (arith, e, m, left d)))
          (λ other d ne m. elim (Bool-cases (has d (lists bin))) [
            | inr e ↦ e
            | inl e ↦ absurd (ne (one_bin other bin d m e))
          ]))
