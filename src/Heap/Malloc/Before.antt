-- ===== src/Heap/Malloc/Before.antt =====
-- SP_LAB3/src/heapmgr1.c: `heapmgr_free` merges a chunk with the one before it.
use fall_snu_system_pro.Base.{
  ℕ, ◌+◌, ◌^◌, ◌≤◌, ◌≡◌, ◌≢◌, inl, inr, refl, sym, ap, ◌∙◌, arith, Option, some, List, ◌==◌,
  Bool-cases, ◌>>=◌, subst,
}
use fall_snu_system_pro.Heap.Chunk.{
  Status, at, chunk_free, chunk_in_use, chunk_get_next_adjacent, chunk_get_prev_adjacent,
}
use fall_snu_system_pro.Heap.Blocks.{Block, find, find-in, find_prev}
use fall_snu_system_pro.Heap.Blocks.Rep.{read_status, prev_there, prev_start}
use fall_snu_system_pro.Heap.Manager.{Heap, merge_chunk, remove_chunk_from_list}
use fall_snu_system_pro.Heap.FreeList.{free_shape}
use fall_snu_system_pro.Heap.Malloc.{merge_next, merge_prev}
use fall_snu_system_pro.Heap.Malloc.Sound.{Sound, shapes_of, shape_found, shape-apart}
use fall_snu_system_pro.Heap.Malloc.Absorb.{absorb}
use fall_snu_system_pro.Heap.Malloc.Neighbours.{Merging, AfterNext}

module _ (h : Heap) (bs : List Block) (fs : List ℕ) (so : Sound h bs fs) (c : ℕ) (b : Block)
    (found : find h.heap_start bs c ≡ some b) (is : b.status ≡ chunk_in_use)
    (small : h.heap_end ≤ h.heap_start + 2 ^ 31) (n : AfterNext h bs fs so c b found is small) where
  abbrev g : ℕ → Option (ℕ × Status)
  g = shapes_of h bs

  abbrev run_next : Option (ℕ × Heap)
  run_next = merge_next h c (chunk_get_next_adjacent h.memory c h.heap_start h.heap_end)

  abbrev m1 : Merging h bs c run_next
  m1 = n.merging

  abbrev g1 : ℕ → Option (ℕ × Status)
  g1 = shapes_of m1.heap m1.blocks

  abbrev run_prev : Option (ℕ × Heap)
  run_prev =
      merge_prev m1.heap m1.chunk (chunk_get_prev_adjacent h.memory c h.heap_start h.heap_end)

  here1 : g1 c ≡ some (m1.size, chunk_in_use)
  here1 = ap g1 (sym n.same_chunk) ∙ m1.here

  pub record AfterPrev : Type 0 where
    pub merging : Merging h bs c run_prev
    pub quiet_prev :
        (d k : ℕ)
        → shapes_of merging.heap merging.blocks d ≡ some (k, chunk_free)
        → d + k + 2 ≢ merging.chunk

  stays_prev :
      run_prev ≡ some (m1.chunk, m1.heap)
      → ((d k : ℕ) → g1 d ≡ some (k, chunk_free) → d + k + 2 ≢ m1.chunk)
      → AfterPrev
  stays_prev e quiet = record {
    merging = record {
      chunk = m1.chunk;
      heap = m1.heap;
      runs = e;
      blocks = m1.blocks;
      list = m1.list;
      sound = m1.sound;
      size = m1.size;
      here = m1.here;
      origin = m1.origin;
      table = m1.table;
      quiet_next = m1.quiet_next;
      same_start = m1.same_start;
      same_end = m1.same_end;
    };
    quiet_prev = quiet;
  }

  -- The chunk before, by its shape after the first merge.
  absorbs_prev :
      (d k : ℕ)
      → chunk_get_prev_adjacent h.memory c h.heap_start h.heap_end ≡ at d
      → g1 d ≡ some (k, chunk_free)
      → g d ≡ some (k, chunk_free)
      → d + k + 2 ≡ c
      → AfterPrev
  absorbs_prev d k prev_is at_d at_d0 ends =
      let (x, f, u, st) = shape_found (find m1.heap.heap_start m1.blocks d) k chunk_free at_d in
      let a =
        absorb m1.heap m1.blocks m1.list m1.sound d c k m1.size d chunk_free chunk_in_use at_d here1
          ends (m1.sound.tidy.all d (ground (arith, at_d)))
          (omega (arith, small, m1.same_start, m1.same_end)) (inl (refl, refl)) in
      let merges : (remove_chunk_from_list m1.heap d >>= (λ h'. merge_chunk h' d m1.chunk))
          ≡ some (d, a.heap) =
        subst
          (λ v.
            (remove_chunk_from_list m1.heap d >>= (λ h'. merge_chunk h' d v)) ≡ some (d, a.heap))
          (sym n.same_chunk) a.runs in
      record {
        merging = record {
          chunk = d;
          heap = a.heap;
          runs =
              ground (
                arith,
                prev_is,
                read_status m1.heap m1.blocks m1.sound.listed.rep d x f,
                st,
                merges,
              );
          blocks = a.blocks;
          list = a.list;
          sound = a.sound;
          size = k + m1.size + 2;
          here = ground (arith, a.shapes d);
          origin = inr (ground (arith, at_d0));
          table = λ q. ground (arith, a.shapes q, m1.table q, n.same_chunk, ends);
          quiet_next = ground (
            arith,
            a.shapes (d + (k + m1.size + 2) + 2),
            m1.quiet_next,
            ends,
            n.same_chunk,
            ap g1 {x = d + (k + m1.size + 2) + 2} {y = m1.chunk + m1.size + 2},
          );
          same_start = a.same_start ∙ m1.same_start;
          same_end = a.same_end ∙ m1.same_end;
        };
        quiet_prev = λ q j e. ground (
          arith,
          a.shapes q,
          e,
          m1.sound.tidy.coalesced q j,
          at_d,
          ap g1 {x = q + j + 2} {y = d},
        );
      }

  kept_shape : (q k : ℕ) → g1 q ≡ some (k, chunk_free) → q + k + 2 ≡ c → g q ≡ some (k, chunk_free)
  kept_shape q k e ends = sym (n.kept q (omega (arith, ends))) ∙ e

  -- Before the first chunk there is none.
  nothing_before : (q k : ℕ) → g1 q ≡ some (k, chunk_free) → h.heap_start ≡ c → q + k + 2 ≢ c
  nothing_before q k e first ends =
      let (x, f, u, st) =
        shape_found (find h.heap_start bs q) k chunk_free (kept_shape q k e ends) in
      omega (arith, find-in h.heap_start bs q x f, first, ends)

  -- Only one chunk ends where another begins.
  other_before :
      (d q k : ℕ) (y : Block)
      → find h.heap_start bs d ≡ some y
      → d + y.units + 2 ≡ c
      → g d ≡ some (y.units, chunk_in_use)
      → g1 q ≡ some (k, chunk_free)
      → q + k + 2 ≢ c
  other_before d q k y at_d ends in_use e ends' =
      let at_q = kept_shape q k e ends' in
      let ne : d ≢ q = λ same. ground (arith, ap g same, at_q, in_use) in
      omega (
        arith,
        shape-apart h.heap_start bs d q y.units k chunk_in_use chunk_free in_use at_q ne,
        ends,
        ends',
      )

  pub after_prev : AfterPrev
  after_prev = elim (Bool-cases (h.heap_start == c)) [
    | inl e ↦
        stays_prev (ground (arith, prev_start h bs so.listed.rep c b found (ground (arith, e))))
          (λ d k f same. nothing_before d k f (ground (arith, e)) (same ∙ n.same_chunk))
    | inr e ↦
        let (d, y, at_d, ends) = find_prev h.heap_start bs c b found (ground (arith, e)) in
        let prev_is = prev_there h bs so.listed.rep c b found d y at_d ends in
        let same = n.kept d (omega (arith, ends)) in
        elim (Bool-cases (free_shape (g d))) [
          | inl f ↦
              absorbs_prev d y.units prev_is (ground (arith, same, at_d, f))
                (ground (arith, at_d, f)) ends
          | inr f ↦
              let (x, f1, u, st) =
                shape_found (find m1.heap.heap_start m1.blocks d) y.units chunk_in_use
                  (ground (arith, same, at_d, f)) in
              stays_prev
                (ground
                  (arith, prev_is, read_status m1.heap m1.blocks m1.sound.listed.rep d x f1, st))
                (λ q k e' same'.
                  other_before d q k y at_d ends (ground (arith, at_d, f)) e'
                    (same' ∙ n.same_chunk))
        ]
  ]
