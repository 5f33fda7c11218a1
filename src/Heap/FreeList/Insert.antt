-- ===== src/Heap/FreeList/Insert.antt =====
-- SP_LAB3/src/heapmgr1.c: `insert_chunk` puts a free chunk in front of the list.
use fall_snu_system_pro.Base.{
  ℕ, ◌<◌, ◌≡◌, refl, ap, arith, true, false, Option, none, some, List, ◌∷◌, Option-cases, inl, inr,
}
use fall_snu_system_pro.Heap.Links.{has, head-in}
use fall_snu_system_pro.Heap.Links.Change.{Linked-cons}
use fall_snu_system_pro.Heap.Blocks.{Block, find, update, find-update}
use fall_snu_system_pro.Heap.Blocks.Rep.{read_units, read_status, read_footer}
use fall_snu_system_pro.Heap.Blocks.Rep.Write.{
  with_memory, put_prev, LinkedBoth, write_links, write_prev_of,
}
use fall_snu_system_pro.Heap.Manager.{Heap, is_free, insert_chunk}
use fall_snu_system_pro.Heap.FreeList.{
  next_at, prev_at, shape, free_shape, Listed, Relisted, Careful, Rep-head,
}

-- The chunk that a free chunk of the list stands for.
pub block_of : (o : Option Block) → free_shape (shape o) ≡ true → (b : Block) × (o ≡ some b)
block_of none h = absurd (ground arith)
block_of (some b) h = (b, refl)

module _ (h : Heap) (bs : List Block) (fs : List ℕ) (l : Listed h bs fs) (c : ℕ) (b : Block)
    (found : find h.heap_start bs c ≡ some b) (is : is_free b.status ≡ true) (pos : 0 < b.units)
    (out : has c fs ≡ false) where
  abbrev s : ℕ
  s = h.heap_start

  abbrev own : LinkedBoth h bs c b.units h.free_head none
  own = write_links h bs l.rep c b found h.free_head none

  abbrev then_h : Heap
  then_h = with_memory h own.second

  insert_empty :
      h.free_head ≡ none
      → Careful h bs (c ∷ fs) (insert_chunk h c) (c ∷ fs) (λ d. shape (find s bs d))
  unfolding insert_chunk
  insert_empty e = record {
    relisted = record {
      heap = record h { memory = own.second; free_head = some c };
      runs = ground (
        arith,
        read_units h bs l.rep c b found,
        read_status h bs l.rep c b found,
        read_footer h bs l.rep c b found,
        own.runs_next,
        own.runs_prev,
        e,
      );
      blocks = own.blocks;
      listed = record {
        rep = Rep-head then_h own.blocks (some c) own.rep;
        linked =
            Linked-cons (λ d. next_at (find s bs d)) (λ d. prev_at (find s bs d))
              (λ d. next_at (find s own.blocks d)) (λ d. prev_at (find s own.blocks d)) c
              h.free_head fs l.linked l.nodup out (λ d. ground (arith, own.found d, found, e))
              (λ d. ground (arith, own.found d, found, e));
        nodup = ground (arith, l.nodup);
        free = λ d m. ground (arith, l.free d, own.found d, found);
      };
      same_start = refl;
      same_end = refl;
      shapes = λ d. ground (arith, own.found d);
    };
    kept = λ d m. ground (arith, own.found d, m);
  }

  insert_before :
      (q : ℕ) (y : Block)
      → h.free_head ≡ some q
      → find s bs q ≡ some y
      → Careful h bs (c ∷ fs) (insert_chunk h c) (c ∷ fs) (λ d. shape (find s bs d))
  unfolding insert_chunk
  insert_before q y e at_q =
      let q_in : has q fs ≡ true =
        head-in (λ d. next_at (find s bs d)) (λ d. prev_at (find s bs d)) none h.free_head fs q
          l.linked e in
      let at_q' : find s own.blocks q ≡ some y = ground (arith, own.found q) in
      let w = write_prev_of then_h own.blocks own.rep q y at_q' (some c) in
      let law = λ (d : ℕ). find-update s own.blocks q (put_prev (some c)) (λ x. refl) d in
      record {
        relisted = record {
          heap = record h { memory = w.memory; free_head = some c };
          runs = ground (
            arith,
            read_units h bs l.rep c b found,
            read_status h bs l.rep c b found,
            read_footer h bs l.rep c b found,
            own.runs_next,
            own.runs_prev,
            e,
            w.runs,
          );
          blocks = update s own.blocks q (put_prev (some c));
          listed = record {
            rep = Rep-head (with_memory then_h w.memory) _ (some c) w.rep;
            linked =
                Linked-cons (λ d. next_at (find s bs d)) (λ d. prev_at (find s bs d))
                  (λ d. next_at (find s (update s own.blocks q (put_prev (some c))) d))
                  (λ d. prev_at (find s (update s own.blocks q (put_prev (some c))) d)) c
                  h.free_head fs l.linked l.nodup out
                  (λ d. ground (arith, own.found d, law d, found, e))
                  (λ d. ground (arith, own.found d, law d, found, e, at_q));
            nodup = ground (arith, l.nodup);
            free = λ d m. ground (arith, l.free d, own.found d, law d, found);
          };
          same_start = refl;
          same_end = refl;
          shapes = λ d. ground (arith, own.found d, law d);
        };
        kept =
            λ d m. ground (arith, own.found d, law d, m, q_in, ap (λ k. has k fs) {x = q} {y = d});
      }

  -- Only the chunk and those of the list are written.
  pub insert_chunk-Careful :
      Careful h bs (c ∷ fs) (insert_chunk h c) (c ∷ fs) (λ d. shape (find s bs d))
  insert_chunk-Careful = elim (Option-cases h.free_head) [
    | inl e ↦ insert_empty e
    | inr (q, e) ↦
        let m =
          head-in (λ d. next_at (find s bs d)) (λ d. prev_at (find s bs d)) none h.free_head fs q
            l.linked e in
        let (y, at_q) = block_of (find s bs q) (l.free q m) in insert_before q y e at_q
  ]

  -- In heapmgr1.c, insert_chunk at a free chunk that is not in the free list succeeds; the doubly
  -- linked list in the memory has the chunk in front then, and every chunk keeps its size and its
  -- status.
  pub insert_chunk-Relisted : Relisted h (insert_chunk h c) (c ∷ fs) (λ d. shape (find s bs d))
  insert_chunk-Relisted = insert_chunk-Careful.relisted
