-- ===== src/Heap/FreeList/Remove/Unlink.antt =====
-- SP_LAB3/src/heapmgr1.c: the four cases of `remove_chunk_from_list`.
use fall_snu_system_pro.Base.{
  ℕ, ◌≡◌, refl, arith, Option, none, some, List, if◌then◌else◌, Option-cases, inl, inr,
}
use fall_snu_system_pro.Heap.Chunk.{Chunk}
use fall_snu_system_pro.Heap.Links.{points}
use fall_snu_system_pro.Heap.Blocks.{Block, find, update, find-update}
use fall_snu_system_pro.Heap.Blocks.Rep.{Rep}
use fall_snu_system_pro.Heap.Blocks.Rep.Write.{
  with_memory, put_prev, put_next, write_next, write_prev_of,
}
use fall_snu_system_pro.Heap.Manager.{Heap, unlink}

-- A chunk after its neighbours in the list, `p` before and `n` behind, are linked to each other.
abbrev pub bypass : Option ℕ → Option ℕ → ℕ → Option Block → Option Block
bypass p n d none = none
bypass p n d (some x) =
    some (record x {
      next = if points p d then n else x.next;
      prev = if points n d then p else x.prev;
    })

abbrev pub head_after : Option ℕ → Option ℕ → Option ℕ → Option ℕ
head_after none n head = n
head_after (some p) n head = head

pub record Unlinked (h : Heap) (bs : List Block) (p n : Option ℕ) : Type 0 where
  pub memory : List Chunk
  pub runs :
      unlink h p n ≡ some (record h { memory = memory; free_head = head_after p n h.free_head })
  pub blocks : List Block
  pub rep : Rep (with_memory h memory) blocks
  pub law : (d : ℕ) → find h.heap_start blocks d ≡ bypass p n d (find h.heap_start bs d)

module _ (h : Heap) (bs : List Block) (r : Rep h bs) where
  unlink_only : Unlinked h bs none none
  unlink_only = record {
    memory = h.memory;
    runs = refl;
    blocks = bs;
    rep = r;
    law = λ d. ground arith;
  }

  unlink_first : (n : ℕ) (y : Block) → find h.heap_start bs n ≡ some y → Unlinked h bs none (some n)
  unlink_first n y at_n =
      let w = write_prev_of h bs r n y at_n none in
      record {
        memory = w.memory;
        runs = ground (arith, w.runs);
        blocks = update h.heap_start bs n (put_prev none);
        rep = w.rep;
        law = λ d. ground (arith, find-update h.heap_start bs n (put_prev none) (λ x. refl) d);
      }

  unlink_last : (p : ℕ) (x : Block) → find h.heap_start bs p ≡ some x → Unlinked h bs (some p) none
  unlink_last p x at_p =
      let w = write_next h bs r p x at_p none in
      record {
        memory = w.memory;
        runs = ground (arith, w.runs);
        blocks = update h.heap_start bs p (put_next none);
        rep = w.rep;
        law = λ d. ground (arith, find-update h.heap_start bs p (put_next none) (λ x. refl) d);
      }

  unlink_inner :
      (p n : ℕ) (x y : Block)
      → find h.heap_start bs p ≡ some x
      → find h.heap_start bs n ≡ some y
      → Unlinked h bs (some p) (some n)
  unlink_inner p n x y at_p at_n =
      let s = h.heap_start in
      let w = write_prev_of h bs r n y at_n (some p) in
      let bs1 = update s bs n (put_prev (some p)) in
      let law1 = λ (d : ℕ). find-update s bs n (put_prev (some p)) (λ x. refl) d in
      let (x1, at_p1) : (x1 : Block) × (find s bs1 p ≡ some x1) =
        elim (Option-cases (find s bs1 p)) [
          | inl e ↦ absurd (ground (arith, law1 p, at_p, e))
          | inr found ↦ found
        ] in
      let w2 = write_next (with_memory h w.memory) bs1 w.rep p x1 at_p1 (some n) in
      record {
        memory = w2.memory;
        runs = ground (arith, w.runs, w2.runs);
        blocks = update s bs1 p (put_next (some n));
        rep = w2.rep;
        law = λ d. ground (arith, law1 d, find-update s bs1 p (put_next (some n)) (λ x. refl) d);
      }

  pub unlink_lem :
      (p n : Option ℕ)
      → ((q : ℕ) → p ≡ some q → (x : Block) × (find h.heap_start bs q ≡ some x))
      → ((q : ℕ) → n ≡ some q → (x : Block) × (find h.heap_start bs q ≡ some x))
      → Unlinked h bs p n
  unlink_lem none none at_p at_n = unlink_only
  unlink_lem none (some n) at_p at_n = unlink_first n _ (at_n n refl).1
  unlink_lem (some p) none at_p at_n = unlink_last p _ (at_p p refl).1
  unlink_lem (some p) (some n) at_p at_n = unlink_inner p n _ _ (at_p p refl).1 (at_n n refl).1
