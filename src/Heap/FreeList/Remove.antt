-- ===== src/Heap/FreeList/Remove.antt =====
-- SP_LAB3/src/heapmgr1.c: `remove_chunk_from_list` takes a chunk out of the list of free chunks.
pub mod Unlink
use fall_snu_system_pro.Base.{
  ℕ, ◌≡◌, refl, ap, ◌∙◌, arith, true, Option, none, some, List, if◌then◌else◌, ◌==◌, Option-cases,
  inl, inr, subst,
}
use fall_snu_system_pro.Heap.Chunk.{Chunk, chunk_in_use, chunk_set_status}
use fall_snu_system_pro.Heap.Links.{
  has, points, erase, Linked, next-in, prev-in, prev-head, has-erase, distinct-erase,
}
use fall_snu_system_pro.Heap.Links.Change.{Linked-erase}
use fall_snu_system_pro.Heap.Blocks.{Block, find, update, find-update}
use fall_snu_system_pro.Heap.Blocks.Rep.{Rep, read_status, read_footer, read_next, read_prev}
use fall_snu_system_pro.Heap.Blocks.Rep.Write.{
  with_memory, put_prev, put_next, put_status, LinkedBoth, Wrote, write_links, write_next,
  write_status, write_prev_of,
}
use fall_snu_system_pro.Heap.Manager.{Heap, unlink, remove_chunk_from_list}
use fall_snu_system_pro.Heap.FreeList.{
  next_at, prev_at, shape, used, Listed, Relisted, Careful, Rep-head,
}
use fall_snu_system_pro.Heap.FreeList.Insert.{block_of}
use fall_snu_system_pro.Heap.FreeList.Remove.Unlink.{bypass, head_after, Unlinked, unlink_lem}

module _ (h : Heap) (bs : List Block) (fs : List ℕ) (l : Listed h bs fs) (c : ℕ) (b : Block)
    (found : find h.heap_start bs c ≡ some b) (is : has c fs ≡ true) where
  abbrev s : ℕ
  s = h.heap_start

  abbrev next : ℕ → Option ℕ
  next d = next_at (find s bs d)

  abbrev prev : ℕ → Option ℕ
  prev d = prev_at (find s bs d)

  at_next : (q : ℕ) → b.next ≡ some q → (x : Block) × (find s bs q ≡ some x)
  at_next q e =
      block_of (find s bs q)
        (l.free q (next-in next prev none h.free_head fs c q l.linked is (ap next_at found ∙ e)))

  at_prev : (q : ℕ) → b.prev ≡ some q → (x : Block) × (find s bs q ≡ some x)
  at_prev q e =
      block_of (find s bs q)
        (l.free q (ground (arith, prev-in next prev none h.free_head fs c l.linked is, found, e)))

  abbrev u : Unlinked h bs b.prev b.next
  u = unlink_lem h bs l.rep b.prev b.next at_prev at_next

  abbrev h1 : Heap
  h1 = record h { memory = u.memory; free_head = head_after b.prev b.next h.free_head }

  rep1 : Rep h1 u.blocks
  rep1 = Rep-head (with_memory h u.memory) u.blocks h1.free_head u.rep

  abbrev b1 : Block
  b1 = record b {
    next = if points b.prev c then b.next else b.next;
    prev = if points b.next c then b.prev else b.prev;
  }

  found1 : find s u.blocks c ≡ some b1
  found1 = u.law c ∙ ap (bypass b.prev b.next c) found

  abbrev own : LinkedBoth h1 u.blocks c b.units none none
  own = write_links h1 u.blocks rep1 c b1 found1 none none

  found2 : find s own.blocks c ≡ some (record b { next = none; prev = none })
  found2 = ground (arith, own.found c, found1)

  abbrev w :
      Wrote
        (chunk_set_status own.second c chunk_in_use)
        (with_memory h1 own.second)
        (update s own.blocks c (put_status chunk_in_use))
  w = write_status (with_memory h1 own.second) own.blocks own.rep c _ found2 chunk_in_use

  abbrev after : List Block
  after = update s own.blocks c (put_status chunk_in_use)

  law :
      (d : ℕ)
      → find s after d ≡ (
          if c == d
          then some (record b { status = chunk_in_use; next = none; prev = none })
          else bypass b.prev b.next d (find s bs d))
  law d = ground (
    arith,
    find-update s own.blocks c (put_status chunk_in_use) (λ x. refl) d,
    own.found d,
    u.law d,
    found2,
    ap (find s own.blocks) {x = c} {y = d},
  )

  next_law :
      (d : ℕ)
      → next_at (find s after d)
        ≡ (if c == d then none else if points (prev c) d then next c else next d)
  next_law d = ground (arith, law d, found, at_prev d)

  prev_law :
      (d : ℕ)
      → prev_at (find s after d)
        ≡ (if c == d then none else if points (next c) d then prev c else prev d)
  prev_law d = ground (arith, law d, found, at_next d)

  head_law :
      (if points h.free_head c then next c else h.free_head) ≡ head_after b.prev b.next h.free_head
  head_law = ground (
    arith,
    prev-in next prev none h.free_head fs c l.linked is,
    prev-head next prev none h.free_head fs c l.linked,
    found,
  )

  at_next_in : (q : ℕ) → b.next ≡ some q → has q fs ≡ true
  at_next_in q e = next-in next prev none h.free_head fs c q l.linked is (ap next_at found ∙ e)

  at_prev_in : (q : ℕ) → b.prev ≡ some q → has q fs ≡ true
  at_prev_in q e = ground (arith, prev-in next prev none h.free_head fs c l.linked is, found, e)

  -- Only chunks of the list are written.
  pub remove_chunk_from_list-Careful :
      Careful h bs fs (remove_chunk_from_list h c) (erase fs c) (λ d.
        if c == d then used (shape (find h.heap_start bs d)) else shape (find h.heap_start bs d))
  unfolding remove_chunk_from_list
  remove_chunk_from_list-Careful = record {
    relisted = record {
      heap = record h1 { memory = w.memory };
      runs = ground (
        arith,
        read_status h bs l.rep c b found,
        ap shape found,
        l.free c is,
        read_footer h bs l.rep c b found,
        read_prev h bs l.rep c b found,
        read_next h bs l.rep c b found,
        u.runs,
        own.runs_next,
        own.runs_prev,
        w.runs,
      );
      blocks = after;
      listed = record {
        rep = w.rep;
        linked =
            subst
              (λ y.
                Linked (λ d. next_at (find s after d)) (λ d. prev_at (find s after d)) none y
                  (erase fs c))
              head_law
              (Linked-erase next prev (λ d. next_at (find s after d))
                (λ d. prev_at (find s after d)) c next_law prev_law none h.free_head fs l.linked
                l.nodup is refl);
        nodup = distinct-erase fs c l.nodup;
        free = λ d m. ground (arith, has-erase fs c d l.nodup, l.free d, law d);
      };
      same_start = refl;
      same_end = refl;
      shapes = λ d. ground (arith, law d, found, ap (find s bs) {x = c} {y = d});
    };
    kept = λ d m.
        ground
          (arith, law d, m, is, at_prev_in d, at_next_in d, ap (λ k. has k fs) {x = c} {y = d});
  }

  -- In heapmgr1.c, remove_chunk_from_list at a chunk of the free list succeeds; the doubly linked
  -- list in the memory is the same without the chunk, which is in use then, and every chunk keeps
  -- its size and every other one its status.
  pub remove_chunk_from_list-Relisted : Relisted h (remove_chunk_from_list h c) (erase fs c) (λ d.
      if c == d then used (shape (find h.heap_start bs d)) else shape (find h.heap_start bs d))
  remove_chunk_from_list-Relisted = remove_chunk_from_list-Careful.relisted
