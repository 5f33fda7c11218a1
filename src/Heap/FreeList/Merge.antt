-- ===== src/Heap/FreeList/Merge.antt =====
-- SP_LAB3/src/heapmgr1.c: `merge_chunk` leaves the free list as it is, and joins the two chunks.
use fall_snu_system_pro.Base.{
  ℕ, ◌+◌, ◌^◌, ◌≤◌, ◌<◌, ◌≡◌, refl, ap, ◌∙◌, arith, true, none, some, List, if◌then◌else◌, ◌==◌,
  get_elem?,
}
use fall_snu_system_pro.Heap.Chunk.{
  chunk_in_use, chunk_set_units, chunk_footer_set_units, chunk_footer_set_prev_free_chunk,
}
use fall_snu_system_pro.Heap.Links.{has, frame}
use fall_snu_system_pro.Heap.Blocks.{Block, find, find-in}
use fall_snu_system_pro.Heap.Blocks.Cut.{join, find-join}
use fall_snu_system_pro.Heap.Blocks.Rep.{
  Rep, header_of, tail_of, read_units, read_status, next_there,
}
use fall_snu_system_pro.Heap.Blocks.Rep.Write.{with_memory}
use fall_snu_system_pro.Heap.Blocks.Rep.Units.{
  Put, put_units, put_tail_units, put_tail_link, footer_by, join-Rep,
}
use fall_snu_system_pro.Heap.Manager.{Heap, is_in_use, footer_of, merge_chunk}
use fall_snu_system_pro.Heap.FreeList.{next_at, prev_at, shape, free_shape, Listed, Returned}

module _ (h : Heap) (bs : List Block) (fs : List ℕ) (l : Listed h bs fs) (c : ℕ) (b b' : Block)
    (found : find h.heap_start bs c ≡ some b)
    (found' : find h.heap_start bs (c + b.units + 2) ≡ some b') (is : is_in_use b.status ≡ true)
    (is' : is_in_use b'.status ≡ true) (small : h.heap_end ≤ h.heap_start + 2 ^ 31) where
  abbrev s : ℕ
  s = h.heap_start

  abbrev n : ℕ
  n = b.units + b'.units + 2

  bounds : (s ≤ c) × (c + n + 2 ≤ h.heap_end)
  bounds =
      omega (arith, find-in s bs c b found, find-in s bs (c + b.units + 2) b' found', l.rep.ends)

  fits_int : n < 2 ^ 31
  fits_int = omega (arith, bounds, small)

  w1 : Put (chunk_set_units h.memory c n) h.memory c (record (header_of b) { units = n })
  w1 = put_units h.memory c (header_of b) ((l.rep.holds c b found).header) n

  old : get_elem? h.memory (c + n + 1) ≡ some (tail_of b')
  old = ap (get_elem? h.memory) (omega arith) ∙ (l.rep.holds (c + b.units + 2) b' found').footer

  w2 :
      Put
        (chunk_footer_set_units w1.memory (c + n + 1) n)
        w1.memory
        (c + n + 1)
        (record (tail_of b') { units = n })
  w2 = put_tail_units w1.memory (c + n + 1) (tail_of b') (ground (arith, w1.law (c + n + 1), old)) n

  w3 :
      Put
        (chunk_footer_set_prev_free_chunk w2.memory (c + n + 1) none)
        w2.memory
        (c + n + 1)
        (record (tail_of b') { units = n; link = none })
  w3 =
      put_tail_link w2.memory (c + n + 1) (record (tail_of b') { units = n })
        (ground (arith, w2.law (c + n + 1))) none

  footer1 : footer_of h w1.memory c ≡ some (c + n + 1)
  footer1 =
      footer_by w1.memory c (record (header_of b) { units = n }) (ground (arith, w1.law c)) h
        bounds.0 (omega (arith, bounds))

  abbrev z : Block
  z = record { units = n; status = b.status; next = b.next; prev = none; unread = b'.unread }

  laws :
      (p : ℕ)
      → get_elem? w3.memory p ≡ (
          if c + n + 1 == p
          then some (tail_of z)
          else if c == p
          then some (header_of z)
          else get_elem? h.memory p)
  laws p = ground (arith, w3.law p, w2.law p, w1.law p)

  rep3 : Rep (with_memory h w3.memory) (join s bs c z)
  rep3 =
      join-Rep h bs l.rep c b found w3.memory
        (omega (arith, w1.same_length, w2.same_length, w3.same_length)) b' z found' refl
        (λ p out. ground (arith, laws p, out))
        (record { header = ground (arith, laws c); footer = ground (arith, laws (c + n + 1)) })

  law :
      (d : ℕ)
      → find s (join s bs c z) d
        ≡ (if c == d then some z else if c + b.units + 2 == d then none else find s bs d)
  law d = find-join s bs c b b' z found found' refl d

  -- A chunk of the list is neither of the two.
  apart : (d : ℕ) → has d fs ≡ true → find s (join s bs c z) d ≡ find s bs d
  apart d m = ground (
    arith,
    law d,
    l.free d m,
    ap shape found,
    ap shape found',
    is,
    is',
    ap (λ q. shape (find s bs q)) {x = c} {y = d},
    ap (λ q. shape (find s bs q)) {x = c + b.units + 2} {y = d},
  )

  -- Merging two neighbouring chunks in use succeeds and returns the first, which spans both then;
  -- the list and the other chunks stay as they are.
  pub merge_chunk-Returned : Returned h (merge_chunk h c (c + b.units + 2)) c fs (λ d.
      if c == d
      then some (b.units + b'.units + 2, chunk_in_use)
      else if c + b.units + 2 == d
      then none
      else shape (find h.heap_start bs d))
  unfolding merge_chunk
  merge_chunk-Returned = record {
    heap = with_memory h w3.memory;
    runs = ground (
      arith,
      next_there h bs l.rep c b found b' found',
      read_status h bs l.rep c b found,
      read_status h bs l.rep (c + b.units + 2) b' found',
      is,
      is',
      read_units h bs l.rep c b found,
      read_units h bs l.rep (c + b.units + 2) b' found',
      w1.runs,
      footer1,
      w2.runs,
      w3.runs,
      fits_int,
    );
    blocks = join s bs c z;
    listed = record {
      rep = rep3;
      linked =
          frame (λ d. next_at (find s bs d)) (λ d. prev_at (find s bs d)) _ _ none h.free_head fs
            l.linked (λ d m. (ap next_at (apart d m), ap prev_at (apart d m)));
      nodup = l.nodup;
      free = λ d m. ap (λ o. free_shape (shape o)) (apart d m) ∙ l.free d m;
    };
    same_start = refl;
    same_end = refl;
    shapes = λ d. ground (arith, law d, is);
  }
