-- ===== src/Heap/FreeList/Split/Cells.antt =====
-- SP_LAB3/src/heapmgr1.c: the writes of `split_chunk`, one by one.
use fall_snu_system_pro.Base.{
  ℕ, ◌+◌, ◌-◌, ◌≤◌, ◌<◌, ◌≡◌, ap, ◌∙◌, arith, some, List, length, get_elem?, if◌then◌else◌, ◌==◌,
}
use fall_snu_system_pro.Heap.Chunk.{
  Chunk, chunk_free, chunk_set_units, chunk_footer_set_units, chunk_footer_set_prev_free_chunk,
  chunk_set_status, chunk_set_next_free_chunk,
}
use fall_snu_system_pro.Heap.Blocks.{Block, find, find-in}
use fall_snu_system_pro.Heap.Blocks.Cut.{cut}
use fall_snu_system_pro.Heap.Blocks.Rep.{Rep, header_of, tail_of}
use fall_snu_system_pro.Heap.Blocks.Rep.Write.{with_memory}
use fall_snu_system_pro.Heap.Blocks.Rep.Units.{
  Put, get_elem?-in, put_units, put_tail_units, put_link, put_tail_link, put_state, footer_by,
  next_by, cut-Rep,
}
use fall_snu_system_pro.Heap.Manager.{Heap, footer_of, next_of}

module _ (h : Heap) (bs : List Block) (r : Rep h bs) (c : ℕ) (b : Block)
    (found : find h.heap_start bs c ≡ some b) (units : ℕ) (fits : units + 2 < b.units) where
  abbrev pub n : ℕ
  n = b.units - units - 2

  abbrev pub c2 : ℕ
  c2 = c + n + 2

  bounds : (h.heap_start ≤ c) × (c + b.units + 2 ≤ length h.memory) × (length h.memory ≡ h.heap_end)
  bounds = ground (arith, find-in h.heap_start bs c b found, r.ends, r.sized)

  pub w1 : Put (chunk_set_units h.memory c n) h.memory c (record (header_of b) { units = n })
  w1 = put_units h.memory c (header_of b) ((r.holds c b found).header) n

  pub in1 : (v : Chunk) × (get_elem? w1.memory (c + n + 1) ≡ some v)
  in1 = get_elem?-in w1.memory (c + n + 1) (omega (arith, w1.same_length, bounds))

  pub w2 :
      Put
        (chunk_footer_set_units w1.memory (c + n + 1) n)
        w1.memory
        (c + n + 1)
        (record in1.0 { units = n })
  w2 = put_tail_units w1.memory (c + n + 1) in1.0 in1.1 n

  pub w3 :
      Put
        (chunk_footer_set_prev_free_chunk w2.memory (c + n + 1) b.prev)
        w2.memory
        (c + n + 1)
        (record in1.0 { units = n; link = b.prev })
  w3 =
      put_tail_link w2.memory (c + n + 1) (record in1.0 { units = n })
        (ground (arith, w2.law (c + n + 1))) b.prev

  pub in3 : (v : Chunk) × (get_elem? w3.memory c2 ≡ some v)
  in3 =
      get_elem?-in w3.memory c2
        (omega (arith, w1.same_length, w2.same_length, w3.same_length, bounds))

  pub w4 : Put (chunk_set_units w3.memory c2 units) w3.memory c2 (record in3.0 { units = units })
  w4 = put_units w3.memory c2 in3.0 in3.1 units

  old : get_elem? h.memory (c2 + units + 1) ≡ some (tail_of b)
  old = ap (get_elem? h.memory) (omega (arith, fits)) ∙ (r.holds c b found).footer

  at5 : get_elem? w4.memory (c2 + units + 1) ≡ some (tail_of b)
  at5 = let e = c2 + units + 1 in ground (arith, w4.law e, w3.law e, w2.law e, w1.law e, old)

  pub w5 :
      Put
        (chunk_footer_set_prev_free_chunk w4.memory (c2 + units + 1) (some c))
        w4.memory
        (c2 + units + 1)
        (record (tail_of b) { link = some c })
  w5 = put_tail_link w4.memory (c2 + units + 1) (tail_of b) at5 (some c)

  pub w6 :
      Put
        (chunk_footer_set_units w5.memory (c2 + units + 1) units)
        w5.memory
        (c2 + units + 1)
        (record (tail_of b) { link = some c; units = units })
  w6 =
      put_tail_units w5.memory (c2 + units + 1) (record (tail_of b) { link = some c })
        (ground (arith, w5.law (c2 + units + 1))) units

  pub w7 :
      Put
        (chunk_set_status w6.memory c2 chunk_free)
        w6.memory
        c2
        (record in3.0 { units = units; status = chunk_free })
  w7 =
      put_state w6.memory c2 (record in3.0 { units = units })
        (ground (arith, w6.law c2, w5.law c2, w4.law c2)) chunk_free

  at8 : get_elem? w7.memory c ≡ some (record (header_of b) { units = n })
  at8 = ground (arith, w7.law c, w6.law c, w5.law c, w4.law c, w3.law c, w2.law c, w1.law c)

  pub w8 :
      Put
        (chunk_set_next_free_chunk w7.memory c (some c2))
        w7.memory
        c
        (record (header_of b) { units = n; link = some c2 })
  w8 = put_link w7.memory c (record (header_of b) { units = n }) at8 (some c2)

  pub w9 :
      Put
        (chunk_set_next_free_chunk w8.memory c2 b.next)
        w8.memory
        c2
        (record { link = b.next; units = units; status = chunk_free })
  w9 =
      put_link w8.memory c2 (record in3.0 { units = units; status = chunk_free })
        (ground (arith, w8.law c2, w7.law c2)) b.next

  pub footer1 : footer_of h w1.memory c ≡ some (c + n + 1)
  footer1 =
      footer_by w1.memory c (record (header_of b) { units = n }) (ground (arith, w1.law c)) h
        bounds.0 (omega (arith, bounds))

  pub next3 : next_of h w3.memory c ≡ some c2
  next3 =
      next_by w3.memory c (record (header_of b) { units = n })
        (ground (arith, w3.law c, w2.law c, w1.law c)) h bounds.0 (omega (arith, bounds))

  pub footer2 : footer_of h w4.memory c2 ≡ some (c2 + units + 1)
  footer2 =
      footer_by w4.memory c2 (record in3.0 { units = units }) (ground (arith, w4.law c2)) h
        (omega (arith, bounds)) (omega (arith, bounds))

  -- The two chunks after the writes.
  abbrev pub front : Block
  front = record {
    units = n;
    status = b.status;
    next = some c2;
    prev = b.prev;
    unread = in1.0.status;
  }

  abbrev pub behind : Block
  behind = record {
    units = units;
    status = chunk_free;
    next = b.next;
    prev = some c;
    unread = b.unread;
  }

  laws :
      (p : ℕ)
      → get_elem? w9.memory p ≡ (
          if c2 == p
          then some (header_of behind)
          else if c == p
          then some (header_of front)
          else if c2 + units + 1 == p
          then some (tail_of behind)
          else if c + n + 1 == p
          then some (tail_of front)
          else get_elem? h.memory p)
  laws p = ground (
    arith,
    w9.law p,
    w8.law p,
    w7.law p,
    w6.law p,
    w5.law p,
    w4.law p,
    w3.law p,
    w2.law p,
    w1.law p,
  )

  pub rep9 : Rep (with_memory h w9.memory) (cut h.heap_start bs c front behind)
  rep9 =
      cut-Rep h bs r c b found w9.memory
        (omega (
          arith, w1.same_length, w2.same_length, w3.same_length, w4.same_length, w5.same_length,
          w6.same_length, w7.same_length, w8.same_length, w9.same_length,
        ))
        front behind (omega arith) (λ p out. ground (arith, laws p, out))
        (record { header = ground (arith, laws c); footer = ground (arith, laws (c + n + 1)) })
        (record {
          header = ground (arith, laws c2);
          footer = ground (arith, laws (c2 + units + 1));
        })
