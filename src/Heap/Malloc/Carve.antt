-- ===== src/Heap/Malloc/Carve.antt =====
-- SP_LAB3/src/heapmgr1.c: what `heapmgr_malloc` makes of a chunk of new memory.
use fall_snu_system_pro.Base.{
  ℕ, ◌+◌, ◌-◌, ◌≤◌, ◌<◌, ◌≡◌, inl, inr, refl, ap, ◌∙◌, arith, true, false, none, some, List, ◌∷◌,
  if◌then◌else◌, ◌==◌, length, get_elem?, Option-cases,
}
use fall_snu_system_pro.Heap.Chunk.{
  Chunk, chunk_free, chunk_set_units, chunk_footer_set_units, chunk_set_status,
}
use fall_snu_system_pro.Heap.Links.{has, frame}
use fall_snu_system_pro.Heap.Blocks.{Block, find, find-in, find-apart}
use fall_snu_system_pro.Heap.Blocks.Cut.{cut, find-cut}
use fall_snu_system_pro.Heap.Blocks.Rep.{Rep, header_of, tail_of}
use fall_snu_system_pro.Heap.Blocks.Rep.Write.{with_memory}
use fall_snu_system_pro.Heap.Blocks.Rep.Units.{
  Put, get_elem?-in, put_units, put_tail_units, put_state, footer_by, next_by, cut-Rep,
}
use fall_snu_system_pro.Heap.Manager.{Heap, footer_of, next_of}
use fall_snu_system_pro.Heap.FreeList.{next_at, prev_at, shape, free_shape, Listed, Relisted}
use fall_snu_system_pro.Heap.FreeList.Insert.{insert_chunk-Relisted}
use fall_snu_system_pro.Heap.Malloc.{carve}

module _ (h : Heap) (bs : List Block) (fs : List ℕ) (l : Listed h bs fs) (c : ℕ) (b : Block)
    (found : find h.heap_start bs c ≡ some b) (out : has c fs ≡ false) (units : ℕ)
    (fits : units + 2 < b.units) where
  abbrev s : ℕ
  s = h.heap_start

  abbrev n : ℕ
  n = b.units - units - 2

  abbrev c2 : ℕ
  c2 = c + units + 2

  bounds : (s ≤ c) × (c + b.units + 2 ≤ length h.memory) × (length h.memory ≡ h.heap_end)
  bounds = ground (arith, find-in s bs c b found, l.rep.ends, l.rep.sized)

  w1 : Put (chunk_set_units h.memory c units) h.memory c (record (header_of b) { units = units })
  w1 = put_units h.memory c (header_of b) ((l.rep.holds c b found).header) units

  in1 : (v : Chunk) × (get_elem? w1.memory (c + units + 1) ≡ some v)
  in1 = get_elem?-in w1.memory (c + units + 1) (omega (arith, w1.same_length, bounds, fits))

  w2 :
      Put
        (chunk_footer_set_units w1.memory (c + units + 1) units)
        w1.memory
        (c + units + 1)
        (record in1.0 { units = units })
  w2 = put_tail_units w1.memory (c + units + 1) in1.0 in1.1 units

  in2 : (v : Chunk) × (get_elem? w2.memory c2 ≡ some v)
  in2 = get_elem?-in w2.memory c2 (omega (arith, w1.same_length, w2.same_length, bounds, fits))

  w3 : Put (chunk_set_units w2.memory c2 n) w2.memory c2 (record in2.0 { units = n })
  w3 = put_units w2.memory c2 in2.0 in2.1 n

  old : get_elem? h.memory (c2 + n + 1) ≡ some (tail_of b)
  old = ap (get_elem? h.memory) (omega (arith, fits)) ∙ (l.rep.holds c b found).footer

  w4 :
      Put
        (chunk_footer_set_units w3.memory (c2 + n + 1) n)
        w3.memory
        (c2 + n + 1)
        (record (tail_of b) { units = n })
  w4 =
      let e = c2 + n + 1 in
      put_tail_units w3.memory e (tail_of b) (ground (arith, w3.law e, w2.law e, w1.law e, old)) n

  w5 :
      Put
        (chunk_set_status w4.memory c2 chunk_free)
        w4.memory
        c2
        (record in2.0 { units = n; status = chunk_free })
  w5 =
      put_state w4.memory c2 (record in2.0 { units = n }) (ground (arith, w4.law c2, w3.law c2))
        chunk_free

  footer1 : footer_of h w1.memory c ≡ some (c + units + 1)
  footer1 =
      footer_by w1.memory c (record (header_of b) { units = units }) (ground (arith, w1.law c)) h
        bounds.0 (omega (arith, bounds, fits))

  next2 : next_of h w2.memory c ≡ some c2
  next2 =
      next_by w2.memory c (record (header_of b) { units = units })
        (ground (arith, w2.law c, w1.law c)) h bounds.0 (omega (arith, bounds, fits))

  footer2 : footer_of h w3.memory c2 ≡ some (c2 + n + 1)
  footer2 =
      footer_by w3.memory c2 (record in2.0 { units = n }) (ground (arith, w3.law c2)) h
        (omega (arith, bounds)) (omega (arith, bounds, fits))

  abbrev front : Block
  front = record {
    units = units;
    status = b.status;
    next = b.next;
    prev = in1.0.link;
    unread = in1.0.status;
  }

  abbrev behind : Block
  behind = record {
    units = n;
    status = chunk_free;
    next = in2.0.link;
    prev = b.prev;
    unread = b.unread;
  }

  laws :
      (p : ℕ)
      → get_elem? w5.memory p ≡ (
          if c2 == p
          then some (header_of behind)
          else if c == p
          then some (header_of front)
          else if c2 + n + 1 == p
          then some (tail_of behind)
          else if c + units + 1 == p
          then some (tail_of front)
          else get_elem? h.memory p)
  laws p = ground (arith, w5.law p, w4.law p, w3.law p, w2.law p, w1.law p)

  abbrev halves : List Block
  halves = cut s bs c front behind

  rep5 : Rep (with_memory h w5.memory) halves
  rep5 =
      cut-Rep h bs l.rep c b found w5.memory
        (omega
          (arith, w1.same_length, w2.same_length, w3.same_length, w4.same_length, w5.same_length))
        front behind (omega (arith, fits)) (λ p away. ground (arith, laws p, away, fits))
        (record { header = ground (arith, laws c); footer = ground (arith, laws (c + units + 1)) })
        (record { header = ground (arith, laws c2); footer = ground (arith, laws (c2 + n + 1)) })

  law :
      (d : ℕ)
      → find s halves d
        ≡ (if c == d then some front else if c2 == d then some behind else find s bs d)
  law d = find-cut s bs c b front behind found (omega (arith, fits)) d

  empty2 : find s bs c2 ≡ none
  empty2 = elim (Option-cases (find s bs c2)) [
    | inl e ↦ e
    | inr (x, e) ↦ absurd (omega (arith, fits, find-apart s bs c c2 b x found e (omega arith)))
  ]

  out2 : has c2 fs ≡ false
  out2 = ground (arith, l.free c2, empty2)

  abbrev h5 : Heap
  h5 = with_memory h w5.memory

  apart : (d : ℕ) → has d fs ≡ true → find s halves d ≡ find s bs d
  apart d e = ground (
    arith,
    law d,
    out,
    out2,
    ap (λ q. has q fs) {x = c} {y = d},
    ap (λ q. has q fs) {x = c2} {y = d},
  )

  listed5 : Listed h5 halves fs
  listed5 = record {
    rep = rep5;
    linked =
        frame (λ d. next_at (find s bs d)) (λ d. prev_at (find s bs d)) _ _ none h.free_head fs
          l.linked (λ d e. (ap next_at (apart d e), ap prev_at (apart d e)));
    nodup = l.nodup;
    free = λ d e. ap (λ o. free_shape (shape o)) (apart d e) ∙ l.free d e;
  }

  found5 : find s halves c2 ≡ some behind
  found5 = ground (arith, law c2)

  -- The chunk keeps `units`, and behind it comes a free chunk, which is put in the list.
  pub carve-Relisted : Relisted h (carve h c b.units units) ((c + units + 2) ∷ fs) (λ d.
      if c == d
      then some (units, b.status)
      else if c + units + 2 == d
      then some (b.units - units - 2, chunk_free)
      else shape (find h.heap_start bs d))
  unfolding carve
  carve-Relisted =
      let r =
        insert_chunk-Relisted h5 halves fs listed5 c2 behind found5 refl (omega (arith, fits))
          out2 in
      record {
        heap = r.heap;
        runs =
            ground
              (arith, w1.runs, footer1, w2.runs, next2, w3.runs, footer2, w4.runs, w5.runs, r.runs);
        blocks = r.blocks;
        listed = r.listed;
        same_start = r.same_start;
        same_end = r.same_end;
        shapes = λ d. ground (arith, r.shapes d, law d);
      }
