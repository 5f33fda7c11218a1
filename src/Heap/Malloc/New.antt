-- ===== src/Heap/Malloc/New.antt =====
-- SP_LAB3/src/heapmgr1.c: the chunk that `allocate_more_memory` makes of new memory.
use fall_snu_system_pro.Base.{
  ℕ, zero, suc, ◌+◌, ◌≤◌, ◌<◌, ◌≡◌, inl, inr, refl, ap, ◌∙◌, arith, true, none, some, List, [], ◌∷◌,
  ◌++◌, if◌then◌else◌, ◌==◌, Bool-cases, length, length-append, get_elem?,
}
use fall_snu_system_pro.Heap.Chunk.{
  Chunk, chunk_free, chunk_set_units, chunk_footer_set_units, chunk_footer_set_prev_free_chunk,
  chunk_set_status,
}
use fall_snu_system_pro.Heap.Links.{has, frame}
use fall_snu_system_pro.Heap.Blocks.{Block, find, find-in}
use fall_snu_system_pro.Heap.Blocks.Cut.{find-append, span-append}
use fall_snu_system_pro.Heap.Blocks.Rep.{Rep, header_of, tail_of}
use fall_snu_system_pro.Heap.Blocks.Rep.Write.{with_memory}
use fall_snu_system_pro.Heap.Blocks.Rep.Units.{
  Put, get_elem?-in, put_units, put_tail_units, put_tail_link, put_state, footer_by, Holds-moved,
}
use fall_snu_system_pro.Heap.Manager.{Heap, footer_of}
use fall_snu_system_pro.Heap.FreeList.{next_at, prev_at, shape, free_shape, Listed, Relisted}
use fall_snu_system_pro.Heap.FreeList.Insert.{block_of}
use fall_snu_system_pro.Heap.Malloc.{new_chunk, grown}

get_elem?-append {ℓ} :
    {A : Type ℓ} (xs ys : List A) (i : ℕ) → i < length xs → get_elem? (xs ++ ys) i ≡ get_elem? xs i
get_elem?-append [] ys i h = absurd (omega (arith, h))
get_elem?-append (x ∷ xs) ys zero h = refl
get_elem?-append (x ∷ xs) ys (suc i) h = get_elem?-append xs ys i (omega arith)

module _ (h : Heap) (bs : List Block) (fs : List ℕ) (l : Listed h bs fs) (new : List Chunk) (n : ℕ)
    (enough : length new ≡ n + 2) where
  abbrev s : ℕ
  s = h.heap_start

  abbrev c : ℕ
  c = h.heap_end

  abbrev hg : Heap
  hg = grown h new

  len : length hg.memory ≡ c + n + 2
  len = omega (arith, length-append h.memory new, l.rep.sized, enough)

  in1 : (v : Chunk) × (get_elem? hg.memory c ≡ some v)
  in1 = get_elem?-in hg.memory c (omega (arith, len))

  w1 : Put (chunk_set_units hg.memory c n) hg.memory c (record in1.0 { units = n })
  w1 = put_units hg.memory c in1.0 in1.1 n

  in2 : (v : Chunk) × (get_elem? w1.memory (c + n + 1) ≡ some v)
  in2 = get_elem?-in w1.memory (c + n + 1) (omega (arith, len, w1.same_length))

  w2 :
      Put
        (chunk_footer_set_units w1.memory (c + n + 1) n)
        w1.memory
        (c + n + 1)
        (record in2.0 { units = n })
  w2 = put_tail_units w1.memory (c + n + 1) in2.0 in2.1 n

  w3 :
      Put
        (chunk_footer_set_prev_free_chunk w2.memory (c + n + 1) none)
        w2.memory
        (c + n + 1)
        (record in2.0 { units = n; link = none })
  w3 =
      put_tail_link w2.memory (c + n + 1) (record in2.0 { units = n })
        (ground (arith, w2.law (c + n + 1))) none

  w4 :
      Put
        (chunk_set_status w3.memory c chunk_free)
        w3.memory
        c
        (record in1.0 { units = n; status = chunk_free })
  w4 =
      put_state w3.memory c (record in1.0 { units = n })
        (ground (arith, w3.law c, w2.law c, w1.law c)) chunk_free

  footer1 : footer_of hg w1.memory c ≡ some (c + n + 1)
  footer1 =
      footer_by w1.memory c (record in1.0 { units = n }) (ground (arith, w1.law c)) hg
        (omega (arith, l.rep.ends)) (omega (arith, enough))

  abbrev x : Block
  x = record {
    units = n;
    status = chunk_free;
    next = in1.0.link;
    prev = none;
    unread = in2.0.status;
  }

  laws :
      (p : ℕ)
      → get_elem? w4.memory p ≡ (
          if c == p
          then some (header_of x)
          else if c + n + 1 == p
          then some (tail_of x)
          else get_elem? hg.memory p)
  laws p = ground (arith, w4.law p, w3.law p, w2.law p, w1.law p)

  law : (d : ℕ) → find s (bs ++ x ∷ []) d ≡ (if c == d then some x else find s bs d)
  law d = ground (arith, find-append s bs x d, l.rep.ends)

  kept : (p : ℕ) → p < c → get_elem? w4.memory p ≡ get_elem? h.memory p
  kept p low = ground (arith, laws p, get_elem?-append h.memory new p, l.rep.sized)

  rep4 : Rep (with_memory hg w4.memory) (bs ++ x ∷ [])
  rep4 = record {
    ends = omega (arith, span-append bs x, l.rep.ends, enough);
    sized =
        omega (arith, w1.same_length, w2.same_length, w3.same_length, w4.same_length, len, enough);
    holds = λ d y f. elim (Bool-cases (c == d)) [
      | inl e ↦
          Holds-moved w4.memory c d x y (ground (arith, e)) (ground (arith, law d, f, e))
            (record { header = ground (arith, laws c); footer = ground (arith, laws (c + n + 1)) })
      | inr e ↦
          let f' : find s bs d ≡ some y = ground (arith, law d, f, e) in
          let inside : d + y.units + 2 ≤ c = omega (arith, find-in s bs d y f', l.rep.ends) in
          record {
            header = kept d (omega (arith, inside)) ∙ (l.rep.holds d y f').header;
            footer = kept (d + y.units + 1) (omega (arith, inside)) ∙ (l.rep.holds d y f').footer;
          }
    ];
  }

  apart : (d : ℕ) → has d fs ≡ true → find s (bs ++ x ∷ []) d ≡ find s bs d
  apart d m =
      let (y, f) = block_of (find s bs d) (l.free d m) in
      ground (arith, law d, find-in s bs d y f, l.rep.ends)

  -- New memory behind the heap becomes a free chunk of `n` units that is not in the list yet.
  pub new_chunk-Relisted :
      Relisted
        (grown h new)
        (new_chunk (grown h new) h.heap_end n)
        fs
        (λ d. if h.heap_end == d then some (n, chunk_free) else shape (find h.heap_start bs d))
  unfolding new_chunk
  new_chunk-Relisted = record {
    heap = with_memory hg w4.memory;
    runs = ground (arith, w1.runs, footer1, w2.runs, w3.runs, w4.runs);
    blocks = bs ++ x ∷ [];
    listed = record {
      rep = rep4;
      linked =
          frame (λ d. next_at (find s bs d)) (λ d. prev_at (find s bs d)) _ _ none h.free_head fs
            l.linked (λ d m. (ap next_at (apart d m), ap prev_at (apart d m)));
      nodup = l.nodup;
      free = λ d m. ap (λ o. free_shape (shape o)) (apart d m) ∙ l.free d m;
    };
    same_start = refl;
    same_end = refl;
    shapes = λ d. ground (arith, law d);
  }
