-- ===== src/Heap/Blocks/Rep/Write.antt =====
-- SP_LAB3/src: a write to the header or the footer of a chunk changes that chunk alone.
use fall_snu_system_pro.Base.{
  ℕ, ◌+◌, ◌≤◌, ◌<◌, ◌≡◌, ◌≢◌, ◌⊎◌, refl, sym, ap, ◌∙◌, arith, Option, none, some, List, ◌==◌,
  if◌then◌else◌, get_elem?, get_elem?-set, ◌>>=◌, subst, Bool-cases, inl, inr, set, length-set,
}
use fall_snu_system_pro.Heap.Chunk.{
  Status, Chunk, chunk_set_status, chunk_set_next_free_chunk, chunk_footer_set_prev_free_chunk,
}
use fall_snu_system_pro.Heap.Blocks.{Block, find, update, find-apart, find-update, span-update}
use fall_snu_system_pro.Heap.Blocks.Rep.{Holds, Rep, header_of, tail_of, read_footer}
use fall_snu_system_pro.Heap.Manager.{Heap, footer_of}

abbrev pub with_memory : Heap → List Chunk → Heap
with_memory h mem = record h { memory = mem }

module _ (h : Heap) (bs : List Block) (r : Rep h bs) where
  pub header-at :
      (d : ℕ) (b : Block)
      → find h.heap_start bs d ≡ some b
      → get_elem? h.memory d ≡ some (header_of b)
  header-at d b f = (r.holds d b f).header

  pub footer-at :
      (d : ℕ) (b : Block)
      → find h.heap_start bs d ≡ some b
      → get_elem? h.memory (d + b.units + 1) ≡ some (tail_of b)
  footer-at d b f = (r.holds d b f).footer

  module _ (c : ℕ) (b : Block) (found : find h.heap_start bs c ≡ some b) (g : Block → Block)
      (keep : (x : Block) → (g x).units ≡ x.units) where
    -- The chunk found after the update, and where it stands.
    moved :
        (d : ℕ) (x : Block)
        → find h.heap_start (update h.heap_start bs c g) d ≡ some x
        → ((c ≡ d) × (x ≡ g b)) ⊎ ((c ≢ d) × (find h.heap_start bs d ≡ some x))
    moved d x e =
        let law = find-update h.heap_start bs c g keep d in
        elim (Bool-cases (c == d)) [
          | inl p ↦
              let same : c ≡ d = ground arith in
              inl (same, ground (arith, law, ap (find h.heap_start bs) same))
          | inr p ↦ inr (ground arith, ground (arith, law))
        ]

    -- One unit of the chunk is written.
    write-Rep :
        (p : ℕ) (old v : Chunk)
        → get_elem? h.memory p ≡ some old
        → (c ≤ p) × (p < c + b.units + 2)
        → Holds (set h.memory p v) c (g b)
        → Rep (with_memory h (set h.memory p v)) (update h.heap_start bs c g)
    write-Rep p old v at_p inside here = record {
      ends = ap (λ n. h.heap_start + n) (span-update h.heap_start bs c g keep) ∙ r.ends;
      sized = length-set h.memory p v ∙ r.sized;
      holds = λ d x e. elim (moved d x e) [
        | inl (same, new) ↦
            subst (λ y. Holds (set h.memory p v) d y) (sym new)
              (subst (λ q. Holds (set h.memory p v) q (g b)) same here)
        | inr (ne, f) ↦
            let law = λ (q : ℕ). get_elem?-set h.memory p q old v at_p in
            let away = find-apart h.heap_start bs c d b x found f ne in
            record {
              header = ground (arith, law d, header-at d x f, away);
              footer = ground (arith, law (d + x.units + 1), footer-at d x f, away);
            }
      ];
    }

    pub header-Rep :
        (v : Chunk)
        → header_of (g b) ≡ v
        → tail_of (g b) ≡ tail_of b
        → Rep (with_memory h (set h.memory c v)) (update h.heap_start bs c g)
    header-Rep v same_header same_tail =
        let law = λ (q : ℕ). get_elem?-set h.memory c q (header_of b) v (header-at c b found) in
        write-Rep c (header_of b) v (header-at c b found) (omega arith) (record {
          header = ground (arith, law c, same_header);
          footer = ground (
            arith,
            law (c + b.units + 1),
            footer-at c b found,
            same_tail,
            keep b,
            ap (λ n. get_elem? (set h.memory c v) (c + n + 1)) (keep b),
          );
        })

    pub footer-Rep :
        (v : Chunk)
        → header_of (g b) ≡ header_of b
        → tail_of (g b) ≡ v
        → Rep (with_memory h (set h.memory (c + b.units + 1) v)) (update h.heap_start bs c g)
    footer-Rep v same_header same_tail =
        let p = c + b.units + 1 in
        let law = λ (q : ℕ). get_elem?-set h.memory p q (tail_of b) v (footer-at c b found) in
        write-Rep p (tail_of b) v (footer-at c b found) (omega arith) (record {
          header = ground (arith, law c, header-at c b found, same_header);
          footer = ground (
            arith,
            law p,
            same_tail,
            ap (λ n. get_elem? (set h.memory p v) (c + n + 1)) (keep b),
          );
        })

abbrev pub put_next : Option ℕ → Block → Block
put_next v b = record b { next = v }

abbrev pub put_prev : Option ℕ → Block → Block
put_prev v b = record b { prev = v }

abbrev pub put_status : Status → Block → Block
put_status v b = record b { status = v }

-- The write succeeds, and the memory holds the chunks `bs`.
pub record Wrote (run : Option (List Chunk)) (h : Heap) (bs : List Block) : Type 0 where
  pub memory : List Chunk
  pub runs : run ≡ some memory
  pub rep : Rep (with_memory h memory) bs

module _ (h : Heap) (bs : List Block) (r : Rep h bs) (c : ℕ) (b : Block)
    (found : find h.heap_start bs c ≡ some b) where
  pub write_next :
      (v : Option ℕ)
      → Wrote (chunk_set_next_free_chunk h.memory c v) h (update h.heap_start bs c (put_next v))
  unfolding chunk_set_next_free_chunk
  write_next v = record {
    memory = set h.memory c (header_of (put_next v b));
    runs = ground (arith, header-at h bs r c b found);
    rep = header-Rep h bs r c b found (put_next v) (λ x. refl) (header_of (put_next v b)) refl refl;
  }

  pub write_status :
      (v : Status)
      → Wrote (chunk_set_status h.memory c v) h (update h.heap_start bs c (put_status v))
  unfolding chunk_set_status
  write_status v = record {
    memory = set h.memory c (header_of (put_status v b));
    runs = ground (arith, header-at h bs r c b found);
    rep =
        header-Rep h bs r c b found (put_status v) (λ x. refl) (header_of (put_status v b)) refl
          refl;
  }

  pub write_prev :
      (v : Option ℕ)
      → Wrote
          (chunk_footer_set_prev_free_chunk h.memory (c + b.units + 1) v)
          h
          (update h.heap_start bs c (put_prev v))
  unfolding chunk_footer_set_prev_free_chunk
  write_prev v = record {
    memory = set h.memory (c + b.units + 1) (tail_of (put_prev v b));
    runs = ground (arith, footer-at h bs r c b found);
    rep = footer-Rep h bs r c b found (put_prev v) (λ x. refl) (tail_of (put_prev v b)) refl refl;
  }

  -- The footer is looked up first.
  pub write_prev_of :
      (v : Option ℕ)
      → Wrote
          (footer_of h h.memory c
            >>= (λ footer. chunk_footer_set_prev_free_chunk h.memory footer v))
          h
          (update h.heap_start bs c (put_prev v))
  write_prev_of v =
      let w = write_prev v in
      record { memory = w.memory; runs = rw (read_footer h bs r c b found) w.runs; rep = w.rep }

-- Both links of a chunk.
pub record LinkedBoth (h : Heap) (bs : List Block) (c n : ℕ) (v w : Option ℕ) : Type 0 where
  pub first : List Chunk
  pub second : List Chunk
  pub runs_next : chunk_set_next_free_chunk h.memory c v ≡ some first
  pub runs_prev : chunk_footer_set_prev_free_chunk first (c + n + 1) w ≡ some second
  pub blocks : List Block
  pub rep : Rep (with_memory h second) blocks
  pub found :
      (d : ℕ)
      → find h.heap_start blocks d ≡ (
          if c == d
          then elim (find h.heap_start bs d) [
            | none ↦ none
            | some x ↦ some (record x { next = v; prev = w })
          ]
          else find h.heap_start bs d)

pub write_links :
    (h : Heap) (bs : List Block) (r : Rep h bs) (c : ℕ) (b : Block)
    (found : find h.heap_start bs c ≡ some b) (v w : Option ℕ)
    → LinkedBoth h bs c b.units v w
write_links h bs r c b found v w =
    let s = h.heap_start in
    let bs1 = update s bs c (put_next v) in
    let one = write_next h bs r c b found v in
    let law = find-update s bs c (put_next v) (λ x. refl) in
    let found1 : find s bs1 c ≡ some (put_next v b) = ground (arith, found, law c) in
    let two = write_prev (with_memory h one.memory) bs1 one.rep c (put_next v b) found1 w in
    record {
      first = one.memory;
      second = two.memory;
      runs_next = one.runs;
      runs_prev = two.runs;
      blocks = update s bs1 c (put_prev w);
      rep = two.rep;
      found = λ d. ground (arith, law d, find-update s bs1 c (put_prev w) (λ x. refl) d);
    }
