-- ===== src/Heap/Blocks/Rep/Units.antt =====
-- SP_LAB3/src: writes to single units of the memory, and chunks that are made of written units.
use fall_snu_system_pro.Base.{
  ℕ, zero, suc, ◌+◌, ◌≤◌, ◌<◌, ◌≡◌, ◌≢◌, ◌⊎◌, inl, inr, refl, ap, ◌∙◌, arith, Option, none, some,
  List, [], ◌∷◌, ◌==◌, if◌then◌else◌, length, get_elem?, get_elem?-set, set, length-set, Bool-cases,
  subst,
}
use fall_snu_system_pro.Heap.Chunk.{
  Status, Chunk, chunk_get_units, chunk_set_status, chunk_set_units, chunk_set_next_free_chunk,
  chunk_footer_set_units, chunk_footer_set_prev_free_chunk, chunk_get_footer_from_header,
  chunk_get_next_adjacent,
}
use fall_snu_system_pro.Heap.Blocks.{Block, find, find-apart}
use fall_snu_system_pro.Heap.Blocks.Cut.{cut, find-cut, span-cut, join, find-join, span-join}
use fall_snu_system_pro.Heap.Blocks.Rep.{Holds, Rep}
use fall_snu_system_pro.Heap.Blocks.Rep.Write.{with_memory}
use fall_snu_system_pro.Heap.Manager.{Heap, footer_of, next_of}

pub get_elem?-in {ℓ} :
    {A : Type ℓ} (xs : List A) (i : ℕ) → i < length xs → (v : A) × (get_elem? xs i ≡ some v)
get_elem?-in [] i h = absurd (omega (arith, h))
get_elem?-in (x ∷ xs) zero h = (x, refl)
get_elem?-in (x ∷ xs) (suc i) h = get_elem?-in xs i (omega arith)

-- The write succeeds and puts `v` at `p`.
pub record Put (run : Option (List Chunk)) (mem : List Chunk) (p : ℕ) (v : Chunk) : Type 0 where
  pub memory : List Chunk
  pub runs : run ≡ some memory
  pub law : (q : ℕ) → get_elem? memory q ≡ (if p == q then some v else get_elem? mem q)
  pub same_length : length memory ≡ length mem

module _ (mem : List Chunk) (p : ℕ) (u : Chunk) (at_p : get_elem? mem p ≡ some u) where
  pub put_units : (n : ℕ) → Put (chunk_set_units mem p n) mem p (record u { units = n })
  unfolding chunk_set_units
  put_units n = record {
    memory = set mem p (record u { units = n });
    runs = ground (arith, at_p);
    law = λ q. get_elem?-set mem p q u (record u { units = n }) at_p;
    same_length = length-set mem p (record u { units = n });
  }

  pub put_tail_units : (n : ℕ) → Put (chunk_footer_set_units mem p n) mem p (record u { units = n })
  unfolding chunk_footer_set_units
  put_tail_units n = record {
    memory = set mem p (record u { units = n });
    runs = ground (arith, at_p);
    law = λ q. get_elem?-set mem p q u (record u { units = n }) at_p;
    same_length = length-set mem p (record u { units = n });
  }

  pub put_link :
      (n : Option ℕ) → Put (chunk_set_next_free_chunk mem p n) mem p (record u { link = n })
  unfolding chunk_set_next_free_chunk
  put_link n = record {
    memory = set mem p (record u { link = n });
    runs = ground (arith, at_p);
    law = λ q. get_elem?-set mem p q u (record u { link = n }) at_p;
    same_length = length-set mem p (record u { link = n });
  }

  pub put_tail_link :
      (n : Option ℕ) → Put (chunk_footer_set_prev_free_chunk mem p n) mem p (record u { link = n })
  unfolding chunk_footer_set_prev_free_chunk
  put_tail_link n = record {
    memory = set mem p (record u { link = n });
    runs = ground (arith, at_p);
    law = λ q. get_elem?-set mem p q u (record u { link = n }) at_p;
    same_length = length-set mem p (record u { link = n });
  }

  pub put_state : (n : Status) → Put (chunk_set_status mem p n) mem p (record u { status = n })
  unfolding chunk_set_status
  put_state n = record {
    memory = set mem p (record u { status = n });
    runs = ground (arith, at_p);
    law = λ q. get_elem?-set mem p q u (record u { status = n }) at_p;
    same_length = length-set mem p (record u { status = n });
  }

  pub footer_by :
      (h : Heap)
      → h.heap_start ≤ p
      → p + u.units + 1 < h.heap_end
      → footer_of h mem p ≡ some (p + u.units + 1)
  unfolding chunk_get_footer_from_header chunk_get_units
  footer_by h low high = ground (arith, at_p)

  pub next_by :
      (h : Heap)
      → h.heap_start ≤ p
      → p + u.units + 2 < h.heap_end
      → next_of h mem p ≡ some (p + u.units + 2)
  unfolding chunk_get_next_adjacent chunk_get_units
  next_by h low high = ground (arith, at_p)

-- Outside of `n` units from `c` on, the memory is the same.
abbrev pub SameOutside : List Chunk → List Chunk → ℕ → ℕ → Type 0
SameOutside mem mem' c n = (p : ℕ) → (p < c) ⊎ (c + n ≤ p) → get_elem? mem' p ≡ get_elem? mem p

-- Where a chunk is found that is looked for at two addresses first.
where_found :
    (c e d : ℕ) (x z : Block) (y o r : Option Block)
    → o ≡ (if c == d then some x else if e == d then y else r)
    → o ≡ some z
    → ((c ≡ d) × (x ≡ z)) ⊎ ((e ≡ d) × (y ≡ some z)) ⊎ ((c ≢ d) × (e ≢ d) × (r ≡ some z))
where_found c e d x z y o r law f = elim (Bool-cases (c == d)) [
  | inl p ↦ inl (ground arith, ground (arith, law, f))
  | inr p ↦ elim (Bool-cases (e == d)) [
    | inl q ↦ inr (inl (ground arith, ground (arith, law, f)))
    | inr q ↦ inr (inr (ground arith, ground arith, ground (arith, law, f)))
  ]
]

pub Holds-moved :
    (mem : List Chunk) (c d : ℕ) (x y : Block) → c ≡ d → x ≡ y → Holds mem c x → Holds mem d y
Holds-moved mem c d x y e e' hx = subst (λ v. Holds mem d v) e' (subst (λ q. Holds mem q x) e hx)

module _ (h : Heap) (bs : List Block) (r : Rep h bs) (c : ℕ) (b : Block)
    (found : find h.heap_start bs c ≡ some b) (mem : List Chunk)
    (len : length mem ≡ length h.memory) where
  abbrev s : ℕ
  s = h.heap_start

  frame_at :
      (n d : ℕ) (x : Block)
      → SameOutside h.memory mem c n
      → (d + x.units + 2 ≤ c) ⊎ (c + n ≤ d)
      → find s bs d ≡ some x
      → Holds mem d x
  frame_at n d x same away f = record {
    header = same d (ground (arith, away)) ∙ (r.holds d x f).header;
    footer = same (d + x.units + 1) (ground (arith, away)) ∙ (r.holds d x f).footer;
  }

  pub cut-Rep :
      (x y : Block)
      → x.units + 2 + y.units ≡ b.units
      → SameOutside h.memory mem c (b.units + 2)
      → Holds mem c x
      → Holds mem (c + x.units + 2) y
      → Rep (with_memory h mem) (cut s bs c x y)
  cut-Rep x y e same hx hy = record {
    ends = ap (λ n. s + n) (span-cut s bs c b x y found e) ∙ r.ends;
    sized = len ∙ r.sized;
    holds = λ d z f.
        elim (where_found c (c + x.units + 2) d x z (some y) _ (find s bs d)
          (find-cut s bs c b x y found e d) f) [
            | inl (p, v) ↦ Holds-moved mem c d x z p v hx
            | inr (inl (p, v)) ↦ Holds-moved mem (c + x.units + 2) d y z p (ground (arith, v)) hy
            | inr (inr (ne, ne', f')) ↦
                frame_at (b.units + 2) d z same
                  (ground (arith, find-apart s bs c d b z found f' ne)) f'
          ];
  }

  pub join-Rep :
      (b' z : Block)
      → find s bs (c + b.units + 2) ≡ some b'
      → z.units ≡ b.units + b'.units + 2
      → SameOutside h.memory mem c (z.units + 2)
      → Holds mem c z
      → Rep (with_memory h mem) (join s bs c z)
  join-Rep b' z found' e same hz = record {
    ends = ap (λ n. s + n) (span-join s bs c b b' z found found' e) ∙ r.ends;
    sized = len ∙ r.sized;
    holds = λ d x f.
        elim (where_found c (c + b.units + 2) d z x none _ (find s bs d)
          (find-join s bs c b b' z found found' e d) f) [
            | inl (p, v) ↦ Holds-moved mem c d z x p v hz
            | inr (inl (p, v)) ↦ absurd (ground (arith, v))
            | inr (inr (ne, ne', f')) ↦
                frame_at (z.units + 2) d x same
                  (ground (
                    arith,
                    e,
                    find-apart s bs c d b x found f' ne,
                    find-apart s bs (c + b.units + 2) d b' x found' f' ne',
                  ))
                  f'
          ];
  }
