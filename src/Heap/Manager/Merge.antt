-- ===== src/Heap/Manager/Merge.antt =====
-- SP_LAB3/src/heapmgr1.c: the units of a request, and the chunk that a merge makes.
use fall_snu_system_pro.Base.{
  ℕ, ◌+◌, ◌*◌, ◌^◌, ◌≤◌, ◌<◌, ◌≡◌, refl, ap, ◌∙◌, arith, ◌||◌, Option, none, some, List, ◌==◌,
  if◌then◌else◌, get_elem?, set, get_elem?-set, Option-cases, inl, inr,
}
use fall_snu_system_pro.Heap.Chunk.{
  Chunk, chunk_in_use, read_field, chunk_get_status, chunk_get_units, chunk_set_units,
  chunk_footer_get_units, chunk_footer_set_units, chunk_footer_set_prev_free_chunk,
  chunk_get_next_adjacent, chunk_get_footer_from_header,
}
use fall_snu_system_pro.Heap.Chunk.Adjacent.{IsChunk}
use fall_snu_system_pro.Heap.Manager.{Heap, size_to_units, merge_chunk}

-- The units for a request hold its bytes, and one unit less would not; for requests whose
-- rounding up does not wrap around.
pub size_to_units-least :
    (size : ℕ)
    → size + 15 < 2 ^ 64
    → (size ≤ 16 * size_to_units size) × (16 * size_to_units size < size + 16)
unfolding size_to_units
size_to_units-least size h = (omega arith, omega arith)

-- The unit behind a field that was read.
read_field-in {ℓ} :
    {A : Type ℓ} (f : Chunk → A) (mem : List Chunk) (c : ℕ) (a : A)
    → read_field f mem c ≡ some a
    → (u : Chunk) × (get_elem? mem c ≡ some u)
read_field-in f mem c a h = elim (Option-cases (get_elem? mem c)) [
  | inl e ↦ absurd (ground (arith, h, e))
  | inr r ↦ r
]

-- A merge made one chunk of two, and changed two units of the memory.
pub record Merged (h : Heap) (c n k : ℕ) (run : Option (ℕ × Heap)) : Type 0 where
  pub heap : Heap
  pub merges : run ≡ some (c, heap)
  pub whole : IsChunk heap.memory h.heap_start h.heap_end c (n + k + 2)
  pub others :
      (p : ℕ)
      → get_elem? heap.memory p
        ≡ (if p == c || p == c + n + k + 3 then get_elem? heap.memory p else get_elem? h.memory p)
  pub same_ends : (heap.heap_start ≡ h.heap_start) × (heap.heap_end ≡ h.heap_end)
  pub same_list : heap.free_head ≡ h.free_head

-- Merging two neighbouring chunks in use, whose units and two more are an int (less than 2 ^ 31),
-- succeeds and returns the first, which then is one chunk that spans both; of the memory it
-- changes that chunk's header and footer alone, and of the manager nothing else.
pub merge_chunk-Merged :
    (h : Heap) (c n k : ℕ)
    → IsChunk h.memory h.heap_start h.heap_end c n
    → IsChunk h.memory h.heap_start h.heap_end (c + n + 2) k
    → chunk_get_status h.memory c ≡ some chunk_in_use
    → chunk_get_status h.memory (c + n + 2) ≡ some chunk_in_use
    → n + k + 2 < 2 ^ 31
    → Merged h c n k (merge_chunk h c (c + n + 2))
unfolding merge_chunk chunk_get_next_adjacent chunk_get_status chunk_get_units chunk_set_units
    chunk_footer_get_units chunk_footer_set_units chunk_footer_set_prev_free_chunk
    chunk_get_footer_from_header
merge_chunk-Merged h c n k a b s1 s2 small =
    let e = c + n + k + 3 in
    let (u, at_c) = read_field-in (λ x. x.units) h.memory c n a.header in
    let (f, at_e) = read_field-in (λ x. x.units) h.memory (c + n + 2 + k + 1) k b.footer in
    let at_e' : get_elem? h.memory e ≡ some f = ap (get_elem? h.memory) (omega arith) ∙ at_e in
    let u' : Chunk = record u { units = n + k + 2 } in
    let f' : Chunk = record f { units = n + k + 2 } in
    let f'' : Chunk = record f' { link = none } in
    let m1 = set h.memory c u' in
    let m2 = set m1 e f' in
    let m3 = set m2 e f'' in
    let here1 = λ (p : ℕ). get_elem?-set h.memory c p u u' at_c in
    let at_e1 : get_elem? m1 e ≡ some f = ground (arith, here1 e, at_e') in
    let here2 = λ (p : ℕ). get_elem?-set m1 e p f f' at_e1 in
    let at_e2 : get_elem? m2 e ≡ some f' = ground (arith, here2 e) in
    let here3 = λ (p : ℕ). get_elem?-set m2 e p f' f'' at_e2 in
    let end_eq : c + (n + k + 2) + 1 ≡ e = omega arith in
    record {
      heap = record h { memory = m3 };
      merges = ground (
        arith,
        at_c,
        at_e',
        at_e1,
        at_e2,
        here1 c,
        s1,
        s2,
        a.header,
        b.header,
        a.lower,
        a.upper,
        b.upper,
        end_eq,
        small,
      );
      whole = record {
        header = ground (arith, here1 c, here2 c, here3 c);
        footer = ap (read_field (λ x. x.units) m3) end_eq ∙ ground (arith, here3 e);
        lower = a.lower;
        upper = omega (arith, b.upper);
      };
      others = λ p. ground (arith, here1 p, here2 p, here3 p);
      same_ends = (refl, refl);
      same_list = refl;
    }
