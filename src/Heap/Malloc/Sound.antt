-- ===== src/Heap/Malloc/Sound.antt =====
-- SP_LAB3/src/heapmgr1.c: when the heap is sound, by the sizes and the states of its chunks.
use fall_snu_system_pro.Base.{
  ℕ, ◌+◌, ◌≤◌, ◌<◌, ◌≡◌, ◌≢◌, ◌⊎◌, inl, inr, refl, sym, ap, ◌∙◌, arith, true, false, Option, none,
  some, List, [], ◌∷◌, length, Bool-cases,
}
use fall_snu_system_pro.Heap.Chunk.{Status, chunk_free, chunk_in_use}
use fall_snu_system_pro.Heap.Links.{has, distinct, erase, has-erase, distinct-erase}
use fall_snu_system_pro.Heap.Blocks.{Block, span, find, find-apart}
use fall_snu_system_pro.Heap.Manager.{Heap}
use fall_snu_system_pro.Heap.FreeList.{shape, free_shape, Listed}

abbrev pub size_of : Option (ℕ × Status) → Option ℕ
size_of none = none
size_of (some (n, st)) = some n

-- Exactly the free chunks are listed, no chunk is empty, and no two neighbours are free.
pub record Tidy (g : ℕ → Option (ℕ × Status)) (fs : List ℕ) : Type 0 where
  pub all : (d : ℕ) → free_shape (g d) ≡ true → has d fs ≡ true
  pub positive : (d n : ℕ) → size_of (g d) ≡ some n → 0 < n
  pub coalesced : (d n : ℕ) → g d ≡ some (n, chunk_free) → free_shape (g (d + n + 2)) ≡ false

abbrev pub shapes_of : Heap → List Block → ℕ → Option (ℕ × Status)
shapes_of h bs d = shape (find h.heap_start bs d)

pub record Sound (h : Heap) (bs : List Block) (fs : List ℕ) : Type 0 where
  pub listed : Listed h bs fs
  pub tidy : Tidy (shapes_of h bs) fs

-- The allocated chunks: the units of a chunk in use.
abbrev pub live : Option (ℕ × Status) → Option ℕ
live none = none
live (some (n, chunk_free)) = none
live (some (n, chunk_in_use)) = some n

-- Two tables of chunks that agree are tidy together.
pub Tidy-same :
    (g g' : ℕ → Option (ℕ × Status)) (fs : List ℕ) → ((d : ℕ) → g' d ≡ g d) → Tidy g fs → Tidy g' fs
Tidy-same g g' fs same t = record {
  all = λ d f. t.all d (ap free_shape (sym (same d)) ∙ f);
  positive = λ d n f. t.positive d n (ap size_of (sym (same d)) ∙ f);
  coalesced = λ d n f. ap free_shape (same (d + n + 2)) ∙ t.coalesced d n (sym (same d) ∙ f);
}

pub shape_found :
    (o : Option Block) (n : ℕ) (st : Status)
    → shape o ≡ some (n, st)
    → (b : Block) × (o ≡ some b) × (b.units ≡ n) × (b.status ≡ st)
shape_found none n st e = absurd (ground (arith, e))
shape_found (some b) n st e = (b, refl, ground (arith, e), ground (arith, e))

pub shape-apart :
    (s : ℕ) (bs : List Block) (c d n m : ℕ) (st st' : Status)
    → shape (find s bs c) ≡ some (n, st)
    → shape (find s bs d) ≡ some (m, st')
    → c ≢ d
    → (c + n + 2 ≤ d) ⊎ (d + m + 2 ≤ c)
shape-apart s bs c d n m st st' e e' ne =
    let (b, f, u, t) = shape_found (find s bs c) n st e in
    let (b', f', u', t') = shape_found (find s bs d) m st' e' in
    ground (arith, find-apart s bs c d b b' f f' ne, u, u')

length-erase : (cs : List ℕ) (c : ℕ) → has c cs ≡ true → length cs ≡ length (erase cs c) + 1
length-erase [] c m = absurd (ground arith)
length-erase (x ∷ xs) c m = ground (arith, length-erase xs c)

-- A list of different chunks is no longer than the list of all chunks.
listed_fewer :
    (s : ℕ) (bs : List Block) (fs : List ℕ)
    → distinct fs ≡ true
    → ((d : ℕ) → has d fs ≡ true → free_shape (shape (find s bs d)) ≡ true)
    → length fs ≤ span bs
unfolding find
listed_fewer s [] [] nd there = omega arith
listed_fewer s [] (x ∷ fs) nd there = absurd (ground (arith, there x))
listed_fewer s (b ∷ bs) fs nd there = elim (Bool-cases (has s fs)) [
  | inl m ↦
      let rest =
        listed_fewer (s + b.units + 2) bs (erase fs s) (distinct-erase fs s nd)
          (λ d m'. ground (arith, has-erase fs s d nd, there d)) in
      omega (arith, rest, length-erase fs s m)
  | inr m ↦
      let rest =
        listed_fewer (s + b.units + 2) bs fs nd
          (λ d m'. ground (arith, m, there d, ap (λ q. has q fs) {x = s} {y = d})) in
      omega (arith, rest)
]

pub length-fs :
    (h : Heap) (bs : List Block) (fs : List ℕ) → Listed h bs fs → length fs ≤ length h.memory
length-fs h bs fs l =
    omega (arith, listed_fewer h.heap_start bs fs l.nodup l.free, l.rep.ends, l.rep.sized)
