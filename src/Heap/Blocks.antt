-- ===== src/Heap/Blocks.antt =====
-- SP_LAB3/src: the heap as its chunks in the order of their addresses, each with what its header
-- and its footer hold.
pub mod Rep
pub mod Cut
use fall_snu_system_pro.Base.{
  ℕ, suc, ◌+◌, ◌≤◌, ◌<◌, ◌≡◌, ◌≢◌, ◌⊎◌, inl, inr, refl, arith, Bool, true, false, Option, none,
  some, List, [], ◌∷◌, ◌++◌, ◌==◌, if◌then◌else◌, Bool-cases,
}
use fall_snu_system_pro.Heap.Chunk.{Status, chunk_free, chunk_in_use}

-- A chunk: its header holds `next` and `status`, its footer `prev` and a status that nothing reads.
pub record Block : Type 0 where
  pub units : ℕ
  pub status : Status
  pub next : Option ℕ
  pub prev : Option ℕ
  pub unread : Status

-- How many units the chunks take, headers and footers included.
abbrev pub span : List Block → ℕ
span [] = 0
span (b ∷ bs) = b.units + 2 + span bs

-- The chunk at the address `c`, where the first of the chunks is at `s`.
unfoldable pub find : ℕ → List Block → ℕ → Option Block
find s [] c = none
find s (b ∷ bs) c = let rest = find (s + b.units + 2) bs c in if s == c then some b else rest

unfoldable pub update : ℕ → List Block → ℕ → (Block → Block) → List Block
update s [] c f = []
update s (b ∷ bs) c f =
    let rest = update (s + b.units + 2) bs c f in if s == c then f b ∷ bs else b ∷ rest

pub find-in :
    (s : ℕ) (bs : List Block) (c : ℕ) (b : Block)
    → find s bs c ≡ some b
    → (s ≤ c) × (c + b.units + 2 ≤ s + span bs)
unfolding find
find-in s [] c b h = absurd (ground (arith, h))
find-in s (x ∷ bs) c b h = ground (arith, find-in (s + x.units + 2) bs c b)

-- Different chunks do not overlap.
pub find-apart :
    (s : ℕ) (bs : List Block) (c d : ℕ) (b b' : Block)
    → find s bs c ≡ some b
    → find s bs d ≡ some b'
    → c ≢ d
    → (c + b.units + 2 ≤ d) ⊎ (d + b'.units + 2 ≤ c)
unfolding find
find-apart s [] c d b b' h h' ne = absurd (ground (arith, h))
find-apart s (x ∷ bs) c d b b' h h' ne = ground (
  arith,
  find-apart (s + x.units + 2) bs c d b b',
  find-in (s + x.units + 2) bs c b,
  find-in (s + x.units + 2) bs d b',
)

pub find_first : (s : ℕ) (bs : List Block) → find s bs s ≡ none → span bs ≡ 0
unfolding find
find_first s [] h = refl
find_first s (x ∷ bs) h = absurd (ground (arith, h))

-- Where no chunk stands behind a chunk, the heap ends.
pub find_next :
    (s : ℕ) (bs : List Block) (c : ℕ) (b : Block)
    → find s bs c ≡ some b
    → find s bs (c + b.units + 2) ≡ none
    → c + b.units + 2 ≡ s + span bs
unfolding find
find_next s [] c b h e = absurd (ground (arith, h))
find_next s (x ∷ bs) c b h e = ground (
  arith,
  find_next (s + x.units + 2) bs c b,
  find_first (s + x.units + 2) bs,
  find-in (s + x.units + 2) bs c b,
)

-- Before a chunk that is not the first one stands another.
pub find_prev :
    (s : ℕ) (bs : List Block) (c : ℕ) (b : Block)
    → find s bs c ≡ some b
    → s ≢ c
    → (d : ℕ) × (b' : Block) × (find s bs d ≡ some b') × (d + b'.units + 2 ≡ c)
unfolding find
find_prev s [] c b h ne = absurd (ground (arith, h))
find_prev s (x ∷ bs) c b h ne = elim (Bool-cases (s + x.units + 2 == c)) [
  | inl e ↦ (s, x, ground arith, ground arith)
  | inr e ↦
      let (d, b', at_d, ends) = find_prev (s + x.units + 2) bs c b (ground arith) (ground arith) in
      (d, b', ground (arith, at_d, find-in (s + x.units + 2) bs d b'), ends)
]

pub find-update :
    (s : ℕ) (bs : List Block) (c : ℕ) (f : Block → Block)
    → ((b : Block) → (f b).units ≡ b.units)
    → (d : ℕ)
    → find s (update s bs c f) d
      ≡ (if c == d then elim (find s bs d) [ none ↦ none | some b ↦ some (f b) ] else find s bs d)
unfolding find update
find-update s [] c f keep d = ground arith
find-update s (x ∷ bs) c f keep d =
    ground (arith, keep x, find-update (s + x.units + 2) bs c f keep d, find-in s bs c)

pub span-update :
    (s : ℕ) (bs : List Block) (c : ℕ) (f : Block → Block)
    → ((b : Block) → (f b).units ≡ b.units)
    → span (update s bs c f) ≡ span bs
unfolding update
span-update s [] c f keep = refl
span-update s (x ∷ bs) c f keep = ground (arith, keep x, span-update (s + x.units + 2) bs c f keep)
