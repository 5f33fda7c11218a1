-- ===== src/Heap/Blocks/Cut.antt =====
-- SP_LAB3/src: a chunk cut in two, two neighbours joined, and a chunk behind the last one.
use fall_snu_system_pro.Base.{
  ℕ, ◌+◌, ◌<◌, ◌≡◌, inl, inr, refl, arith, none, some, List, [], ◌∷◌, ◌++◌, ◌==◌, if◌then◌else◌, ap,
  Bool-cases,
}
use fall_snu_system_pro.Heap.Blocks.{Block, span, find, find-in}

unfoldable pub cut : ℕ → List Block → ℕ → Block → Block → List Block
cut s [] c x y = []
cut s (b ∷ bs) c x y =
    let rest = cut (s + b.units + 2) bs c x y in if s == c then x ∷ y ∷ bs else b ∷ rest

pub find-cut :
    (s : ℕ) (bs : List Block) (c : ℕ) (b x y : Block)
    → find s bs c ≡ some b
    → x.units + 2 + y.units ≡ b.units
    → (d : ℕ)
    → find s (cut s bs c x y) d
      ≡ (if c == d then some x else if c + x.units + 2 == d then some y else find s bs d)
unfolding find cut
find-cut s [] c b x y h e d = absurd (ground (arith, h))
find-cut s (z ∷ bs) c b x y h e d = elim (Bool-cases (s == c)) [
  | inl p ↦
      let behind : z.units ≡ b.units
          → find (s + x.units + 2 + y.units + 2) bs d ≡ find (s + z.units + 2) bs d =
        λ q. ap (λ k. find k bs d) (omega (arith, q, e)) in
      rw p (ground (arith, h, e, behind))
  | inr p ↦
      let from = s + z.units + 2 in
      let found : find from bs c ≡ some b = ground (arith, h, p) in
      rw p (ground (arith, find-cut from bs c b x y found e d, find-in from bs c b found))
]

pub span-cut :
    (s : ℕ) (bs : List Block) (c : ℕ) (b x y : Block)
    → find s bs c ≡ some b
    → x.units + 2 + y.units ≡ b.units
    → span (cut s bs c x y) ≡ span bs
unfolding find cut
span-cut s [] c b x y h e = refl
span-cut s (z ∷ bs) c b x y h e = ground (arith, h, span-cut (s + z.units + 2) bs c b x y)

find-below : (s : ℕ) (bs : List Block) (d : ℕ) → d < s → find s bs d ≡ none
unfolding find
find-below s [] d h = refl
find-below s (b ∷ bs) d h = ground (arith, find-below (s + b.units + 2) bs d)

abbrev pub rest_of : List Block → List Block
rest_of [] = []
rest_of (b ∷ bs) = bs

-- The chunk at `c` and the one behind it become `z`.
unfoldable pub join : ℕ → List Block → ℕ → Block → List Block
join s [] c z = []
join s (b ∷ bs) c z =
    let rest = join (s + b.units + 2) bs c z in if s == c then z ∷ rest_of bs else b ∷ rest

pub find-join :
    (s : ℕ) (bs : List Block) (c : ℕ) (b b' z : Block)
    → find s bs c ≡ some b
    → find s bs (c + b.units + 2) ≡ some b'
    → z.units ≡ b.units + b'.units + 2
    → (d : ℕ)
    → find s (join s bs c z) d
      ≡ (if c == d then some z else if c + b.units + 2 == d then none else find s bs d)
unfolding find join
find-join s [] c b b' z h h' e d = absurd (ground (arith, h))
find-join s (x ∷ []) c b b' z h h' e d = absurd (ground (arith, h, h'))
find-join s (x ∷ y ∷ bs) c b b' z h h' e d = elim (Bool-cases (s == c)) [
  | inl p ↦
      let bx : x.units ≡ b.units = ground (arith, h, p) in
      let by' : y.units ≡ b'.units = ground (arith, h', p, bx) in
      let behind : find (s + z.units + 2) bs d ≡ find (s + x.units + 2 + y.units + 2) bs d =
        ap (λ k. find k bs d) (omega (arith, bx, by', e)) in
      rw p (ground (arith, p, bx, by', e, behind, find-below (s + x.units + 2 + y.units + 2) bs d))
  | inr p ↦
      let from = s + x.units + 2 in
      let found : find from (y ∷ bs) c ≡ some b = ground (arith, h, p) in
      let found' : find from (y ∷ bs) (c + b.units + 2) ≡ some b' =
        ground (arith, h', find-in from (y ∷ bs) c b found) in
      rw p (
        ground (
          arith,
          find-join from (y ∷ bs) c b b' z found found' e d,
          find-in from (y ∷ bs) c b found,
        ))
]

pub span-join :
    (s : ℕ) (bs : List Block) (c : ℕ) (b b' z : Block)
    → find s bs c ≡ some b
    → find s bs (c + b.units + 2) ≡ some b'
    → z.units ≡ b.units + b'.units + 2
    → span (join s bs c z) ≡ span bs
unfolding find join
span-join s [] c b b' z h h' e = refl
span-join s (x ∷ []) c b b' z h h' e = absurd (ground (arith, h, h'))
span-join s (x ∷ y ∷ bs) c b b' z h h' e = elim (Bool-cases (s == c)) [
  | inl p ↦
      let bx : x.units ≡ b.units = ground (arith, h, p) in
      let by' : y.units ≡ b'.units = ground (arith, h', p, bx) in rw p (omega (arith, bx, by', e))
  | inr p ↦
      let from = s + x.units + 2 in
      let found : find from (y ∷ bs) c ≡ some b = ground (arith, h, p) in
      let found' : find from (y ∷ bs) (c + b.units + 2) ≡ some b' =
        ground (arith, h', find-in from (y ∷ bs) c b found) in
      rw p (ap (λ n. x.units + 2 + n) (span-join from (y ∷ bs) c b b' z found found' e))
]

pub find-append :
    (s : ℕ) (bs : List Block) (x : Block) (d : ℕ)
    → find s (bs ++ x ∷ []) d ≡ (if s + span bs == d then some x else find s bs d)
unfolding find
find-append s [] x d = ground arith
find-append s (b ∷ bs) x d = ground (arith, find-append (s + b.units + 2) bs x d)

pub span-append : (bs : List Block) (x : Block) → span (bs ++ x ∷ []) ≡ span bs + x.units + 2
span-append [] x = omega arith
span-append (b ∷ bs) x = omega (arith, span-append bs x)
