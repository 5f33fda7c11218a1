-- ===== src/Heap/Links.antt =====
-- SP_LAB3/src/heapmgr1.c: the list of free chunks, by the functions from a chunk to the next one
-- and to the previous one.
pub mod Change
pub mod After
use fall_snu_system_pro.Base.{
  ℕ, ◌≡◌, ◌≢◌, ◌⊎◌, inl, inr, refl, sym, ap, ◌∙◌, arith, Bool, true, false, not, ◌&&◌, ◌||◌, Option,
  none, some, List, [], ◌∷◌, ◌==◌, if◌then◌else◌, Bool-cases, subst,
}

abbrev pub has : ℕ → List ℕ → Bool
has d [] = false
has d (c ∷ cs) = (c == d) || has d cs

abbrev pub distinct : List ℕ → Bool
distinct [] = true
distinct (c ∷ cs) = not (has c cs) && distinct cs

abbrev pub points : Option ℕ → ℕ → Bool
points none d = false
points (some c) d = c == d

abbrev pub points_in : Option ℕ → List ℕ → Bool
points_in none cs = false
points_in (some c) cs = has c cs

abbrev pub erase : List ℕ → ℕ → List ℕ
erase [] c = []
erase (x ∷ xs) c = let rest = erase xs c in if x == c then xs else x ∷ rest

-- From `h` on, the chunks `cs` are linked in both directions; the first one's `prev` is `p`.
abbrev pub Linked : (ℕ → Option ℕ) → (ℕ → Option ℕ) → Option ℕ → Option ℕ → List ℕ → Type 0
Linked next prev p h [] = h ≡ none
Linked next prev p h (c ∷ cs) = (h ≡ some c) × (prev c ≡ p) × Linked next prev (some c) (next c) cs

pub has-erase :
    (cs : List ℕ) (c d : ℕ) → distinct cs ≡ true → has d (erase cs c) ≡ (has d cs && not (c == d))
has-erase [] c d h = refl
has-erase (x ∷ xs) c d h = ground (arith, has-erase xs c d, ap (λ y. has y xs) {x = d} {y = x})

pub distinct-erase : (cs : List ℕ) (c : ℕ) → distinct cs ≡ true → distinct (erase cs c) ≡ true
distinct-erase [] c h = refl
distinct-erase (x ∷ xs) c h = ground (arith, distinct-erase xs c, has-erase xs c x)

module _ (next prev : ℕ → Option ℕ) where
  -- The pointer to the first one, and the next one's pointers, lead into the list.
  pub head-in :
      (p h : Option ℕ) (cs : List ℕ) (y : ℕ)
      → Linked next prev p h cs
      → h ≡ some y
      → has y cs ≡ true
  head-in p h [] y l e = absurd (ground (arith, e, l))
  head-in p h (c ∷ cs) y l e = ground arith

  pub prev-head :
      (p h : Option ℕ) (cs : List ℕ) (y : ℕ) → Linked next prev p h cs → h ≡ some y → prev y ≡ p
  prev-head p h [] y l e = absurd (ground (arith, e, l))
  prev-head p h (c ∷ cs) y l e = ground (arith, ap prev {x = c} {y = y})

  pub next-in :
      (p h : Option ℕ) (cs : List ℕ) (c y : ℕ)
      → Linked next prev p h cs
      → has c cs ≡ true
      → next c ≡ some y
      → has y cs ≡ true
  next-in p h [] c y l m e = absurd (ground arith)
  next-in p h (x ∷ xs) c y l m e = ground (
    arith,
    next-in (some x) (next x) xs c y l.2,
    head-in (some x) (next x) xs y l.2,
    ap next {x = x} {y = c},
  )

  -- The first one's `prev` is `p`, and every other's is in the list.
  pub prev-in :
      (p h : Option ℕ) (cs : List ℕ) (c : ℕ)
      → Linked next prev p h cs
      → has c cs ≡ true
      → ((h ≡ some c) × (prev c ≡ p)) ⊎ (points_in (prev c) cs ≡ true)
  prev-in p h [] c l m = absurd (ground arith)
  prev-in p h (x ∷ xs) c l m =
      ground (arith, prev-in (some x) (next x) xs c l.2, ap prev {x = x} {y = c})

  pub frame :
      (next' prev' : ℕ → Option ℕ) (p h : Option ℕ) (cs : List ℕ)
      → Linked next prev p h cs
      → ((d : ℕ) → has d cs ≡ true → (next' d ≡ next d) × (prev' d ≡ prev d))
      → Linked next' prev' p h cs
  frame next' prev' p h [] l same = l
  frame next' prev' p h (c ∷ cs) l same =
      let here = same c (ground arith) in
      (
        l.0,
        here.1 ∙ l.1,
        subst (λ n. Linked next' prev' (some c) n cs) (sym here.0)
            (frame next' prev' (some c) (next c) cs l.2 (λ d m. same d (ground arith))),
      )
