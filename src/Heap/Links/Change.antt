-- ===== src/Heap/Links/Change.antt =====
-- SP_LAB3/src/heapmgr1.c: the list of free chunks with a chunk put in front, and with one taken out.
use fall_snu_system_pro.Base.{
  ℕ, ◌≡◌, inl, inr, refl, sym, arith, true, false, Option, none, some, List, [], ◌∷◌, ◌==◌,
  if◌then◌else◌, Bool-cases, subst,
}
use fall_snu_system_pro.Heap.Links.{
  has, distinct, points, points_in, erase, Linked, next-in, prev-in, prev-head, frame,
}

module _ (next prev next' prev' : ℕ → Option ℕ) (c : ℕ) where
  -- The chunk `c` in front.
  pub Linked-cons :
      (h : Option ℕ) (cs : List ℕ)
      → Linked next prev none h cs
      → distinct cs ≡ true
      → has c cs ≡ false
      → ((d : ℕ) → next' d ≡ (if c == d then h else next d))
      → ((d : ℕ) → prev' d ≡ (if points h d then some c else if c == d then none else prev d))
      → Linked next' prev' none (some c) (c ∷ cs)
  Linked-cons h [] l nd out n p = ground (arith, n c, p c)
  Linked-cons h (q ∷ qs) l nd out n p =
      let here : next' c ≡ some q = ground (arith, n c) in
      let first : prev' q ≡ some c = ground (arith, p q) in
      let after : next' q ≡ next q = ground (arith, n q) in
      let own : prev' c ≡ none = ground (arith, p c) in
      let rest : Linked next' prev' (some q) (next q) qs =
        frame next prev next' prev' (some q) (next q) qs l.2
          (λ d m. (ground (arith, n d), ground (arith, p d))) in
      (
        refl,
        own,
        subst (λ x. Linked next' prev' (some c) x (q ∷ qs)) (sym here)
            (refl, first, subst (λ x. Linked next' prev' (some q) x qs) (sym after) rest),
      )

  module _
      (n : (d : ℕ)
        → next' d ≡ (if c == d then none else if points (prev c) d then next c else next d))
      (p : (d : ℕ)
        → prev' d ≡ (if c == d then none else if points (next c) d then prev c else prev d)) where
    -- The chunks behind `c`, with its predecessor linked to them.
    Linked-behind :
        (q : Option ℕ) (cs : List ℕ)
        → Linked next prev (some c) (next c) cs
        → prev c ≡ q
        → distinct (c ∷ cs) ≡ true
        → points_in q cs ≡ false
        → Linked next' prev' q (next c) cs
    Linked-behind q [] l e nd out = l
    Linked-behind q (y ∷ ys) l e nd out =
        let after : next' y ≡ next y = ground (arith, n y) in
        let rest : Linked next' prev' (some y) (next y) ys =
          frame next prev next' prev' (some y) (next y) ys l.2
            (λ d m. (ground (arith, n d), ground (arith, p d))) in
        (
          l.0,
          ground (arith, p y, e),
          subst (λ x. Linked next' prev' (some y) x ys) (sym after) rest,
        )

    -- The chunk `c` taken out.
    pub Linked-erase :
        (q h : Option ℕ) (cs : List ℕ)
        → Linked next prev q h cs
        → distinct cs ≡ true
        → has c cs ≡ true
        → points_in q cs ≡ false
        → Linked next' prev' q (if points h c then next c else h) (erase cs c)
    Linked-erase q h [] l nd m out = absurd (ground arith)
    Linked-erase q h (x ∷ xs) l nd m out = elim (Bool-cases (x == c)) [
      | inl same ↦
          let eq : x ≡ c = ground arith in
          let first : points h c ≡ true = ground arith in
          let behind : Linked next prev (some c) (next c) xs =
            subst (λ y. Linked next prev (some y) (next y) xs) eq l.2 in
          let apart : distinct (c ∷ xs) ≡ true = subst (λ y. distinct (y ∷ xs) ≡ true) eq nd in
          rw (same, first)
            (Linked-behind q xs behind (subst (λ y. prev y ≡ q) eq l.1) apart (ground arith))
      | inr other ↦
          let first : points h c ≡ false = ground arith in
          let inside : has c xs ≡ true = ground arith in
          let rest = Linked-erase (some x) (next x) xs l.2 (ground arith) inside (ground arith) in
          let own : prev' x ≡ q =
            ground (arith, p x, next-in next prev (some x) (next x) xs c x l.2 inside) in
          let joined : (if points (next x) c then next c else next x) ≡ next' x = ground (
            arith,
            n x,
            prev-in next prev (some x) (next x) xs c l.2 inside,
            prev-head next prev (some x) (next x) xs c l.2,
          ) in
          rw (other, first)
            (l.0, own, subst (λ y. Linked next' prev' (some x) y (erase xs c)) joined rest)
    ]
