-- ===== src/Heap/Links/After.antt =====
-- SP_LAB3/src/heapmgr1.c: the list of free chunks with a chunk put behind another one.
use fall_snu_system_pro.Base.{
  ℕ, ◌≡◌, inl, inr, refl, sym, ap, arith, true, false, ◌&&◌, ◌||◌, Option, some, List, [], ◌∷◌,
  ◌==◌, if◌then◌else◌, Bool-cases, subst,
}
use fall_snu_system_pro.Heap.Links.{has, distinct, points, Linked, head-in, next-in, frame}

abbrev pub put_after : List ℕ → ℕ → ℕ → List ℕ
put_after [] c e = []
put_after (x ∷ xs) c e = let rest = put_after xs c e in if x == c then x ∷ e ∷ xs else x ∷ rest

pub has-put_after :
    (cs : List ℕ) (c e d : ℕ) → has d (put_after cs c e) ≡ (has d cs || ((e == d) && has c cs))
has-put_after [] c e d = ground arith
has-put_after (x ∷ xs) c e d = ground (arith, has-put_after xs c e d)

pub distinct-put_after :
    (cs : List ℕ) (c e : ℕ)
    → distinct cs ≡ true
    → has e cs ≡ false
    → distinct (put_after cs c e) ≡ true
distinct-put_after [] c e h out = refl
distinct-put_after (x ∷ xs) c e h out =
    ground (arith, distinct-put_after xs c e, has-put_after xs c e x)

module _ (next prev next' prev' : ℕ → Option ℕ) (c e : ℕ)
    (n : (d : ℕ) → next' d ≡ (if c == d then some e else if e == d then next c else next d))
    (p : (d : ℕ)
      → prev' d ≡ (if e == d then some c else if points (next c) d then some e else prev d)) where
  -- The chunks behind the new one.
  Linked-after :
      (cs : List ℕ)
      → Linked next prev (some c) (next c) cs
      → distinct (c ∷ cs) ≡ true
      → has e cs ≡ false
      → Linked next' prev' (some e) (next c) cs
  Linked-after [] l nd out = l
  Linked-after (y ∷ ys) l nd out =
      let after : next' y ≡ next y = ground (arith, n y) in
      let rest : Linked next' prev' (some y) (next y) ys =
        frame next prev next' prev' (some y) (next y) ys l.2
          (λ d m. (ground (arith, n d), ground (arith, p d))) in
      (l.0, ground (arith, p y), subst (λ x. Linked next' prev' (some y) x ys) (sym after) rest)

  pub Linked-put_after :
      (q h : Option ℕ) (cs : List ℕ)
      → Linked next prev q h cs
      → distinct cs ≡ true
      → has e cs ≡ false
      → has c cs ≡ true
      → Linked next' prev' q h (put_after cs c e)
  Linked-put_after q h [] l nd out m = absurd (ground arith)
  Linked-put_after q h (x ∷ xs) l nd out m = elim (Bool-cases (x == c)) [
    | inl same ↦
        let eq : x ≡ c = ground arith in
        let behind : Linked next prev (some c) (next c) xs =
          subst (λ y. Linked next prev (some y) (next y) xs) eq l.2 in
        let apart : distinct (c ∷ xs) ≡ true = subst (λ y. distinct (y ∷ xs) ≡ true) eq nd in
        let own : prev' x ≡ q = ground (
          arith,
          p x,
          ap next eq,
          next-in next prev q h (x ∷ xs) x x l,
          head-in next prev (some c) (next c) xs c behind,
        ) in
        let step : next' x ≡ some e = ground (arith, n x) in
        let step' : next' e ≡ next c = ground (arith, n e) in
        rw same (
          l.0,
          own,
          subst (λ y. Linked next' prev' (some x) y (e ∷ xs)) (sym step)
              (
                refl,
                ground (arith, p e),
                subst (λ y. Linked next' prev' (some e) y xs) (sym step')
                    (Linked-after xs behind apart (ground arith)),
              ),
        )
    | inr other ↦
        let inside : has c xs ≡ true = ground arith in
        let own : prev' x ≡ q =
          ground (arith, p x, next-in next prev (some x) (next x) xs c x l.2 inside) in
        let step : next' x ≡ next x = ground (arith, n x) in
        rw other (
          l.0,
          own,
          subst (λ y. Linked next' prev' (some x) y (put_after xs c e)) (sym step)
              (Linked-put_after (some x) (next x) xs l.2 (ground arith) (ground arith) inside),
        )
  ]
