-- ===== src/Shell/Lexer/Buffer.antt =====
-- SP_LAB4/lexsyn.c: the character buffer `c_value` of `lex_line`, and C strings in it.
use fall_snu_system_pro.Base.{
  ℕ, zero, suc, ◌<◌, false, Option, none, some, List, [], ◌∷◌, ◌++◌, ◌≡◌, refl, arith, ◌==◌,
  if◌then◌else◌, length,
}

-- A write to an array: `none` is a write out of bounds.
unfoldable pub store : List ℕ → ℕ → ℕ → Option (List ℕ)
store [] i c = none
store (x ∷ xs) zero c = some (c ∷ xs)
store (x ∷ xs) (suc i) c = elim (store xs i c) [ none ↦ none | some ys ↦ some (x ∷ ys) ]

-- The characters before the first NUL, which is what `strlen` and `strcpy` read.
unfoldable pub c_string : List ℕ → List ℕ
c_string [] = []
c_string (c ∷ cs) = if c == 0 then [] else c ∷ c_string cs

-- The first characters of the buffer are the word `w`, which has no NUL.
abbrev pub Holds : List ℕ → List ℕ → Type 0
Holds [] buffer = Unit
Holds (c ∷ w) [] = ⊥
Holds (c ∷ w) (b ∷ buffer) = (b ≡ c) × (c == 0 ≡ false) × Holds w buffer

-- A character behind the word makes the word longer, within the bounds.
pub store-Holds :
    (w buffer : List ℕ) (c : ℕ)
    → Holds w buffer
    → length w < length buffer
    → (c == 0) ≡ false
    → (b : List ℕ) × (store buffer (length w) c ≡ some b)
      × Holds (w ++ c ∷ []) b
      × (length b ≡ length buffer)
unfolding store
store-Holds [] [] c h lt nz = elim lt [ ]
store-Holds [] (x ∷ xs) c h lt nz = (c ∷ xs, refl, (refl, nz, tt), refl)
store-Holds (d ∷ w) [] c h lt nz = elim lt [ ]
store-Holds (d ∷ w) (x ∷ xs) c h lt nz =
    let (b, e, k, n) = store-Holds w xs c h.2 (omega arith) nz in
    (x ∷ b, rw e, (h.0, h.1, k), omega arith)

-- A NUL behind the word makes the word the string in the buffer.
pub store-c_string :
    (w buffer : List ℕ)
    → Holds w buffer
    → length w < length buffer
    → (b : List ℕ) × (store buffer (length w) 0 ≡ some b)
      × (c_string b ≡ w)
      × (length b ≡ length buffer)
unfolding store c_string
store-c_string [] [] h lt = elim lt [ ]
store-c_string [] (x ∷ xs) h lt = (0 ∷ xs, refl, refl, refl)
store-c_string (d ∷ w) [] h lt = elim lt [ ]
store-c_string (d ∷ w) (x ∷ xs) h lt =
    let (b, e, k, n) = store-c_string w xs h.2 (omega arith) in
    (x ∷ b, rw e, ground arith, omega arith)
