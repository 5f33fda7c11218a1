-- ===== src/Shell/Lexer/Start.antt =====
-- SP_LAB4/lexsyn.c, `lex_line`: the pieces of a step that use the array or test for operators.
use fall_snu_system_pro.Base.{
  ℕ, suc, ◌^◌, ◌<◌, true, Option, none, some, List, [], ◌∷◌, ◌++◌, ◌≡◌, refl, ap, arith, ◌==◌,
  if◌then◌else◌, length,
}
use fall_snu_system_pro.Shell.DynArray.Contents.{Represents, dynarray_add-Represents}
use fall_snu_system_pro.Shell.DynArray.{DynArray}
use fall_snu_system_pro.Shell.Lexer.Words.{operator}
use fall_snu_system_pro.Shell.Lexer.{LexState, Lex, Flow, more, add_token, put_char, ◌>>=◌, goto}
use fall_snu_system_pro.Shell.Token.{
  TokenType, token_pipe, token_redin, token_redout, token_bg, Token, Memory, make_one_token,
}

abbrev pub pointers : List Token → List (Option Token)
pointers [] = []
pointers (t ∷ ts) = some t ∷ pointers ts

pub pointers-append : (xs ys : List Token) → pointers (xs ++ ys) ≡ pointers xs ++ pointers ys
pointers-append [] ys = refl
pointers-append (x ∷ xs) ys = ap (◌∷◌ (some x)) (pointers-append xs ys)

pub length-pointers : (xs : List Token) → length (pointers xs) ≡ length xs
length-pointers [] = refl
length-pointers (x ∷ xs) = ap suc (length-pointers xs)

-- Every allocation succeeds.
abbrev pub plenty : ℕ → Memory
plenty n = record { token_ok = true; value_ok = true; array_ok = true }

pub add_token-more :
    (l : Lex) (out : List Token) (type : TokenType) (value : Option (List ℕ))
    → Represents l.tokens (pointers out)
    → length (pointers out) < 2 ^ 30
    → (d : DynArray Token) × (add_token plenty type value l ≡ more (record l { tokens = d }))
      × Represents d (pointers (out ++ record { token_type = type; token_value = value } ∷ []))
unfolding add_token make_one_token
add_token-more l out type none r h =
    let t : Token = record { token_type = type; token_value = none } in
    let (d, e, r') = dynarray_add-Represents l.tokens (pointers out) (some t) r (omega arith) in
    (d, ground arith, rw (pointers-append out (t ∷ [])) r')
add_token-more l out type (some v) r h =
    let t : Token = record { token_type = type; token_value = some v } in
    let (d, e, r') = dynarray_add-Represents l.tokens (pointers out) (some t) r (omega arith) in
    (d, ground arith, rw (pointers-append out (t ∷ [])) r')

-- The two ladders of tests for operators.
pub start-operator :
    (c : ℕ) (f : TokenType → Flow) (g : Flow)
    → (if c == b'|'
        then f token_pipe
        else if c == b'&'
        then f token_bg
        else if c == b'>'
        then f token_redout
        else if c == b'<'
        then f token_redin
        else g)
      ≡ elim (operator c) [ some t ↦ f t | none ↦ g ]
unfolding operator
start-operator c f g = ground arith

pub in_word-operator :
    (c : ℕ) (f : TokenType → Flow) (g : Flow)
    → (if c == b'|'
        then f token_pipe
        else if c == b'>'
        then f token_redout
        else if c == b'<'
        then f token_redin
        else if c == b'&'
        then f token_bg
        else g)
      ≡ elim (operator c) [ some t ↦ f t | none ↦ g ]
unfolding operator
in_word-operator c f g = ground arith

pub stay : (c : ℕ) (l : Lex) (s : LexState) → l.state ≡ s → (put_char c l >>= goto s) ≡ put_char c l
unfolding put_char
stay c l s h = ground arith
