-- ===== src/Shell/Lexer/Show.antt =====
-- SP_LAB4/lexsyn.c, `lex_line`: reading back a list of tokens that is written with quotes.
use fall_snu_system_pro.Base.{
  ℕ, ◌+◌, ◌≤◌, ◌<◌, Bool, true, false, not, ◌&&◌, ◌||◌, Option, none, some, List, [], ◌∷◌, ◌++◌,
  ◌≡◌, ap, subst, ◌∙◌, arith, ◌==◌, length, length-append, append_assoc, append-nil,
}
use fall_snu_system_pro.Shell.DynArray.Contents.{Represents}
use fall_snu_system_pro.Shell.DynArray.{DynArray}
use fall_snu_system_pro.Shell.Lexer.Loop.{lex_line-Ends}
use fall_snu_system_pro.Shell.Lexer.Start.{pointers, plenty}
use fall_snu_system_pro.Shell.Lexer.Words.{word, sign, operator, words}
use fall_snu_system_pro.Shell.Lexer.{
  lex_success, state_start, state_in_word, state_in_dquote, returns, lex_line, max_line_size,
  ends_line,
}
use fall_snu_system_pro.Shell.Token.{
  TokenType, token_pipe, token_redin, token_redout, token_word, token_bg, Token,
}

-- A text that can stand between double quotes.
abbrev pub quotable : List ℕ → Bool
quotable [] = true
quotable (c ∷ cs) = not (c == b'"' || ends_line c) && quotable cs

abbrev pub operator_char : TokenType → ℕ
operator_char token_pipe = b'|'
operator_char token_redin = b'<'
operator_char token_redout = b'>'
operator_char token_bg = b'&'
operator_char token_word = b'?'

-- A token in a line: a word is quoted and followed by a space.
abbrev pub show_as : TokenType → Option (List ℕ) → List ℕ
show_as token_word (some w) = b'"' ∷ (w ++ b'"' ∷ b' ' ∷ [])
show_as t _ = operator_char t ∷ []

-- The tokens that `lex_line` makes of such a text.
abbrev pub showable_as : TokenType → Option (List ℕ) → Bool
showable_as token_word (some w) = quotable w
showable_as token_word none = false
showable_as t none = true
showable_as t (some w) = false

abbrev pub shows : List Token → List ℕ
shows [] = []
shows (t ∷ ts) = show_as t.token_type t.token_value ++ shows ts

abbrev pub showable : List Token → Bool
showable [] = true
showable (t ∷ ts) = showable_as t.token_type t.token_value && showable ts

words-quoted :
    (i : ℕ) (w rest u : List ℕ) (out : List Token)
    → quotable w ≡ true
    → i + length w < max_line_size
    → words i (w ++ b'"' ∷ rest) state_in_dquote u out
      ≡ words (i + length w + 1) rest state_in_word (u ++ w) out
unfolding words
words-quoted i [] rest u out q h = ground (arith, append-nil u)
words-quoted i (c ∷ cs) rest u out q h =
    ground (arith, words-quoted (i + 1) cs rest (u ++ c ∷ []) out, append_assoc u (c ∷ []) cs)

words-space :
    (i : ℕ) (rest w : List ℕ) (out : List Token)
    → i < max_line_size
    → words i (b' ' ∷ rest) state_in_word w out
      ≡ words (i + 1) rest state_start [] (out ++ word w ∷ [])
unfolding words
words-space i rest w out h = ground arith

words-word :
    (i : ℕ) (w rest : List ℕ) (out : List Token)
    → quotable w ≡ true
    → i + length w + 3 ≤ max_line_size
    → words i (b'"' ∷ (w ++ b'"' ∷ b' ' ∷ rest)) state_start [] out
      ≡ words (i + length w + 3) rest state_start [] (out ++ word w ∷ [])
unfolding words operator
words-word i w rest out q h = ground (
  arith,
  words-quoted (i + 1) w (b' ' ∷ rest) [] out,
  words-space (i + 1 + length w + 1) rest w out,
)

words-sign :
    (i : ℕ) (t : TokenType) (rest : List ℕ) (out : List Token)
    → showable_as t none ≡ true
    → i < max_line_size
    → words i (operator_char t ∷ rest) state_start [] out
      ≡ words (i + 1) rest state_start [] (out ++ sign t ∷ [])
unfolding words operator
words-sign i token_pipe rest out s h = ground arith
words-sign i _ rest out s h = ground arith

words-show_as :
    (i : ℕ) (t : TokenType) (v : Option (List ℕ)) (rest : List ℕ) (out : List Token)
    → showable_as t v ≡ true
    → i + length (show_as t v) ≤ max_line_size
    → words i (show_as t v ++ rest) state_start [] out
      ≡ words
          (i + length (show_as t v))
          rest
          state_start
          []
          (out ++ record { token_type = t; token_value = v } ∷ [])
words-show_as i token_word (some w) rest out s h =
    ap (λ text. words i (b'"' ∷ text) state_start [] out) (append_assoc w (b'"' ∷ b' ' ∷ []) rest)
    ∙ words-word i w rest out s (omega (arith, length-append w (b'"' ∷ b' ' ∷ [])))
    ∙ ap (λ k. words k rest state_start [] (out ++ word w ∷ []))
        (omega (arith, length-append w (b'"' ∷ b' ' ∷ [])))
words-show_as i token_word none rest out s h = cc
words-show_as i t none rest out s h = words-sign i t rest out s (omega arith)
words-show_as i t (some w) rest out s h = cc

words-shows :
    (i : ℕ) (ts : List Token) (out : List Token)
    → showable ts ≡ true
    → i + length (shows ts) < max_line_size
    → words i (shows ts) state_start [] out ≡ (lex_success, out ++ ts)
unfolding words
words-shows i [] out s h = ground (arith, append-nil out)
words-shows i (t ∷ ts) out s h =
    let here = show_as t.token_type t.token_value in
    let split = length-append here (shows ts) in
    words-show_as i t.token_type t.token_value (shows ts) out (ground arith) (omega arith)
    ∙ words-shows (i + length here) ts (out ++ t ∷ []) (ground arith) (omega arith)
    ∙ ap (λ x. (lex_success, x)) (append_assoc out (t ∷ []) ts)

-- A list of tokens that is written with each word in double quotes is read back as it is: for
-- words without double quotes, newlines and NULs, lines shorter than the limit, and an empty
-- array.
pub lex_line-shows :
    (junk : List ℕ) (ts : List Token) (tokens : DynArray Token)
    → length junk ≡ max_line_size
    → Represents tokens []
    → showable ts ≡ true
    → length (shows ts) < max_line_size
    → (d : DynArray Token) × (lex_line plenty junk (shows ts) tokens ≡ returns lex_success d)
      × Represents d (pointers ts)
lex_line-shows junk ts tokens sized empty s h =
    let (r, d, e, e', listed) = lex_line-Ends junk (shows ts) tokens [] sized empty (omega arith) in
    let read = words-shows 0 ts [] s (omega arith) in
    (
      d,
      e ∙ ap (λ x. returns x d) (e' ∙ ap (λ p. p.0) read),
      subst (λ p. Represents d (pointers p.1)) read listed,
    )
