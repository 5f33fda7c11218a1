-- ===== src/Shell/Lexer/Words.antt =====
-- SP_LAB4/lexsyn.c, `lex_line`, on lists: the same automaton over a growing word and a list of
-- tokens, with no buffer, no memory and no array.
use fall_snu_system_pro.Base.{ℕ, ◌+◌, Option, none, some, List, [], ◌∷◌, ◌++◌, ◌==◌, if◌then◌else◌}
use fall_snu_system_pro.Shell.Lexer.{
  LexResult, lex_success, lex_qerror, lex_long, LexState, state_start, state_in_word,
  state_in_dquote, state_in_quote, isspace, ends_line, max_line_size,
}
use fall_snu_system_pro.Shell.Token.{
  TokenType, token_pipe, token_redin, token_redout, token_word, token_bg, Token,
}

abbrev pub word : List ℕ → Token
word w = record { token_type = token_word; token_value = some w }

abbrev pub sign : TokenType → Token
sign t = record { token_type = t; token_value = none }

-- The characters that are tokens by themselves.
unfoldable pub operator : ℕ → Option TokenType
operator c =
    if c == b'|'
    then some token_pipe
    else if c == b'<'
    then some token_redin
    else if c == b'>'
    then some token_redout
    else if c == b'&'
    then some token_bg
    else none

-- What one character does to the state, the word and the tokens.
pub data Next : Type 0 where
  go : LexState → List ℕ → List Token → Next
  stop : LexResult → List Token → Next

unfoldable pub next_start : List ℕ → List Token → ℕ → Next
next_start w out c =
    if ends_line c
    then stop lex_success out
    else if isspace c
    then go state_start w out
    else elim (operator c) [
      | some t ↦ go state_start w (out ++ sign t ∷ [])
      | none ↦
          if c == b'"'
          then go state_in_dquote w out
          else if c == b'\''
          then go state_in_quote w out
          else go state_in_word (w ++ c ∷ []) out
    ]

unfoldable pub next_in_word : List ℕ → List Token → ℕ → Next
next_in_word w out c =
    if ends_line c
    then stop lex_success (out ++ word w ∷ [])
    else if isspace c
    then go state_start [] (out ++ word w ∷ [])
    else elim (operator c) [
      | some t ↦ go state_start [] ((out ++ word w ∷ []) ++ sign t ∷ [])
      | none ↦
          if c == b'"'
          then go state_in_dquote w out
          else if c == b'\''
          then go state_in_quote w out
          else go state_in_word (w ++ c ∷ []) out
    ]

unfoldable pub next_in_quotes : ℕ → LexState → List ℕ → List Token → ℕ → Next
next_in_quotes quote s w out c =
    if c == quote
    then go state_in_word w out
    else if ends_line c
    then stop lex_qerror out
    else go s (w ++ c ∷ []) out

unfoldable pub next : LexState → List ℕ → List Token → ℕ → Next
unfolding next_start next_in_word next_in_quotes
next state_start = next_start
next state_in_word = next_in_word
next state_in_dquote = next_in_quotes b'"' state_in_dquote
next state_in_quote = next_in_quotes b'\'' state_in_quote

-- The rest of the line, after `index` characters.
unfoldable pub words : ℕ → List ℕ → LexState → List ℕ → List Token → LexResult × List Token
unfolding next
words index [] s w out =
    if index == max_line_size
    then (lex_long, out)
    else elim (next s w out 0) [ stop r ts ↦ (r, ts) | go s' w' ts ↦ (lex_long, ts) ]
words index (c ∷ cs) s w out =
    if index == max_line_size
    then (lex_long, out)
    else elim (next s w out c) [ stop r ts ↦ (r, ts) | go s' w' ts ↦ words (index + 1) cs s' w' ts ]
