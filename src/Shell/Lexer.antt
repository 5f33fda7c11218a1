-- ===== src/Shell/Lexer.antt =====
-- SP_LAB4/lexsyn.c, `lex_line`: from a line to tokens, one character at a time. The line is the
-- list of its characters before the NUL.
pub mod Buffer
pub mod Words
pub mod Start
pub mod Moves
pub mod Refines
pub mod Loop
pub mod Show
pub mod Long
use fall_snu_system_pro.Base.{
  ℕ, zero, suc, ◌+◌, ◌<◌, Bool, true, false, ◌&&◌, ◌||◌, Option, none, some, List, [], ◌∷◌, ◌==◌,
  leb, if◌then◌else◌, length,
}
use fall_snu_system_pro.Shell.DynArray.{DynArray, dynarray_add}
use fall_snu_system_pro.Shell.Lexer.Buffer.{store, c_string}
use fall_snu_system_pro.Shell.Token.{
  TokenType, token_pipe, token_redin, token_redout, token_word, token_bg, Token, Memory,
  make_one_token,
}

abbrev pub max_line_size : ℕ
max_line_size = 1024

-- `enum LexResult`
pub data LexResult : Type 0 where
  lex_success lex_qerror lex_nomem lex_long : LexResult

-- `enum LexState`
pub data LexState : Type 0 where
  state_start state_in_word state_in_dquote state_in_quote : LexState

-- The locals of `lex_line`, and the array that it fills.
pub record Lex : Type 0 where
  pub state : LexState
  pub command_line_index : ℕ
  pub value_index : ℕ
  pub c_value : List ℕ
  pub tokens : DynArray Token

-- A step goes on, or the function returns with the array, or the program stops: a failed `assert`
-- or an access out of bounds.
pub data Flow : Type 0 where
  more : Lex → Flow
  returns : LexResult → DynArray Token → Flow
  stuck : Flow

infixl 5 ◌>>=◌
abbrev pub ◌>>=◌ : Flow → (Lex → Flow) → Flow
more l >>= f = f l
returns r d >>= f = returns r d
stuck >>= f = stuck

-- `isspace` in the C locale.
abbrev pub isspace : ℕ → Bool
isspace c = c == b' ' || leb 9 c && leb c 13

-- `(c == '\n') || (c == '\0')`
abbrev pub ends_line : ℕ → Bool
ends_line c = c == b'\n' || c == 0

-- `none` is a failed `assert` in `dynarray_add`.
unfoldable pub add_to_token_array :
    Memory → DynArray Token → TokenType → Option (List ℕ) → Option (Bool × DynArray Token)
add_to_token_array m tokens type value = elim (make_one_token m type value) [
  | none ↦ some (false, tokens)
  | some t ↦ elim (dynarray_add m.array_ok tokens (some t)) [
    | none ↦ none
    | some d ↦ some (true, d)
  ]
]

-- `if (add_to_token_array(...) == FALSE) return LEX_NOMEM;`. What the allocator answers may
-- depend on how many tokens there are.
module _ (memory : ℕ → Memory) where
  unfoldable pub add_token : TokenType → Option (List ℕ) → Lex → Flow
  unfolding add_to_token_array
  add_token type value l =
      elim (add_to_token_array (memory l.tokens.i_length) l.tokens type value) [
        | none ↦ stuck
        | some (true, d) ↦ more (record l { tokens = d })
        | some (false, d) ↦ returns lex_nomem d
      ]

-- `c_value[value_index++] = c`
unfoldable pub put_char : ℕ → Lex → Flow
put_char c l = elim (store l.c_value l.value_index c) [
  | none ↦ stuck
  | some b ↦ more (record l { c_value = b; value_index = l.value_index + 1 })
]

abbrev pub goto : LexState → Lex → Flow
goto s l = more (record l { state = s })

-- Inside quotes: the sign that closes them is an argument.
unfoldable pub step_in_quotes : ℕ → ℕ → Lex → Flow
unfolding put_char
step_in_quotes quote c l =
    if c == quote
    then goto state_in_word l
    else if ends_line c
    then returns lex_qerror l.tokens
    else put_char c l

module _ (memory : ℕ → Memory) where
  -- `c_value[value_index] = '\0'`, then a WORD token.
  unfoldable pub add_word : Lex → Flow
  unfolding add_token
  add_word l = elim (store l.c_value l.value_index 0) [
    | none ↦ stuck
    | some b ↦ add_token memory token_word (some (c_string b)) (record l { c_value = b })
  ]

  -- A WORD token and then one of the type `type`.
  abbrev pub add_word_and : TokenType → Lex → Flow
  add_word_and type l = do
    l' ← add_word l
    l'' ← add_token memory type none l'
    more (record l'' { value_index = 0; state = state_start })

  unfoldable pub step_start : ℕ → Lex → Flow
  unfolding add_word add_token put_char
  step_start c l =
      if ends_line c
      then returns lex_success l.tokens
      else if isspace c
      then goto state_start l
      else if c == b'|'
      then add_token memory token_pipe none l >>= goto state_start
      else if c == b'&'
      then add_token memory token_bg none l >>= goto state_start
      else if c == b'>'
      then add_token memory token_redout none l >>= goto state_start
      else if c == b'<'
      then add_token memory token_redin none l >>= goto state_start
      else if c == b'"'
      then goto state_in_dquote l
      else if c == b'\''
      then goto state_in_quote l
      else put_char c l >>= goto state_in_word

  unfoldable pub step_in_word : ℕ → Lex → Flow
  unfolding add_word add_token put_char
  step_in_word c l =
      if ends_line c
      then add_word l >>= (λ l'. returns lex_success l'.tokens)
      else if isspace c
      then add_word l >>= (λ l'. more (record l' { value_index = 0; state = state_start }))
      else if c == b'|'
      then add_word_and token_pipe l
      else if c == b'>'
      then add_word_and token_redout l
      else if c == b'<'
      then add_word_and token_redin l
      else if c == b'&'
      then add_word_and token_bg l
      else if c == b'"'
      then goto state_in_dquote l
      else if c == b'\''
      then goto state_in_quote l
      else put_char c l >>= goto state_in_word

  unfoldable pub step : LexState → ℕ → Lex → Flow
  unfolding step_start step_in_word step_in_quotes
  step state_start = step_start
  step state_in_word = step_in_word
  step state_in_dquote = step_in_quotes b'"'
  step state_in_quote = step_in_quotes b'\''

  -- The `for` loop: the text that is left ends in a NUL. Past the NUL nothing is read, since every
  -- state returns at it; the loop would be stuck there.
  unfoldable pub lex_loop : List ℕ → Lex → Flow
  unfolding step
  lex_loop [] l =
      if l.command_line_index == max_line_size
      then returns lex_long l.tokens
      else step l.state 0 (record l { command_line_index = l.command_line_index + 1 })
        >>= (λ _. stuck)
  lex_loop (c ∷ cs) l =
      if l.command_line_index == max_line_size
      then returns lex_long l.tokens
      else step l.state c (record l { command_line_index = l.command_line_index + 1 })
        >>= lex_loop cs

  -- `junk` is what the buffer holds at first.
  unfoldable pub lex_line : List ℕ → List ℕ → DynArray Token → Flow
  unfolding lex_loop
  lex_line junk line tokens = lex_loop line (record {
    state = state_start;
    command_line_index = 0;
    value_index = 0;
    c_value = junk;
    tokens = tokens;
  })
