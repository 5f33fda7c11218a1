-- ===== src/Shell/Token.antt =====
-- SP_LAB4/token.h, token.c: the tokens of a command line. A token's text is the list of its
-- characters, and `none` where the pointer is NULL.
use fall_snu_system_pro.Base.{ℕ, Bool, true, false, Option, none, some, List, if◌then◌else◌}

-- `enum TokenType`
pub data TokenType : Type 0 where
  token_pipe token_redin token_redout token_word token_bg : TokenType

-- `struct Token`
pub record Token : Type 0 where
  pub token_type : TokenType
  pub token_value : Option (List ℕ)

-- Whether each `malloc` that one token needs succeeds: the two of `make_one_token`, and the
-- `realloc` of the array.
pub record Memory : Type 0 where
  pub token_ok : Bool
  pub value_ok : Bool
  pub array_ok : Bool

unfoldable pub make_one_token : Memory → TokenType → Option (List ℕ) → Option Token
make_one_token m type none =
    if m.token_ok then some (record { token_type = type; token_value = none }) else none
make_one_token m type (some text) =
    if m.token_ok
    then if m.value_ok then some (record { token_type = type; token_value = some text }) else none
    else none

-- Comparisons of a token's type with a constant.
abbrev pub is_pipe : TokenType → Bool
is_pipe TokenType.token_pipe = true
is_pipe _ = false

abbrev pub is_redin : TokenType → Bool
is_redin TokenType.token_redin = true
is_redin _ = false

abbrev pub is_redout : TokenType → Bool
is_redout TokenType.token_redout = true
is_redout _ = false

abbrev pub is_word : TokenType → Bool
is_word TokenType.token_word = true
is_word _ = false

abbrev pub is_bg : TokenType → Bool
is_bg TokenType.token_bg = true
is_bg _ = false
