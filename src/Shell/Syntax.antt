-- ===== src/Shell/Syntax.antt =====
-- SP_LAB4/lexsyn.c, `syntax_check`: the loop over the token array with its three flags.
pub mod Reads
pub mod Grammar
use fall_snu_system_pro.Base.{
  ◌>>=◌, ℕ, zero, suc, ◌+◌, ◌-◌, Bool, true, false, ◌&&◌, ◌||◌, not, Option, none, some, ◌==◌,
  if◌then◌else◌,
}
use fall_snu_system_pro.Shell.DynArray.{DynArray, dynarray_get, dynarray_get_length}
use fall_snu_system_pro.Shell.Token.{
  TokenType, token_pipe, token_redin, token_redout, token_word, token_bg, Token, is_word, is_pipe,
  is_bg, is_redin, is_redout,
}

-- `enum SyntaxResult`
pub data SyntaxResult : Type 0 where
  syn_success syn_fail_nocmd syn_fail_multredin syn_fail_nodestin : SyntaxResult
  syn_fail_multredout syn_fail_nodestout syn_fail_invalidbg : SyntaxResult

-- The flags `ri_exist`, `ro_exist` and `p_exist`.
pub record Flags : Type 0 where
  pub ri_exist : Bool
  pub ro_exist : Bool
  pub p_exist : Bool

-- One round of the loop goes on with new flags, or breaks with a result.
pub data Round : Type 0 where
  continues : Flags → Round
  breaks : SyntaxResult → Round

-- `((struct Token *)dynarray_get(oTokens, i))->token_type`: `none` is a failed `assert`, or a
-- NULL pointer.
unfoldable pub type_at : DynArray Token → ℕ → Option TokenType
type_at tokens i = do pointer ← dynarray_get tokens i; t ← pointer; some t.token_type

-- `i == dynarray_get_length(oTokens) - 1`, and then whether the next token is a WORD: the test
-- with which a pipe or a redirection goes on.
unfoldable pub word_follows : DynArray Token → ℕ → Option Bool
unfolding type_at
word_follows tokens i = do
  n ← dynarray_get_length tokens
  if i + 1 == n then some false else (type_at tokens (i + 1) >>= (λ t. some (is_word t)))

-- What follows the tests on the flags: without a WORD the loop breaks with `missing`.
abbrev pub destined : DynArray Token → ℕ → SyntaxResult → Flags → Option Round
destined tokens i missing f = do
  ok ← word_follows tokens i
  some (if ok then continues f else breaks missing)

unfoldable pub round_pipe : DynArray Token → ℕ → Flags → Option Round
unfolding word_follows
round_pipe tokens i f =
    if f.ro_exist
    then some (breaks syn_fail_multredout)
    else destined tokens i syn_fail_nocmd (record f { p_exist = true })

unfoldable pub round_bg : DynArray Token → ℕ → Flags → Option Round
round_bg tokens i f = do
  n ← dynarray_get_length tokens
  some (if i + 1 == n then continues f else breaks syn_fail_invalidbg)

unfoldable pub round_redin : DynArray Token → ℕ → Flags → Option Round
unfolding word_follows
round_redin tokens i f =
    if f.p_exist || f.ri_exist
    then some (breaks syn_fail_multredin)
    else destined tokens i syn_fail_nodestin (record f { ri_exist = true })

unfoldable pub round_redout : DynArray Token → ℕ → Flags → Option Round
unfolding word_follows
round_redout tokens i f =
    if f.ro_exist
    then some (breaks syn_fail_multredout)
    else destined tokens i syn_fail_nodestout (record f { ro_exist = true })

-- The body of the loop at index `i` for a token of the type `t`.
unfoldable pub round : DynArray Token → ℕ → Flags → TokenType → Option Round
unfolding round_pipe round_bg round_redin round_redout
round tokens i f t =
    if i == 0
    then some (if not (is_word t) then breaks syn_fail_nocmd else continues f)
    else if is_pipe t
    then round_pipe tokens i f
    else if is_bg t
    then round_bg tokens i f
    else if is_redin t
    then round_redin tokens i f
    else if is_redout t
    then round_redout tokens i f
    else some (continues f)

-- The loop from index `i` on, with `n` rounds to go: `none` is a failed `assert`.
unfoldable pub syntax_loop : DynArray Token → ℕ → ℕ → Flags → Option SyntaxResult
unfolding round
syntax_loop tokens zero i f = some syn_success
syntax_loop tokens (suc n) i f = do
  t ← type_at tokens i
  r ← round tokens i f t
  elim r [ breaks result ↦ some result | continues f' ↦ syntax_loop tokens n (i + 1) f' ]

unfoldable pub syntax_check : DynArray Token → Option SyntaxResult
unfolding syntax_loop
syntax_check tokens = do
  n ← dynarray_get_length tokens
  syntax_loop tokens n 0 (record { ri_exist = false; ro_exist = false; p_exist = false })
