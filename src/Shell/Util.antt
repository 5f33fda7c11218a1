-- ===== src/Shell/Util.antt =====
-- SP_LAB4/util.c: the questions that the shell asks of its tokens.
pub mod Answers
use fall_snu_system_pro.Base.{
  ◌>>=◌, ℕ, zero, suc, ◌+◌, Bool, true, false, ◌&&◌, Option, none, some, List, [], ◌∷◌, ◌==◌,
  if◌then◌else◌, length,
}
use fall_snu_system_pro.Shell.DynArray.{DynArray, dynarray_get_length}
use fall_snu_system_pro.Shell.Syntax.{type_at}
use fall_snu_system_pro.Shell.Token.{Token, is_pipe, is_bg}

-- `enum BuiltinType`
pub data BuiltinType : Type 0 where
  normal b_exit b_cd : BuiltinType

-- `strncmp(a, b, n) == 0` on strings without NULs.
unfoldable pub strncmp_eq : List ℕ → List ℕ → ℕ → Bool
strncmp_eq a b zero = true
strncmp_eq [] [] (suc n) = true
strncmp_eq [] (y ∷ b) (suc n) = false
strncmp_eq (x ∷ a) [] (suc n) = false
strncmp_eq (x ∷ a) (y ∷ b) (suc n) = x == y && strncmp_eq a b n

abbrev pub cd_text : List ℕ
cd_text = b'c' ∷ b'd' ∷ []

abbrev pub exit_text : List ℕ
exit_text = b'e' ∷ b'x' ∷ b'i' ∷ b't' ∷ []

-- `none` is a failed `assert`: the token has no text.
unfoldable pub check_builtin : Token → Option BuiltinType
unfolding strncmp_eq
check_builtin t = elim t.token_value [
  | none ↦ none
  | some v ↦ some (
      if strncmp_eq v cd_text 2 && length v == 2
      then b_cd
      else if strncmp_eq v exit_text 4 && length v == 4
      then b_exit
      else normal)
]

-- The loop of `count_pipe` from index `i` on.
unfoldable pub count_pipe_loop : DynArray Token → ℕ → ℕ → ℕ → Option ℕ
count_pipe_loop tokens zero i cnt = some cnt
count_pipe_loop tokens (suc n) i cnt = do
  t ← type_at tokens i
  count_pipe_loop tokens n (i + 1) (if is_pipe t then cnt + 1 else cnt)

unfoldable pub count_pipe : DynArray Token → Option ℕ
unfolding count_pipe_loop
count_pipe tokens = do n ← dynarray_get_length tokens; count_pipe_loop tokens n 0 0

unfoldable pub check_bg_loop : DynArray Token → ℕ → ℕ → Option Bool
check_bg_loop tokens zero i = some false
check_bg_loop tokens (suc n) i =
    let rest = check_bg_loop tokens n (i + 1) in
    (type_at tokens i >>= (λ t. if is_bg t then some true else rest))

unfoldable pub check_bg : DynArray Token → Option Bool
unfolding check_bg_loop
check_bg tokens = do n ← dynarray_get_length tokens; check_bg_loop tokens n 0
