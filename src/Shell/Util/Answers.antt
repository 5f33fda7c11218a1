-- ===== src/Shell/Util/Answers.antt =====
-- SP_LAB4/util.c: what the questions about tokens answer.
use fall_snu_system_pro.Base.{
  ℕ, ◌+◌, true, ◌&&◌, some, List, [], ◌∷◌, ◌++◌, ◌≡◌, ◌≢◌, ◌↔◌, refl, arith, ◌==◌, if◌then◌else◌,
  length, length-append,
}
use fall_snu_system_pro.Shell.DynArray.Contents.{Represents}
use fall_snu_system_pro.Shell.DynArray.{DynArray}
use fall_snu_system_pro.Shell.Lexer.Start.{pointers}
use fall_snu_system_pro.Shell.Syntax.Grammar.{has, fault, syntax_check-IsGrammatical}
use fall_snu_system_pro.Shell.Syntax.Reads.{type_at-Represents, length-Represents, Represents-next}
use fall_snu_system_pro.Shell.Syntax.{syn_success, syntax_check}
use fall_snu_system_pro.Shell.Token.{
  TokenType, token_bg, token_word, token_pipe, token_redin, token_redout, Token, is_pipe, is_bg,
}
use fall_snu_system_pro.Shell.Util.{
  b_exit, b_cd, strncmp_eq, cd_text, exit_text, check_builtin, count_pipe, count_pipe_loop,
  check_bg, check_bg_loop,
}

strncmp_eq_sound :
    (v w : List ℕ) → (strncmp_eq v w (length w) && length v == length w) ≡ true → v ≡ w
unfolding strncmp_eq
strncmp_eq_sound [] [] h = refl
strncmp_eq_sound [] (y ∷ w) h = cc
strncmp_eq_sound (x ∷ v) [] h = ground arith
strncmp_eq_sound (x ∷ v) (y ∷ w) h = ground (arith, strncmp_eq_sound v w)

-- A command is built in exactly when it is the text cd or exit.
pub check_builtin_lem :
    (t : Token) (v : List ℕ)
    → t.token_value ≡ some v
    → ((check_builtin t ≡ some b_cd) ↔ (v ≡ cd_text))
      × ((check_builtin t ≡ some b_exit) ↔ (v ≡ exit_text))
unfolding check_builtin
check_builtin_lem t v e = (
  ((λ h. strncmp_eq_sound v cd_text (ground arith)), (λ h. ground arith)),
  ((λ h. strncmp_eq_sound v exit_text (ground arith)), (λ h. ground arith)),
)

abbrev pub pipes : List Token → ℕ
pipes [] = 0
pipes (t ∷ ts) = (if is_pipe t.token_type then 1 else 0) + pipes ts

count_pipe_loop-pipes :
    (d : DynArray Token) (before after : List Token) (cnt : ℕ)
    → Represents d (pointers (before ++ after))
    → count_pipe_loop d (length after) (length before) cnt ≡ some (cnt + pipes after)
unfolding count_pipe_loop
count_pipe_loop-pipes d before [] cnt r = ground arith
count_pipe_loop-pipes d before (t ∷ after) cnt r = ground (
  arith,
  type_at-Represents d before t after r,
  length-append before (t ∷ []),
  count_pipe_loop-pipes d (before ++ t ∷ []) after (if is_pipe t.token_type then cnt + 1 else cnt)
      (Represents-next d before t after r),
)

check_bg_loop-has :
    (d : DynArray Token) (before after : List Token)
    → Represents d (pointers (before ++ after))
    → check_bg_loop d (length after) (length before) ≡ some (has is_bg after)
unfolding check_bg_loop
check_bg_loop-has d before [] r = refl
check_bg_loop-has d before (t ∷ after) r = ground (
  arith,
  type_at-Represents d before t after r,
  length-append before (t ∷ []),
  check_bg_loop-has d (before ++ t ∷ []) after (Represents-next d before t after r),
)

-- Count_pipe counts the pipes of the list, and check_bg answers whether it holds an ampersand.
pub count_pipe-check_bg :
    (d : DynArray Token) (ts : List Token)
    → Represents d (pointers ts)
    → (count_pipe d ≡ some (pipes ts)) × (check_bg d ≡ some (has is_bg ts))
unfolding count_pipe check_bg
count_pipe-check_bg d ts r = ground (
  arith,
  length-Represents d ts r,
  count_pipe_loop-pipes d [] ts 0 r,
  check_bg_loop-has d [] ts r,
)

fault_bg :
    (before : List Token) (t : TokenType) (after : List Token)
    → is_bg t ≡ true
    → fault before t after ≡ syn_success
    → (before ≢ []) × (after ≡ [])
fault_bg [] token_bg after b h = cc
fault_bg (u ∷ before) token_bg [] b h = ((λ e. cc), refl)
fault_bg (u ∷ before) token_bg (v ∷ after) b h = cc
fault_bg before token_word after b h = cc
fault_bg before token_pipe after b h = cc
fault_bg before token_redin after b h = cc
fault_bg before token_redout after b h = cc

-- When the syntax check succeeds, an ampersand is the last token, and not the first.
pub syntax_check-bg_last :
    (d : DynArray Token) (before : List Token) (t : Token) (after : List Token)
    → Represents d (pointers (before ++ t ∷ after))
    → syntax_check d ≡ some syn_success
    → is_bg t.token_type ≡ true
    → (before ≢ []) × (after ≡ [])
syntax_check-bg_last d before t after r h b =
    fault_bg before t.token_type after b
      ((syntax_check-IsGrammatical d (before ++ t ∷ after) r).0 h before t after refl)
