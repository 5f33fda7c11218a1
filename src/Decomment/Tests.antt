-- ===== src/Decomment/Tests.antt =====
-- SP_LAB1/decomment.c: the theorems at concrete texts.
use fall_snu_system_pro.Base.{ℕ, true, false, none, some, List, [], ◌∷◌, ◌≡◌, refl, arith}
use fall_snu_system_pro.Decomment.{transition_state, execute_action}
use fall_snu_system_pro.Decomment.Main.{main}
use fall_snu_system_pro.Decomment.Emit.{reach}
use fall_snu_system_pro.Decomment.Lines.{
  newlines, newlines-main, main_unterminated, main_last_slash, main_slash_quote,
}
use fall_snu_system_pro.Decomment.Again.{main-main}
use fall_snu_system_pro.Decomment.Pieces.{
  Piece, code, divide, string, character, line_comment, block_comment, texts, cleaned_texts,
  main-texts,
}

-- Two lines with a comment that spans both.
abbrev two_lines : List ℕ
two_lines = b'a' ∷ b'/' ∷ b'*' ∷ b'x' ∷ b'\n' ∷ b'*' ∷ b'/' ∷ b'b' ∷ b'\n' ∷ []

-- A comment that is not closed, on the second line.
abbrev open_comment : List ℕ
open_comment = b'a' ∷ b'\n' ∷ b'/' ∷ b'*' ∷ b'x' ∷ b'\n' ∷ []

abbrev pieces : List Piece
pieces =
    code b'a'
    ∷ divide b'b'
    ∷ string (b'/' ∷ b'*' ∷ b'\\' ∷ b'"' ∷ [])
    ∷ character (b'"' ∷ [])
    ∷ block_comment (b'*' ∷ b'\n' ∷ b'x' ∷ [])
    ∷ line_comment (b'y' ∷ [])
    ∷ code b'c'
    ∷ []

main-two_lines : (main two_lines).stdout ≡ b'a' ∷ b' ' ∷ b'\n' ∷ b'b' ∷ b'\n' ∷ []
unfolding main execute_action transition_state
main-two_lines = refl

newlines-main_example : newlines (main two_lines).stdout ≡ 2
newlines-main_example = newlines-main two_lines

main_unterminated_example :
    ((main open_comment).stderr ≡ some 2) × ((main open_comment).exit_failure ≡ true)
unfolding reach transition_state
main_unterminated_example =
    main_unterminated (b'a' ∷ b'\n' ∷ []) (b'x' ∷ b'\n' ∷ []) refl refl (omega arith)

main_last_slash_example :
    (main (b'a' ∷ b'\n' ∷ b'/' ∷ [])).stdout ≡ (main (b'a' ∷ b'\n' ∷ [])).stdout
unfolding reach transition_state
main_last_slash_example = main_last_slash (b'a' ∷ b'\n' ∷ []) refl

main_slash_quote_example :
    (main (b'6' ∷ b'/' ∷ b'"' ∷ b'/' ∷ b'*' ∷ b'"' ∷ b';' ∷ [])).exit_failure ≡ true
unfolding reach transition_state
main_slash_quote_example = main_slash_quote (b'6' ∷ []) (b'"' ∷ b';' ∷ []) refl refl (omega arith)

main-main_example : (main (main two_lines).stdout).stdout ≡ (main two_lines).stdout
main-main_example = main-main two_lines

main-texts_example :
    ((main (texts pieces)).stdout ≡ cleaned_texts pieces)
    × ((main (texts pieces)).exit_failure ≡ false)
    × ((main (texts pieces)).stderr ≡ none)
main-texts_example = main-texts pieces refl
