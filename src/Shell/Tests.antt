-- ===== src/Shell/Tests.antt =====
-- SP_LAB4: the theorems at concrete lines and arrays.
use fall_snu_system_pro.Base.{
  ℕ, true, none, some, List, [], ◌∷◌, ◌≡◌, ◌≢◌, ◌↔◌, refl, arith, replicate,
}
use fall_snu_system_pro.Shell.Token.{TokenType, token_word, token_pipe, token_bg, Token}
use fall_snu_system_pro.Shell.DynArray.{DynArray, dynarray_get_length, dynarray_add}
use fall_snu_system_pro.Shell.DynArray.Contents.{
  Represents, dynarray_get_length-Represents, dynarray_add-Represents,
}
use fall_snu_system_pro.Shell.Lexer.{
  LexResult, lex_success, returns, state_start, lex_line, max_line_size,
}
use fall_snu_system_pro.Shell.Lexer.Words.{words}
use fall_snu_system_pro.Shell.Lexer.Start.{pointers, plenty}
use fall_snu_system_pro.Shell.Lexer.Loop.{lex_line-Ends}
use fall_snu_system_pro.Shell.Lexer.Show.{shows, lex_line-shows}
use fall_snu_system_pro.Shell.Lexer.Long.{is_long, unended, lex_line-long}
use fall_snu_system_pro.Shell.Syntax.{syn_success, syntax_check}
use fall_snu_system_pro.Shell.Syntax.Grammar.{
  IsGrammatical, syntax_check-first_fault, syntax_check-IsGrammatical,
}
use fall_snu_system_pro.Shell.Util.Answers.{syntax_check-bg_last}

-- A full array of two numbers.
abbrev full_array : DynArray ℕ
full_array = record { i_length = 2; i_phys_length = 2; ppv_array = some 7 ∷ some 8 ∷ [] }

full_array-Represents : Represents full_array (some 7 ∷ some 8 ∷ [])
full_array-Represents = record {
  spare = [];
  slots = refl;
  counted = refl;
  allocated = refl;
  least = omega arith;
}

dynarray_get_length-Represents_example : dynarray_get_length full_array ≡ some 2
dynarray_get_length-Represents_example =
    dynarray_get_length-Represents full_array (some 7 ∷ some 8 ∷ []) full_array-Represents

dynarray_add-Represents_example :
    (d : DynArray ℕ) × (dynarray_add true full_array (some 9) ≡ some d)
    × Represents d (some 7 ∷ some 8 ∷ some 9 ∷ [])
dynarray_add-Represents_example =
    dynarray_add-Represents full_array (some 7 ∷ some 8 ∷ []) (some 9) full_array-Represents
      (omega arith)

-- The array with which a line is read, and a buffer.
abbrev no_tokens : DynArray Token
no_tokens = record { i_length = 0; i_phys_length = 2; ppv_array = none ∷ none ∷ [] }

no_tokens-Represents : Represents no_tokens (pointers [])
no_tokens-Represents = record {
  spare = none ∷ none ∷ [];
  slots = refl;
  counted = refl;
  allocated = refl;
  least = omega arith;
}

abbrev junk : List ℕ
junk = replicate max_line_size 255

-- `ls -l|wc &`
abbrev ls_line : List ℕ
ls_line = b'l' ∷ b's' ∷ b' ' ∷ b'-' ∷ b'l' ∷ b'|' ∷ b'w' ∷ b'c' ∷ b' ' ∷ b'&' ∷ b'\n' ∷ []

abbrev a_word : List ℕ → Token
a_word w = record { token_type = token_word; token_value = some w }

abbrev a_sign : TokenType → Token
a_sign t = record { token_type = t; token_value = none }

abbrev ls_tokens : List Token
ls_tokens =
    a_word (b'l' ∷ b's' ∷ [])
    ∷ a_word (b'-' ∷ b'l' ∷ [])
    ∷ a_sign token_pipe
    ∷ a_word (b'w' ∷ b'c' ∷ [])
    ∷ a_sign token_bg
    ∷ []

abbrev none_after : List Token
none_after = []

abbrev ls_array : DynArray Token
ls_array = record { i_length = 5; i_phys_length = 5; ppv_array = pointers ls_tokens }

ls_array-Represents : Represents ls_array (pointers ls_tokens)
ls_array-Represents = record {
  spare = [];
  slots = refl;
  counted = refl;
  allocated = refl;
  least = omega arith;
}

lex_line-Ends_example :
    (r : LexResult) × (d : DynArray Token) × (lex_line plenty junk ls_line no_tokens ≡ returns r d)
    × (r ≡ (words 0 ls_line state_start [] []).0)
    × Represents d (pointers (words 0 ls_line state_start [] []).1)
lex_line-Ends_example =
    lex_line-Ends junk ls_line no_tokens [] refl no_tokens-Represents (omega arith)

lex_line-shows_example :
    (d : DynArray Token) × (lex_line plenty junk (shows ls_tokens) no_tokens
      ≡ returns lex_success d)
    × Represents d (pointers ls_tokens)
lex_line-shows_example =
    lex_line-shows junk ls_tokens no_tokens refl no_tokens-Represents refl (omega arith)

lex_line-long_example :
    (r : LexResult) × (d : DynArray Token) × (lex_line plenty junk ls_line no_tokens ≡ returns r d)
    × (is_long r ≡ unended max_line_size ls_line)
lex_line-long_example = lex_line-long junk ls_line no_tokens refl no_tokens-Represents

syntax_check-first_fault_example : syntax_check ls_array ≡ some syn_success
syntax_check-first_fault_example = syntax_check-first_fault ls_array ls_tokens ls_array-Represents

syntax_check-IsGrammatical_example :
    (syntax_check ls_array ≡ some syn_success) ↔ IsGrammatical ls_tokens
syntax_check-IsGrammatical_example =
    syntax_check-IsGrammatical ls_array ls_tokens ls_array-Represents

syntax_check-bg_last_example :
    (a_word (b'l' ∷ b's' ∷ [])
        ∷ a_word (b'-' ∷ b'l' ∷ [])
        ∷ a_sign token_pipe
        ∷ a_word (b'w' ∷ b'c' ∷ [])
        ∷ []
      ≢ [])
    × (none_after ≡ [])
syntax_check-bg_last_example =
    syntax_check-bg_last ls_array
      (a_word (b'l' ∷ b's' ∷ [])
        ∷ a_word (b'-' ∷ b'l' ∷ [])
        ∷ a_sign token_pipe
        ∷ a_word (b'w' ∷ b'c' ∷ [])
        ∷ [])
      (a_sign token_bg) none_after ls_array-Represents
      (syntax_check-first_fault ls_array ls_tokens ls_array-Represents) refl
