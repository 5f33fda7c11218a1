-- ===== src/Shell/Lexer/Long.antt =====
-- SP_LAB4/lexsyn.c, `lex_line`: exactly the lines that are too long are refused as such.
use fall_snu_system_pro.Base.{
  ℕ, zero, suc, ◌+◌, Bool, true, false, not, ◌&&◌, List, [], ◌∷◌, ◌≡◌, refl, ap, ◌∙◌, arith, ◌==◌,
  length,
}
use fall_snu_system_pro.Shell.DynArray.Contents.{Represents}
use fall_snu_system_pro.Shell.DynArray.{DynArray}
use fall_snu_system_pro.Shell.Lexer.Loop.{lex_line-Ends}
use fall_snu_system_pro.Shell.Lexer.Start.{plenty}
use fall_snu_system_pro.Shell.Lexer.Words.{Next, go, stop, operator, next, words}
use fall_snu_system_pro.Shell.Lexer.{
  LexResult, lex_long, LexState, state_start, max_line_size, ends_line, lex_line, returns,
}
use fall_snu_system_pro.Shell.Token.{Token}

-- The first `n` characters are there, and none of them ends the line.
abbrev pub unended : ℕ → List ℕ → Bool
unended zero cs = true
unended (suc n) [] = false
unended (suc n) (c ∷ cs) = not (ends_line c) && unended n cs

abbrev pub is_long : LexResult → Bool
is_long lex_long = true
is_long _ = false

abbrev stops : Next → Bool
stops (stop r out) = not (is_long r)
stops (go s w out) = false

-- A step stops the loop exactly at the end of the line, and never with `LEX_LONG`.
stops-next :
    (s : LexState) (w : List ℕ) (out : List Token) (c : ℕ) → stops (next s w out c) ≡ ends_line c
unfolding next operator
stops-next state_start w out c = ground arith
stops-next _ w out c = ground arith

long_of : Next → Bool
long_of (stop r out) = is_long r
long_of (go s w out) = false

long_of-next :
    (s : LexState) (w : List ℕ) (out : List Token) (c : ℕ) → long_of (next s w out c) ≡ false
unfolding next operator long_of
long_of-next state_start w out c = ground arith
long_of-next _ w out c = ground arith

is_long-bind :
    (ended b : Bool) (m : Next) (k : LexState → List ℕ → List Token → LexResult × List Token)
    → stops m ≡ ended
    → long_of m ≡ false
    → ((s : LexState) (w : List ℕ) (out : List Token) → is_long (k s w out).0 ≡ b)
    → is_long
        (elim m as (λ m'. LexResult × List Token) [
          | stop r out ↦ (r, out)
          | go s w out ↦ k s w out
        ]).0
      ≡ not ended && b
unfolding long_of
is_long-bind ended b (stop r out) k e l h = ground arith
is_long-bind ended b (go s w out) k e l h = h s w out ∙ ground arith

is_long-stop :
    (m : Next)
    → stops m ≡ true
    → long_of m ≡ false
    → is_long
        (elim m as (λ m'. LexResult × List Token) [
          | stop r out ↦ (r, out)
          | go s w out ↦ (lex_long, out)
        ]).0
      ≡ false
unfolding long_of
is_long-stop (stop r out) e l = l
is_long-stop (go s w out) e l = cc

words-is_long :
    (n i : ℕ) (line : List ℕ) (s : LexState) (w : List ℕ) (out : List Token)
    → i + n ≡ max_line_size
    → is_long (words i line s w out).0 ≡ unended n line
unfolding words
words-is_long zero i [] s w out h = ground arith
words-is_long zero i (c ∷ cs) s w out h = ground arith
words-is_long (suc n) i [] s w out h =
    let running : (i == max_line_size) ≡ false = ground arith in
    rw running (is_long-stop (next s w out 0) (stops-next s w out 0) (long_of-next s w out 0))
words-is_long (suc n) i (c ∷ cs) s w out h =
    let running : (i == max_line_size) ≡ false = ground arith in
    rw running (
      is_long-bind (ends_line c) (unended n cs) (next s w out c) (words (i + 1) cs)
        (stops-next s w out c) (long_of-next s w out c)
        (λ s' w' out'. words-is_long n (i + 1) cs s' w' out' (omega arith)))

-- Lex_line returns LEX_LONG exactly when the first 1024 characters of the line hold neither a
-- newline nor the NUL, and on every line it returns; with memory enough and an empty array.
pub lex_line-long :
    (junk line : List ℕ) (tokens : DynArray Token)
    → length junk ≡ max_line_size
    → Represents tokens []
    → (r : LexResult) × (d : DynArray Token) × (lex_line plenty junk line tokens ≡ returns r d)
      × (is_long r ≡ unended max_line_size line)
lex_line-long junk line tokens sized empty =
    let (r, d, e, e', listed) = lex_line-Ends junk line tokens [] sized empty (omega arith) in
    (r, d, e, ap is_long e' ∙ words-is_long max_line_size 0 line state_start [] [] refl)
