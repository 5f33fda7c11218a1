-- ===== src/Shell/Syntax/Grammar.antt =====
-- SP_LAB4/lexsyn.c, `syntax_check` against a grammar of token lists.
use fall_snu_system_pro.Base.{
  Bool, false, ◌||◌, some, List, [], ◌∷◌, ◌++◌, ◌≡◌, ◌↔◌, refl, ap, sym, ◌∙◌, arith, if◌then◌else◌,
  length, length-append, append_assoc, append-nil,
}
use fall_snu_system_pro.Shell.DynArray.Contents.{Represents}
use fall_snu_system_pro.Shell.DynArray.{DynArray}
use fall_snu_system_pro.Shell.Lexer.Start.{pointers}
use fall_snu_system_pro.Shell.Syntax.Reads.{
  type_at-Represents, length-Represents, word_follows-Represents, starts_word, is_empty, last_index,
  Represents-next,
}
use fall_snu_system_pro.Shell.Syntax.{
  SyntaxResult, syn_success, syn_fail_nocmd, syn_fail_multredin, syn_fail_nodestin,
  syn_fail_multredout, syn_fail_nodestout, syn_fail_invalidbg, Flags, Round, continues, breaks,
  round, syntax_loop, syntax_check,
}
use fall_snu_system_pro.Shell.Token.{
  TokenType, token_pipe, token_redin, token_redout, token_word, token_bg, Token, is_word, is_pipe,
  is_redin, is_redout,
}

abbrev pub has : (TokenType → Bool) → List Token → Bool
has p [] = false
has p (t ∷ ts) = p t.token_type || has p ts

-- What is wrong with a token of the type `t` between the tokens `before` and `after`, if there is
-- a token before it.
abbrev pub fault_inside : List Token → TokenType → List Token → SyntaxResult
fault_inside before token_word after = syn_success
fault_inside before token_pipe after =
    if has is_redout before
    then syn_fail_multredout
    else if starts_word after
    then syn_success
    else syn_fail_nocmd
fault_inside before token_bg after = if is_empty after then syn_success else syn_fail_invalidbg
fault_inside before token_redin after =
    if has is_pipe before || has is_redin before
    then syn_fail_multredin
    else if starts_word after
    then syn_success
    else syn_fail_nodestin
fault_inside before token_redout after =
    if has is_redout before
    then syn_fail_multredout
    else if starts_word after
    then syn_success
    else syn_fail_nodestout

abbrev pub fault : List Token → TokenType → List Token → SyntaxResult
fault [] t after = if is_word t then syn_success else syn_fail_nocmd
fault (u ∷ before) t after = fault_inside (u ∷ before) t after

-- The first of two faults.
abbrev pub or_fault : SyntaxResult → SyntaxResult → SyntaxResult
or_fault syn_success rest = rest
or_fault e rest = e

-- The first fault in a list of tokens.
abbrev pub first_fault : List Token → List Token → SyntaxResult
first_fault before [] = syn_success
first_fault before (t ∷ after) =
    or_fault (fault before t.token_type after) (first_fault (before ++ t ∷ []) after)

abbrev flags_of : List Token → Flags
flags_of before = record {
  ri_exist = has is_redin before;
  ro_exist = has is_redout before;
  p_exist = has is_pipe before;
}

has-append :
    (p : TokenType → Bool) (xs : List Token) (t : Token)
    → has p (xs ++ t ∷ []) ≡ (has p xs || p t.token_type)
has-append p [] t = ground arith
has-append p (x ∷ xs) t = ground (arith, has-append p xs t)

-- A round of the loop finds the fault of its token, or goes on with the flags of one token more.
abbrev verdict : SyntaxResult → Flags → Round
verdict syn_success f = continues f
verdict e f = breaks e

round-Represents :
    (d : DynArray Token) (before : List Token) (t : Token) (after : List Token)
    → Represents d (pointers (before ++ t ∷ after))
    → round d (length before) (flags_of before) t.token_type
      ≡ some (verdict (fault before t.token_type after) (flags_of (before ++ t ∷ [])))
unfolding round
round-Represents d [] t after r = ground arith
round-Represents d (u ∷ before) t after r = ground (
  arith,
  word_follows-Represents d (u ∷ before) t after r,
  length-Represents d ((u ∷ before) ++ t ∷ after) r,
  has-append is_redin (u ∷ before) t,
  has-append is_redout (u ∷ before) t,
  has-append is_pipe (u ∷ before) t,
  last_index (u ∷ before) t after,
)

syntax_loop-Represents :
    (d : DynArray Token) (before after : List Token)
    → Represents d (pointers (before ++ after))
    → syntax_loop d (length after) (length before) (flags_of before)
      ≡ some (first_fault before after)
unfolding syntax_loop
syntax_loop-Represents d before [] r = refl
syntax_loop-Represents d before (t ∷ after) r = ground (
  arith,
  type_at-Represents d before t after r,
  round-Represents d before t after r,
  length-append before (t ∷ []),
  syntax_loop-Represents d (before ++ t ∷ []) after (Represents-next d before t after r),
)

-- On every list of tokens syntax_check returns, with no assertion failed, the first fault of the
-- list: the result of the first token that does not fit between those before and after it.
pub syntax_check-first_fault :
    (d : DynArray Token) (ts : List Token)
    → Represents d (pointers ts)
    → syntax_check d ≡ some (first_fault [] ts)
unfolding syntax_check
syntax_check-first_fault d ts r =
    ground (arith, length-Represents d ts r, syntax_loop-Represents d [] ts r)

-- Every token fits between those before and after it.
abbrev pub IsGrammatical : List Token → Type 0
IsGrammatical ts =
    (before : List Token) (t : Token) (after : List Token)
    → ts ≡ before ++ t ∷ after
    → fault before t.token_type after ≡ syn_success

or_fault-eq-success :
    (e rest : SyntaxResult)
    → or_fault e rest ≡ syn_success
    → (e ≡ syn_success) × (rest ≡ syn_success)
or_fault-eq-success syn_success rest h = (refl, h)
or_fault-eq-success _ rest h = cc

first_fault_sound :
    (done before : List Token) (t : Token) (after : List Token)
    → first_fault done (before ++ t ∷ after) ≡ syn_success
    → fault (done ++ before) t.token_type after ≡ syn_success
first_fault_sound done [] t after h =
    ap (λ ts. fault ts t.token_type after) (append-nil done)
    ∙ (or_fault-eq-success (fault done t.token_type after) (first_fault (done ++ t ∷ []) after) h).0
first_fault_sound done (b ∷ before) t after h =
    ap (λ ts. fault ts t.token_type after) (sym (append_assoc done (b ∷ []) before))
    ∙ first_fault_sound (done ++ b ∷ []) before t after
        (or_fault-eq-success (fault done b.token_type (before ++ t ∷ after))
          (first_fault (done ++ b ∷ []) (before ++ t ∷ after)) h).1

first_fault_complete :
    (done ts : List Token)
    → ((before : List Token) (t : Token) (after : List Token)
        → ts ≡ before ++ t ∷ after
        → fault (done ++ before) t.token_type after ≡ syn_success)
    → first_fault done ts ≡ syn_success
first_fault_complete done [] h = refl
first_fault_complete done (t ∷ ts) h =
    let here : fault done t.token_type ts ≡ syn_success =
      ap (λ us. fault us t.token_type ts) (sym (append-nil done)) ∙ h [] t ts refl in
    ap (λ e. or_fault e (first_fault (done ++ t ∷ []) ts)) here
    ∙ (first_fault_complete (done ++ t ∷ []) ts (λ before u after e.
        ap (λ us. fault us u.token_type after) (append_assoc done (t ∷ []) before)
        ∙ h (t ∷ before) u after (ap (◌∷◌ t) e)))

-- Syntax_check succeeds exactly on the lists in which every token fits between those before and
-- after it.
pub syntax_check-IsGrammatical :
    (d : DynArray Token) (ts : List Token)
    → Represents d (pointers ts)
    → (syntax_check d ≡ some syn_success) ↔ IsGrammatical ts
syntax_check-IsGrammatical d ts r = (
  (λ h before t after e.
      first_fault_sound [] before t after
        (ap (first_fault []) (sym e) ∙ cc (syntax_check-first_fault d ts r))),
  (λ g. syntax_check-first_fault d ts r ∙ ap some (first_fault_complete [] ts g)),
)
