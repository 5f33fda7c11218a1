-- ===== src/Shell/Lexer/Refines.antt =====
-- SP_LAB4/lexsyn.c, `lex_line`: a step of the code refines a step of the automaton on lists.
use fall_snu_system_pro.Base.{
  ℕ, ◌+◌, ◌*◌, ◌^◌, ◌<◌, false, none, List, [], ◌∷◌, ◌++◌, ◌≡◌, refl, sym, arith, ◌==◌,
  if◌then◌else◌,
}
use fall_snu_system_pro.Shell.Lexer.Words.{go, next, next_start, next_in_word, next_in_quotes}
use fall_snu_system_pro.Shell.Lexer.{
  LexState, state_start, state_in_word, state_in_dquote, state_in_quote, Lex, add_token, put_char,
  step_start, step_in_word, step_in_quotes, step, max_line_size, ends_line, ◌>>=◌, goto, isspace,
  add_word_and,
}
use fall_snu_system_pro.Shell.Token.{Token}
use fall_snu_system_pro.Shell.Lexer.Start.{plenty, start-operator, in_word-operator, stay}
use fall_snu_system_pro.Shell.Lexer.Moves.{
  Simulates, Flows, Flows-if, Flows-left, Flows-operator, goto-Flows, put_char-Flows, sign-Flows,
  add_word-more, word-Flows, word_and-Flows,
}

module _ (n : ℕ) (small : n + 2 * max_line_size < 2 ^ 29) where
  -- The end of the ladder, common to the states outside quotes.
  quote-Flows :
      {i : ℕ} (l : Lex) (s : LexState) (w : List ℕ) (out : List Token) (c : ℕ)
      → Simulates n 1 i l s w out
      → ends_line c ≡ false
      → Flows n i
          (if c == b'"'
            then goto state_in_dquote l
            else if c == b'\''
            then goto state_in_quote l
            else put_char c l >>= goto state_in_word)
          (if c == b'"'
            then go state_in_dquote w out
            else if c == b'\''
            then go state_in_quote w out
            else go state_in_word (w ++ c ∷ []) out)
  quote-Flows {i} l s w out c h e =
      Flows-if n i (c == b'"') _ _ _ _ (λ _. goto-Flows n small l s state_in_dquote w out h)
        (λ _.
          Flows-if n i (c == b'\'') _ _ _ _ (λ _. goto-Flows n small l s state_in_quote w out h)
            (λ _. put_char-Flows n small l s state_in_word w out c h (ground arith)))

  step_start-Flows :
      {i : ℕ} (l : Lex) (s : LexState) (w : List ℕ) (out : List Token) (c : ℕ)
      → Simulates n 1 i l s w out
      → Flows n i (step_start plenty c l) (next_start w out c)
  unfolding step_start next_start
  step_start-Flows {i} l s w out c h =
      Flows-if n i (ends_line c) _ _ _ _ (λ _. (refl, h.listed))
        (λ e.
          Flows-if n i (isspace c) _ _ _ _ (λ _. goto-Flows n small l s state_start w out h)
            (λ _.
              Flows-left n i _ _ _
                (start-operator c (λ t. add_token plenty t none l >>= goto state_start) _)
                (Flows-operator n i c _ _ _ _ (λ t _. sign-Flows n small l s w out t h)
                  (λ _. quote-Flows l s w out c h e))))

  step_in_word-Flows :
      {i : ℕ} (l : Lex) (s : LexState) (w : List ℕ) (out : List Token) (c : ℕ)
      → Simulates n 1 i l s w out
      → Flows n i (step_in_word plenty c l) (next_in_word w out c)
  unfolding step_in_word next_in_word
  step_in_word-Flows {i} l s w out c h =
      let (b, d, e', len, r) = add_word-more n small l s w out h in
      Flows-if n i (ends_line c) _ _ _ _ (λ _. rw e' (refl, r))
        (λ e.
          Flows-if n i (isspace c) _ _ _ _ (λ _. word-Flows n small l s w out h)
            (λ _. Flows-left n i _ _ _ (in_word-operator c (λ t. add_word_and plenty t l) _) (
              Flows-operator n i c _ _ _ _ (λ t _. word_and-Flows n small l s w out t h)
                (λ _. quote-Flows l s w out c h e))))

  step_in_quotes-Flows :
      {i : ℕ} (quote : ℕ) (l : Lex) (s : LexState) (w : List ℕ) (out : List Token) (c : ℕ)
      → Simulates n 1 i l s w out
      → Flows n i (step_in_quotes quote c l) (next_in_quotes quote s w out c)
  unfolding step_in_quotes next_in_quotes
  step_in_quotes-Flows {i} quote l s w out c h =
      Flows-if n i (c == quote) _ _ _ _ (λ _. goto-Flows n small l s state_in_word w out h)
        (λ _.
          Flows-if n i (ends_line c) _ _ _ _ (λ _. (refl, h.listed))
            (λ e.
              Flows-left n i _ _ _ (sym (stay c l s h.same_state))
                (put_char-Flows n small l s s w out c h (ground arith))))

  pub step-Flows :
      {i : ℕ} (l : Lex) (s : LexState) (w : List ℕ) (out : List Token) (c : ℕ)
      → Simulates n 1 i l s w out
      → Flows n i (step plenty s c l) (next s w out c)
  unfolding step next
  step-Flows l state_start w out c h = step_start-Flows l state_start w out c h
  step-Flows l state_in_word w out c h = step_in_word-Flows l state_in_word w out c h
  step-Flows l state_in_dquote w out c h = step_in_quotes-Flows b'"' l state_in_dquote w out c h
  step-Flows l state_in_quote w out c h = step_in_quotes-Flows b'\'' l state_in_quote w out c h
