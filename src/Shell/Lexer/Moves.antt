-- ===== src/Shell/Lexer/Moves.antt =====
-- SP_LAB4/lexsyn.c, `lex_line`: the moves of the code, each against its move on lists.
use fall_snu_system_pro.Base.{
  ℕ, ◌+◌, ◌*◌, ◌^◌, ◌≤◌, ◌<◌, Bool, true, false, Option, none, some, List, [], ◌∷◌, ◌++◌, ◌≡◌, refl,
  sym, subst, arith, ◌==◌, if◌then◌else◌, length, length-append,
}
use fall_snu_system_pro.Shell.DynArray.Contents.{Represents}
use fall_snu_system_pro.Shell.DynArray.{DynArray}
use fall_snu_system_pro.Shell.Lexer.Buffer.{Holds, store-Holds, store-c_string}
use fall_snu_system_pro.Shell.Lexer.Words.{word, sign, operator, Next, go, stop}
use fall_snu_system_pro.Shell.Lexer.{
  LexState, state_start, Lex, Flow, more, returns, add_token, put_char, add_word, max_line_size,
  ◌>>=◌, goto, add_word_and,
}
use fall_snu_system_pro.Shell.Token.{TokenType, token_word, Token}
use fall_snu_system_pro.Shell.Lexer.Start.{pointers, pointers-append, plenty, add_token-more}

-- The lexer may start with `n` tokens in the array.
module _ (n : ℕ) where
  -- The locals stand for a state, a word and a list of tokens after `i` characters, of which the
  -- last `k` are yet to be used.
  pub record Simulates (k i : ℕ) (l : Lex) (s : LexState) (w : List ℕ) (out : List Token)
      : Type 0 where
    pub same_state : l.state ≡ s
    pub counted : l.value_index ≡ length w
    pub held : Holds w l.c_value
    pub sized : length l.c_value ≡ max_line_size
    pub at : l.command_line_index ≡ i
    pub behind : length w + k ≤ i
    pub bounded : i ≤ max_line_size
    pub few : length (pointers out) + 2 * k ≤ n + 2 * i
    pub listed : Represents l.tokens (pointers out)

  -- A step of the code and a step on lists agree.
  abbrev pub Flows : ℕ → Flow → Next → Type 0
  Flows i (more l) (go s w out) = Simulates 0 i l s w out
  Flows i (returns r d) (stop r' out) = (r ≡ r') × Represents d (pointers out)
  Flows i _ _ = ⊥

  pub Flows-if :
      (i : ℕ) (b : Bool) (f f' : Flow) (m m' : Next)
      → (b ≡ true → Flows i f m)
      → (b ≡ false → Flows i f' m')
      → Flows i (if b then f else f') (if b then m else m')
  Flows-if i true f f' m m' h h' = h refl
  Flows-if i false f f' m m' h h' = h' refl

  pub Flows-left : (i : ℕ) (f f' : Flow) (m : Next) → f ≡ f' → Flows i f' m → Flows i f m
  Flows-left i f f' m e h = subst (λ x. Flows i x m) (sym e) h

  pub Flows-operator :
      (i c : ℕ) (f : TokenType → Flow) (f' : Flow) (m : TokenType → Next) (m' : Next)
      → ((t : TokenType) → operator c ≡ some t → Flows i (f t) (m t))
      → (operator c ≡ none → Flows i f' m')
      → Flows i
          (elim (operator c) [ some t ↦ f t | none ↦ f' ])
          (elim (operator c) [ some t ↦ m t | none ↦ m' ])
  Flows-operator i c f f' m m' h h' = go (operator c) refl
    where
      go :
          (o : Option TokenType)
          → operator c ≡ o
          → Flows i (elim o [ some t ↦ f t | none ↦ f' ]) (elim o [ some t ↦ m t | none ↦ m' ])
      go none e = h' e
      go (some t) e = h t e

  module _ (small : n + 2 * max_line_size < 2 ^ 29) where
    pub goto-Flows :
        {i : ℕ} (l : Lex) (s s' : LexState) (w : List ℕ) (out : List Token)
        → Simulates 1 i l s w out
        → Flows i (goto s' l) (go s' w out)
    goto-Flows l s s' w out h = record {
      same_state = refl;
      counted = h.counted;
      held = h.held;
      sized = h.sized;
      at = h.at;
      behind = omega arith;
      bounded = h.bounded;
      few = omega arith;
      listed = h.listed;
    }

    pub put_char-Flows :
        {i : ℕ} (l : Lex) (s s' : LexState) (w : List ℕ) (out : List Token) (c : ℕ)
        → Simulates 1 i l s w out
        → (c == 0) ≡ false
        → Flows i (put_char c l >>= goto s') (go s' (w ++ c ∷ []) out)
    unfolding put_char
    put_char-Flows l s s' w out c h nz =
        let (b, e, k, len) = store-Holds w l.c_value c h.held (omega arith) nz in
        let stored : put_char c l
            ≡ more (record l { c_value = b; value_index = l.value_index + 1 }) =
          ground arith in
        rw stored (record {
          same_state = refl;
          counted = omega (arith, length-append w (c ∷ []));
          held = k;
          sized = omega arith;
          at = h.at;
          behind = omega (arith, length-append w (c ∷ []));
          bounded = h.bounded;
          few = omega arith;
          listed = h.listed;
        })

    pub sign-Flows :
        {i : ℕ} (l : Lex) (s : LexState) (w : List ℕ) (out : List Token) (t : TokenType)
        → Simulates 1 i l s w out
        → Flows i
            (add_token plenty t none l >>= goto state_start)
            (go state_start w (out ++ sign t ∷ []))
    sign-Flows l s w out t h =
        let (d, e, r) = add_token-more l out t none h.listed (omega arith) in
        rw e (record {
          same_state = refl;
          counted = h.counted;
          held = h.held;
          sized = h.sized;
          at = h.at;
          behind = omega arith;
          bounded = h.bounded;
          few =
              rw (pointers-append out (sign t ∷ []))
                (omega (arith, length-append (pointers out) (some (sign t) ∷ [])));
          listed = r;
        })

    pub add_word-more :
        {i : ℕ} (l : Lex) (s : LexState) (w : List ℕ) (out : List Token)
        → Simulates 1 i l s w out
        → (b : List ℕ) × (d : DynArray Token) × (add_word plenty l
            ≡ more (record l { c_value = b; tokens = d }))
          × (length b ≡ max_line_size)
          × Represents d (pointers (out ++ word w ∷ []))
    unfolding add_word
    add_word-more l s w out h =
        let (b, e, k, len) = store-c_string w l.c_value h.held (omega arith) in
        let (d, e', r) =
          add_token-more (record l { c_value = b }) out token_word (some w) h.listed
            (omega arith) in
        (b, d, ground arith, omega arith, r)

    length-pointers-append :
        (out : List Token) (t : Token)
        → length (pointers (out ++ t ∷ [])) ≡ length (pointers out) + 1
    length-pointers-append out t =
        rw (pointers-append out (t ∷ [])) (length-append (pointers out) (some t ∷ []))

    -- A word that ends at a space.
    pub word-Flows :
        {i : ℕ} (l : Lex) (s : LexState) (w : List ℕ) (out : List Token)
        → Simulates 1 i l s w out
        → Flows i
            (add_word plenty l
              >>= (λ l'. more (record l' { value_index = 0; state = state_start })))
            (go state_start [] (out ++ word w ∷ []))
    word-Flows l s w out h =
        let (b, d, e, len, r) = add_word-more l s w out h in
        rw e (record {
          same_state = refl;
          counted = refl;
          held = tt;
          sized = len;
          at = h.at;
          behind = omega arith;
          bounded = h.bounded;
          few = omega (arith, length-pointers-append out (word w));
          listed = r;
        })

    -- A word that ends at an operator.
    pub word_and-Flows :
        {i : ℕ} (l : Lex) (s : LexState) (w : List ℕ) (out : List Token) (t : TokenType)
        → Simulates 1 i l s w out
        → Flows i
            (add_word_and plenty t l)
            (go state_start [] ((out ++ word w ∷ []) ++ sign t ∷ []))
    word_and-Flows l s w out t h =
        let (b, d, e, len, r) = add_word-more l s w out h in
        let l' = record l { c_value = b; tokens = d } in
        let more_few = length-pointers-append out (word w) in
        let (d', e', r') = add_token-more l' (out ++ word w ∷ []) t none r (omega arith) in
        rw (e, e')
          (record {
            same_state = refl;
            counted = refl;
            held = tt;
            sized = len;
            at = h.at;
            behind = omega arith;
            bounded = h.bounded;
            few = omega (arith, length-pointers-append (out ++ word w ∷ []) (sign t));
            listed = r';
          })
