-- ===== src/Shell/Lexer/Loop.antt =====
-- SP_LAB4/lexsyn.c: `lex_line`, with its buffer and its array, refines the automaton on lists, over
-- the whole line.
use fall_snu_system_pro.Base.{
  ℕ, ◌+◌, ◌*◌, ◌^◌, ◌<◌, Bool, true, false, List, [], ◌∷◌, ◌≡◌, refl, ap, arith, ◌==◌,
  if◌then◌else◌, length,
}
use fall_snu_system_pro.Shell.DynArray.Contents.{Represents}
use fall_snu_system_pro.Shell.DynArray.{DynArray}
use fall_snu_system_pro.Shell.Lexer.Words.{Next, go, stop, next, words}
use fall_snu_system_pro.Shell.Lexer.{
  LexResult, LexState, state_start, state_in_word, state_in_dquote, state_in_quote, lex_long, Lex,
  Flow, more, returns, stuck, step, lex_loop, lex_line, max_line_size, ◌>>=◌,
}
use fall_snu_system_pro.Shell.Token.{Token}
use fall_snu_system_pro.Shell.Lexer.Start.{pointers, plenty}
use fall_snu_system_pro.Shell.Lexer.Moves.{Simulates, Flows, Flows-left}
use fall_snu_system_pro.Shell.Lexer.Refines.{step-Flows}

module _ (n : ℕ) (small : n + 2 * max_line_size < 2 ^ 29) where
  -- The loop with its buffer agrees with the loop on lists.
  abbrev Ends : Flow → LexResult × List Token → Type 0
  Ends (returns r d) (r', out) = (r ≡ r') × Represents d (pointers out)
  Ends _ _ = ⊥

  -- In every state the NUL ends the line.
  next_nul :
      (s : LexState) (w : List ℕ) (out : List Token)
      → (r : LexResult) × (ts : List Token) × (next s w out 0 ≡ stop r ts)
  unfolding next
  next_nul state_start w out = (_, _, refl)
  next_nul state_in_word w out = (_, _, refl)
  next_nul state_in_dquote w out = (_, _, refl)
  next_nul state_in_quote w out = (_, _, refl)

  Ends-bind :
      (i : ℕ) (f : Flow) (m : Next) (k : Lex → Flow)
      (k' : LexState → List ℕ → List Token → LexResult × List Token)
      → Flows n i f m
      → ((l : Lex) (s : LexState) (w : List ℕ) (out : List Token)
          → m ≡ go s w out
          → Simulates n 0 i l s w out
          → Ends (k l) (k' s w out))
      → Ends (f >>= k) (elim m [ stop r ts ↦ (r, ts) | go s w ts ↦ k' s w ts ])
  Ends-bind i (more l) (go s w out) k k' h rest = rest l s w out refl h
  Ends-bind i (more l) (stop r out) k k' h rest = absurd h
  Ends-bind i (returns r d) (stop r' out) k k' h rest = h
  Ends-bind i (returns r d) (go s w out) k k' h rest = absurd h
  Ends-bind i stuck m k k' h rest = absurd (not-stuck m h)
    where
      not-stuck : (m' : Next) → Flows n i stuck m' → ⊥
      not-stuck (go s w out) x = x
      not-stuck (stop r out) x = x

  Ends-if :
      (b b' : Bool) (f f' : Flow) (m m' : LexResult × List Token)
      → b ≡ b'
      → Ends f m
      → (b' ≡ false → Ends f' m')
      → Ends (if b then f else f') (if b' then m else m')
  Ends-if true true f f' m m' e h h' = h
  Ends-if false false f f' m m' e h h' = h' refl
  Ends-if true false f f' m m' e h h' = cc
  Ends-if false true f f' m m' e h h' = cc

  -- Reading a character: the locals before its step.
  Simulates-read :
      (i : ℕ) (l : Lex) (s : LexState) (w : List ℕ) (out : List Token)
      → Simulates n 0 i l s w out
      → (i == max_line_size) ≡ false
      → Simulates n 1 (i + 1) (record l { command_line_index = l.command_line_index + 1 }) s w out
  Simulates-read i l s w out h e = record {
    same_state = h.same_state;
    counted = h.counted;
    held = h.held;
    sized = h.sized;
    at = omega arith;
    behind = omega arith;
    bounded = ground arith;
    few = omega arith;
    listed = h.listed;
  }

  read-Flows :
      (i : ℕ) (l : Lex) (s : LexState) (w : List ℕ) (out : List Token) (c : ℕ)
      → Simulates n 0 i l s w out
      → (i == max_line_size) ≡ false
      → Flows n
          (i + 1)
          (step plenty l.state c (record l { command_line_index = l.command_line_index + 1 }))
          (next s w out c)
  read-Flows i l s w out c h e =
      let l' = record l { command_line_index = l.command_line_index + 1 } in
      Flows-left n (i + 1) _ _ (next s w out c) (ap (λ s'. step plenty s' c l') h.same_state)
        (step-Flows n small l' s w out c (Simulates-read i l s w out h e))

  same_test :
      (i : ℕ) (l : Lex) (s : LexState) (w : List ℕ) (out : List Token)
      → Simulates n 0 i l s w out
      → (l.command_line_index == max_line_size) ≡ (i == max_line_size)
  same_test i l s w out h = ap (λ k. k == max_line_size) h.at

  lex_loop-Ends :
      (line : List ℕ) (i : ℕ) (l : Lex) (s : LexState) (w : List ℕ) (out : List Token)
      → Simulates n 0 i l s w out
      → Ends (lex_loop plenty line l) (words i line s w out)
  unfolding lex_loop words
  lex_loop-Ends [] i l s w out h =
      Ends-if _ _ _ _ _ _ (same_test i l s w out h) (refl, h.listed)
        (λ e.
          Ends-bind (i + 1) _ (next s w out 0) (λ _. stuck) (λ s' w' ts. (lex_long, ts))
            (read-Flows i l s w out 0 h e) (λ l' s' w' ts g _. cc (g, (next_nul s w out).2)))
  lex_loop-Ends (c ∷ cs) i l s w out h =
      Ends-if _ _ _ _ _ _ (same_test i l s w out h) (refl, h.listed)
        (λ e.
          Ends-bind (i + 1) _ (next s w out c) (lex_loop plenty cs) (words (i + 1) cs)
            (read-Flows i l s w out c h e)
            (λ l' s' w' ts _ h'. lex_loop-Ends cs (i + 1) l' s' w' ts h'))

  Ends-returns :
      (f : Flow) (p : LexResult × List Token)
      → Ends f p
      → (r : LexResult) × (d : DynArray Token) × (f ≡ returns r d)
        × (r ≡ p.0)
        × Represents d (pointers p.1)
  Ends-returns (returns r d) p h = (r, d, refl, h.0, h.1)
  Ends-returns (more l) p h = absurd h
  Ends-returns stuck p h = absurd h

-- With memory enough, lex_line returns on every line, whatever its buffer held at first: every
-- access is within bounds, no assertion fails, the result is the one of the automaton on lists,
-- and the array holds the tokens it had and those that the automaton adds.
pub lex_line-Ends :
    (junk line : List ℕ) (tokens : DynArray Token) (old : List Token)
    → length junk ≡ max_line_size
    → Represents tokens (pointers old)
    → length (pointers old) < 2 ^ 28
    → (r : LexResult) × (d : DynArray Token) × (lex_line plenty junk line tokens ≡ returns r d)
      × (r ≡ (words 0 line state_start [] old).0)
      × Represents d (pointers (words 0 line state_start [] old).1)
unfolding lex_line
lex_line-Ends junk line tokens old sized listed few =
    Ends-returns (length (pointers old)) (omega arith) _ _ (
      lex_loop-Ends (length (pointers old)) (omega arith) line 0 _ state_start [] old (record {
        same_state = refl;
        counted = refl;
        held = tt;
        sized = sized;
        at = refl;
        behind = omega arith;
        bounded = omega arith;
        few = omega arith;
        listed = listed;
      }))
