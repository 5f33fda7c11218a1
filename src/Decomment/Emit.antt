-- ===== src/Decomment/Emit.antt =====
-- SP_LAB1/decomment.c: the output of the loop with no accumulator.
use fall_snu_system_pro.Base.{ℕ, List, [], ◌∷◌, ◌++◌, ◌≡◌, refl, sym, ◌∙◌, append_assoc, append-nil}
use fall_snu_system_pro.Decomment.{State, transition_state, execute_action}
use fall_snu_system_pro.Decomment.Main.{Loop, body, loop, initial, main}

-- What the automaton prints from a state on, and the state that it ends in.
unfoldable pub emit : State → List ℕ → List ℕ
emit s [] = []
emit s (c ∷ cs) = execute_action s c ++ emit (transition_state s c) cs

unfoldable pub reach : State → List ℕ → State
reach s [] = s
reach s (c ∷ cs) = reach (transition_state s c) cs

pub loop-emit : (l : Loop) (input : List ℕ) → (loop l input).stdout ≡ l.stdout ++ emit l.state input
unfolding loop body emit
loop-emit l [] = sym (append-nil l.stdout)
loop-emit l (c ∷ cs) =
    loop-emit (body l c) cs
    ∙ append_assoc l.stdout (execute_action l.state c) (emit (transition_state l.state c) cs)

pub loop-reach : (l : Loop) (input : List ℕ) → (loop l input).state ≡ reach l.state input
unfolding loop body reach
loop-reach l [] = refl
loop-reach l (c ∷ cs) = loop-reach (body l c) cs

pub main-emit : (input : List ℕ) → (main input).stdout ≡ emit State.normal_state input
unfolding main
main-emit input = loop-emit initial input

pub reach-append : (s : State) (xs ys : List ℕ) → reach s (xs ++ ys) ≡ reach (reach s xs) ys
unfolding reach
reach-append s [] ys = refl
reach-append s (x ∷ xs) ys = reach-append (transition_state s x) xs ys
