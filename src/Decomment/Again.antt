-- ===== src/Decomment/Again.antt =====
-- SP_LAB1/decomment.c: a text without comments is left alone.
use fall_snu_system_pro.Base.{ℕ, List, [], ◌∷◌, ◌≡◌, refl, arith}
use fall_snu_system_pro.Decomment.{State, transition_state, execute_action}
use fall_snu_system_pro.Decomment.Emit.{emit, main-emit}
use fall_snu_system_pro.Decomment.Main.{main}

-- The state in which the output of a state is read back.
abbrev resume : State → State
resume State.inside_single_quote = State.inside_single_quote
resume State.inside_double_quote = State.inside_double_quote
resume State.escape_seq_in_single_quote = State.escape_seq_in_single_quote
resume State.escape_seq_in_double_quote = State.escape_seq_in_double_quote
resume _ = State.normal_state

emit-emit : (s : State) (input : List ℕ) → emit (resume s) (emit s input) ≡ emit s input
unfolding emit execute_action transition_state
emit-emit State.normal_state [] = refl
emit-emit _ [] = refl
emit-emit State.normal_state (c ∷ cs) =
    ground (arith, emit-emit (transition_state State.normal_state c) cs)
emit-emit s (c ∷ cs) = ground (arith, emit-emit (transition_state s c) cs)

-- Running the program on its own output changes nothing.
pub main-main : (input : List ℕ) → (main (main input).stdout).stdout ≡ (main input).stdout
main-main input =
    rw (main-emit (main input).stdout, main-emit input) (emit-emit State.normal_state input)
