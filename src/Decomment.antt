-- ===== src/Decomment.antt =====
-- SP_LAB1/decomment.c: the automaton that removes comments. Characters are their codes, and an
-- action is the list of characters that it prints.
mod Tests
pub mod Main
pub mod Emit
pub mod Lines
pub mod Again
pub mod Pieces
use fall_snu_system_pro.Base.{ℕ, List, [], ◌∷◌, ◌==◌, if◌then◌else◌}

-- `enum State`
pub data State : Type 0 where
  normal_state slash_receive_initially : State
  inside_one_line_comment inside_multi_line_comment : State
  asterisk_received_initially_in_comment : State
  inside_single_quote inside_double_quote : State
  escape_seq_in_single_quote escape_seq_in_double_quote : State

unfoldable pub transition_from_normal_state : ℕ → State
transition_from_normal_state input =
    if input == b'/'
    then slash_receive_initially
    else if input == b'\''
    then inside_single_quote
    else if input == b'"'
    then inside_double_quote
    else normal_state

unfoldable pub transition_from_slash_receive_initially : ℕ → State
transition_from_slash_receive_initially input =
    if input == b'/'
    then inside_one_line_comment
    else if input == b'*'
    then inside_multi_line_comment
    else normal_state

unfoldable pub transition_from_inside_one_line_comment : ℕ → State
transition_from_inside_one_line_comment input =
    if input == b'\n' then normal_state else inside_one_line_comment

unfoldable pub transition_from_inside_multi_line_comment : ℕ → State
transition_from_inside_multi_line_comment input =
    if input == b'*' then asterisk_received_initially_in_comment else inside_multi_line_comment

unfoldable pub transition_from_asterisk_received_initially_in_comment : ℕ → State
transition_from_asterisk_received_initially_in_comment input =
    if input == b'/'
    then normal_state
    else if input == b'*'
    then asterisk_received_initially_in_comment
    else inside_multi_line_comment

unfoldable pub transition_from_inside_single_quote : ℕ → State
transition_from_inside_single_quote input =
    if input == b'\''
    then normal_state
    else if input == b'\\'
    then escape_seq_in_single_quote
    else inside_single_quote

unfoldable pub transition_from_inside_double_quote : ℕ → State
transition_from_inside_double_quote input =
    if input == b'"'
    then normal_state
    else if input == b'\\'
    then escape_seq_in_double_quote
    else inside_double_quote

unfoldable pub transition_from_escape_seq_in_single_quote : ℕ → State
transition_from_escape_seq_in_single_quote input = inside_single_quote

unfoldable pub transition_from_escape_seq_in_double_quote : ℕ → State
transition_from_escape_seq_in_double_quote input = inside_double_quote

unfoldable pub transition_state : State → ℕ → State
unfolding transition_from_normal_state transition_from_slash_receive_initially
    transition_from_inside_one_line_comment transition_from_inside_multi_line_comment
    transition_from_asterisk_received_initially_in_comment transition_from_inside_single_quote
    transition_from_inside_double_quote transition_from_escape_seq_in_single_quote
    transition_from_escape_seq_in_double_quote
transition_state normal_state input = transition_from_normal_state input
transition_state slash_receive_initially input = transition_from_slash_receive_initially input
transition_state inside_one_line_comment input = transition_from_inside_one_line_comment input
transition_state inside_multi_line_comment input = transition_from_inside_multi_line_comment input
transition_state asterisk_received_initially_in_comment input =
    transition_from_asterisk_received_initially_in_comment input
transition_state inside_single_quote input = transition_from_inside_single_quote input
transition_state inside_double_quote input = transition_from_inside_double_quote input
transition_state escape_seq_in_single_quote input = transition_from_escape_seq_in_single_quote input
transition_state escape_seq_in_double_quote input = transition_from_escape_seq_in_double_quote input

-- `printToStdout`: the one character it prints.
abbrev pub print_to_stdout : ℕ → List ℕ
print_to_stdout input = input ∷ []

unfoldable pub execute_action_from_normal_state : ℕ → List ℕ
execute_action_from_normal_state input = if input == b'/' then [] else print_to_stdout input

unfoldable pub execute_action_from_slash_receive_initially : ℕ → List ℕ
execute_action_from_slash_receive_initially input =
    if input == b'/'
    then print_to_stdout b' '
    else if input == b'*'
    then print_to_stdout b' '
    else b'/' ∷ print_to_stdout input

unfoldable pub execute_action_from_inside_one_line_comment : ℕ → List ℕ
execute_action_from_inside_one_line_comment input =
    if input == b'\n' then print_to_stdout b'\n' else []

unfoldable pub execute_action_from_inside_multi_line_comment : ℕ → List ℕ
execute_action_from_inside_multi_line_comment input =
    if input == b'\n' then print_to_stdout b'\n' else []

unfoldable pub execute_action_from_asterisk_received_initially_in_comment : ℕ → List ℕ
execute_action_from_asterisk_received_initially_in_comment input =
    if input == b'\n' then print_to_stdout b'\n' else []

unfoldable pub execute_action_from_inside_single_quote : ℕ → List ℕ
execute_action_from_inside_single_quote input = print_to_stdout input

unfoldable pub execute_action_from_inside_double_quote : ℕ → List ℕ
execute_action_from_inside_double_quote input = print_to_stdout input

unfoldable pub execute_action_from_escape_seq_in_single_quote : ℕ → List ℕ
execute_action_from_escape_seq_in_single_quote input = print_to_stdout input

unfoldable pub execute_action_from_escape_seq_in_double_quote : ℕ → List ℕ
execute_action_from_escape_seq_in_double_quote input = print_to_stdout input

unfoldable pub execute_action : State → ℕ → List ℕ
unfolding execute_action_from_normal_state execute_action_from_slash_receive_initially
    execute_action_from_inside_one_line_comment execute_action_from_inside_multi_line_comment
    execute_action_from_asterisk_received_initially_in_comment
    execute_action_from_inside_single_quote execute_action_from_inside_double_quote
    execute_action_from_escape_seq_in_single_quote execute_action_from_escape_seq_in_double_quote
execute_action normal_state input = execute_action_from_normal_state input
execute_action slash_receive_initially input = execute_action_from_slash_receive_initially input
execute_action inside_one_line_comment input = execute_action_from_inside_one_line_comment input
execute_action inside_multi_line_comment input = execute_action_from_inside_multi_line_comment input
execute_action asterisk_received_initially_in_comment input =
    execute_action_from_asterisk_received_initially_in_comment input
execute_action inside_single_quote input = execute_action_from_inside_single_quote input
execute_action inside_double_quote input = execute_action_from_inside_double_quote input
execute_action escape_seq_in_single_quote input =
    execute_action_from_escape_seq_in_single_quote input
execute_action escape_seq_in_double_quote input =
    execute_action_from_escape_seq_in_double_quote input

-- The next state, and what was printed.
abbrev pub handle_state_transition : State → ℕ → State × List ℕ
handle_state_transition current input =
    (transition_state current input, execute_action current input)
