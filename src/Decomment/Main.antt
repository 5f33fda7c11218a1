-- ===== src/Decomment/Main.antt =====
-- SP_LAB1/decomment.c, `main`: the loop over standard input with the current line and the line
-- where the open comment began.
use fall_snu_system_pro.Base.{
  ℕ, ◌+◌, ◌%◌, ◌^◌, Bool, true, false, not, ◌&&◌, Option, none, some, List, [], ◌∷◌, ◌++◌, ◌==◌,
  if◌then◌else◌,
}
use fall_snu_system_pro.Decomment.{State, handle_state_transition}

abbrev pub is_multi_line : State → Bool
is_multi_line State.inside_multi_line_comment = true
is_multi_line _ = false

abbrev pub is_normal : State → Bool
is_normal State.normal_state = true
is_normal _ = false

-- `none` is `COMMENT_CLOSED`, -1, which no line number is.
abbrev pub is_closed : Option ℕ → Bool
is_closed none = true
is_closed (some l) = false

-- The locals of `main`, and what has been printed so far. `lineCur` is an `int`, here modulo 2 ^
-- 32: from 2 ^ 31 - 1 newlines on, C leaves it undefined.
pub record Loop : Type 0 where
  pub state : State
  pub line_cur : ℕ
  pub line_com : Option ℕ
  pub stdout : List ℕ

-- The two updates of `lineCom` in the body, in order.
abbrev pub track : State → ℕ → Option ℕ → Option ℕ
track state line line_com =
    let opened = if is_multi_line state && is_closed line_com then some line else line_com in
    if is_normal state && not (is_closed opened) then none else opened

-- One round of the `while` loop.
unfoldable pub body : Loop → ℕ → Loop
body l ch =
    let (next, printed) = handle_state_transition l.state ch in
    record {
      state = next;
      line_cur = if ch == b'\n' then (l.line_cur + 1) % 2 ^ 32 else l.line_cur;
      line_com = track next l.line_cur l.line_com;
      stdout = l.stdout ++ printed;
    }

unfoldable pub loop : Loop → List ℕ → Loop
loop l [] = l
loop l (ch ∷ input) = loop (body l ch) input

abbrev pub initial : Loop
initial = record { state = State.normal_state; line_cur = 1; line_com = none; stdout = [] }

-- `stderr` holds the line of the message of `printErrorLog`, if it was printed.
pub record Outcome : Type 0 where
  pub stdout : List ℕ
  pub stderr : Option ℕ
  pub exit_failure : Bool

abbrev finish : Loop → Outcome
finish l = record {
  stdout = l.stdout;
  stderr = l.line_com;
  exit_failure = not (is_closed l.line_com);
}

unfoldable pub main : List ℕ → Outcome
unfolding loop body
main input = finish (loop initial input)
