-- ===== src/Decomment/Lines.antt =====
-- SP_LAB1/decomment.c: newlines survive, and the reported line is the one of the open comment.
use fall_snu_system_pro.Base.{
  ℕ, ◌+◌, ◌^◌, ◌<◌, Bool, true, false, not, ◌&&◌, Option, none, some, List, [], ◌∷◌, ◌++◌, ◌≡◌,
  refl, ◌∙◌, append_assoc, append-nil, arith, ◌==◌, if◌then◌else◌,
}
use fall_snu_system_pro.Decomment.{State, transition_state, execute_action}
use fall_snu_system_pro.Decomment.Emit.{emit, reach, reach-append, main-emit, loop-reach}
use fall_snu_system_pro.Decomment.Main.{Loop, body, loop, initial, main, is_closed}

abbrev pub newlines : List ℕ → ℕ
newlines [] = 0
newlines (c ∷ cs) = (if c == b'\n' then 1 else 0) + newlines cs

newlines-append : (xs ys : List ℕ) → newlines (xs ++ ys) ≡ newlines xs + newlines ys
newlines-append [] ys = omega arith
newlines-append (x ∷ xs) ys = omega (arith, newlines-append xs ys)

newlines-execute_action : (s : State) (c : ℕ) → newlines (execute_action s c) ≡ newlines (c ∷ [])
unfolding execute_action
newlines-execute_action State.normal_state c = ground arith
newlines-execute_action _ c = ground arith

newlines-emit : (s : State) (input : List ℕ) → newlines (emit s input) ≡ newlines input
unfolding emit
newlines-emit s [] = refl
newlines-emit s (c ∷ cs) = omega (
  arith,
  newlines-append (execute_action s c) (emit (transition_state s c) cs),
  newlines-execute_action s c,
  newlines-emit (transition_state s c) cs,
)

-- The program prints exactly as many newlines as it reads, so line numbers stay valid.
pub newlines-main : (input : List ℕ) → newlines (main input).stdout ≡ newlines input
newlines-main input = rw (main-emit input) (newlines-emit State.normal_state input)

-- The states inside a `/* */` comment.
abbrev pub in_block : State → Bool
in_block State.inside_multi_line_comment = true
in_block State.asterisk_received_initially_in_comment = true
in_block _ = false

-- `line_com` is set exactly inside a block comment.
abbrev Tracks : State → Option ℕ → Type 0
Tracks s line = is_closed line ≡ not (in_block s)

body-Tracks :
    (s : State) (line : Option ℕ) (cur : ℕ) (out : List ℕ) (c : ℕ)
    → Tracks s line
    → let l = body (record { state = s; line_cur = cur; line_com = line; stdout = out }) c in
      Tracks l.state l.line_com
unfolding body transition_state
body-Tracks State.normal_state line cur out c h = ground arith
body-Tracks _ line cur out c h = ground arith

loop-Tracks :
    (l : Loop) (input : List ℕ)
    → Tracks l.state l.line_com
    → Tracks (loop l input).state (loop l input).line_com
unfolding loop
loop-Tracks l [] h = h
loop-Tracks l (c ∷ cs) h =
    loop-Tracks (body l c) cs (body-Tracks l.state l.line_com l.line_cur l.stdout c h)

pub main-exit_failure :
    (input : List ℕ)
    → ((main input).exit_failure ≡ in_block (reach State.normal_state input))
      × (is_closed (main input).stderr ≡ not (main input).exit_failure)
unfolding main
main-exit_failure input = ground (arith, loop-Tracks initial input refl, loop-reach initial input)

-- Whether the text starts with `c`.
abbrev pub starts : ℕ → List ℕ → Bool
starts c [] = false
starts c (x ∷ xs) = x == c

-- No `*` stands before a `/`: the text does not close a block comment.
abbrev pub no_close : List ℕ → Bool
no_close [] = true
no_close (c ∷ cs) = if c == b'*' && starts b'/' cs then false else no_close cs

-- What the loop knows at a line: the counters after reading `input`.
loop-line_cur :
    (l : Loop) (input : List ℕ)
    → l.line_cur + newlines input < 2 ^ 32
    → (loop l input).line_cur ≡ l.line_cur + newlines input
unfolding loop body
loop-line_cur l [] h = omega arith
loop-line_cur l (c ∷ cs) h = ground (arith, h, loop-line_cur (body l c) cs)

abbrev blocked : State → ℕ → ℕ → List ℕ → Loop
blocked s n cur out = record { state = s; line_cur = cur; line_com = some n; stdout = out }

-- Inside a block comment the remembered line stays.
loop-line_com :
    (s : State) (n cur : ℕ) (out input : List ℕ)
    → in_block s ≡ true
    → no_close input ≡ true
    → (s ≡ State.asterisk_received_initially_in_comment → starts b'/' input ≡ false)
    → (loop (blocked s n cur out) input).line_com ≡ some n
unfolding loop body transition_state
loop-line_com s n cur out [] b h a = refl
loop-line_com State.inside_multi_line_comment n cur out (c ∷ cs) b h a = ground (
  arith,
  loop-line_com (transition_state State.inside_multi_line_comment c) n
      (body (blocked State.inside_multi_line_comment n cur out) c).line_cur
      (body (blocked State.inside_multi_line_comment n cur out) c).stdout cs,
)
loop-line_com State.asterisk_received_initially_in_comment n cur out (c ∷ cs) b h a = ground (
  arith,
  a refl,
  loop-line_com (transition_state State.asterisk_received_initially_in_comment c) n
      (body (blocked State.asterisk_received_initially_in_comment n cur out) c).line_cur
      (body (blocked State.asterisk_received_initially_in_comment n cur out) c).stdout cs,
)
loop-line_com _ n cur out (c ∷ cs) b h a = cc

loop-append : (l : Loop) (xs ys : List ℕ) → loop l (xs ++ ys) ≡ loop (loop l xs) ys
unfolding loop
loop-append l [] ys = refl
loop-append l (x ∷ xs) ys = loop-append (body l x) xs ys

-- From code, `/*` opens a comment at the current line.
loop-open :
    (l : Loop) (text : List ℕ)
    → l.state ≡ State.normal_state
    → l.line_com ≡ none
    → no_close text ≡ true
    → (loop l (b'/' ∷ b'*' ∷ text)).line_com ≡ some l.line_cur
unfolding loop body transition_state
loop-open l text s c h = ground (
  arith,
  loop-line_com State.inside_multi_line_comment l.line_cur l.line_cur
      (body (body l b'/') b'*').stdout text refl h,
)

-- When code is followed by a comment opening and a text that does not close it, the program fails
-- and the message names the line that holds the opening; for texts with fewer than 2 ^ 31 - 1
-- newlines.
pub main_unterminated :
    (before text : List ℕ)
    → reach State.normal_state before ≡ State.normal_state
    → no_close text ≡ true
    → newlines before + newlines text + 1 < 2 ^ 31
    → ((main (before ++ b'/' ∷ b'*' ∷ text)).stderr ≡ some (1 + newlines before))
      × ((main (before ++ b'/' ∷ b'*' ∷ text)).exit_failure ≡ true)
unfolding main
main_unterminated before text r h few = ground (
  arith,
  loop-append initial before (b'/' ∷ b'*' ∷ text),
  loop-reach initial before,
  loop-Tracks initial before refl,
  loop-line_cur initial before (omega (arith, few)),
  loop-open (loop initial before) text,
)

-- When a text ends in code, a slash behind it that ends the input is lost: the program prints the
-- same without it.
pub main_last_slash :
    (before : List ℕ)
    → reach State.normal_state before ≡ State.normal_state
    → (main (before ++ b'/' ∷ [])).stdout ≡ (main before).stdout
unfolding main loop body execute_action
main_last_slash before r = ground (
  arith,
  loop-append initial before (b'/' ∷ []),
  loop-reach initial before,
  append-nil (loop initial before).stdout,
)

-- A string literal directly after a slash that stands in code is read as code: if it begins with
-- a comment opening, the program reports an unterminated comment, whatever else the literal and
-- the rest of the text hold, as long as no comment end comes; for texts with fewer than 2 ^ 31 -
-- 1 newlines.
pub main_slash_quote :
    (before literal : List ℕ)
    → reach State.normal_state before ≡ State.normal_state
    → no_close literal ≡ true
    → newlines before + newlines literal + 1 < 2 ^ 31
    → (main (before ++ b'/' ∷ b'"' ∷ b'/' ∷ b'*' ∷ literal)).exit_failure ≡ true
unfolding reach transition_state
main_slash_quote before literal r h few =
    let start = before ++ b'/' ∷ b'"' ∷ [] in
    rw (← append_assoc before (b'/' ∷ b'"' ∷ []) (b'/' ∷ b'*' ∷ literal))
      (main_unterminated start literal (reach-append State.normal_state before _ ∙ rw r refl) h
        (omega (arith, few, newlines-append before (b'/' ∷ b'"' ∷ [])))).1
