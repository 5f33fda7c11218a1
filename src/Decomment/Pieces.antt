-- ===== src/Decomment/Pieces.antt =====
-- SP_LAB1/decomment.c against a description of source texts: a list of pieces, each of which is a
-- character of code, a division sign, a literal or a comment.
use fall_snu_system_pro.Base.{
  ℕ, Bool, true, false, not, ◌&&◌, ◌||◌, none, List, [], ◌∷◌, ◌++◌, ◌≡◌, refl, sym, ap, subst, ◌∙◌,
  arith, ◌==◌, if◌then◌else◌, append_assoc,
}
use fall_snu_system_pro.Decomment.{State, transition_state, execute_action}
use fall_snu_system_pro.Decomment.Emit.{emit, reach, main-emit}
use fall_snu_system_pro.Decomment.Lines.{newlines, no_close, starts, in_block, main-exit_failure}
use fall_snu_system_pro.Decomment.Main.{main}

pub data Piece : Type 0 where
  code : ℕ → Piece
  divide : ℕ → Piece
  character string line_comment block_comment : List ℕ → Piece

-- The piece in the source text.
abbrev pub text : Piece → List ℕ
text (code c) = c ∷ []
text (divide c) = b'/' ∷ c ∷ []
text (character body) = b'\'' ∷ (body ++ b'\'' ∷ [])
text (string body) = b'"' ∷ (body ++ b'"' ∷ [])
text (line_comment body) = b'/' ∷ b'/' ∷ (body ++ b'\n' ∷ [])
text (block_comment body) = b'/' ∷ b'*' ∷ (body ++ b'*' ∷ b'/' ∷ [])

-- The newlines of a text, in order.
abbrev pub newlines_of : List ℕ → List ℕ
newlines_of [] = []
newlines_of (c ∷ cs) = let rest = newlines_of cs in if c == b'\n' then b'\n' ∷ rest else rest

-- The piece in the output: a comment is a space and its newlines.
abbrev pub cleaned : Piece → List ℕ
cleaned (line_comment body) = b' ' ∷ b'\n' ∷ []
cleaned (block_comment body) = b' ' ∷ newlines_of body
cleaned p = text p

-- The body of a literal between `quote` signs, where a backslash takes the next character along.
abbrev pub quoted : ℕ → Bool → List ℕ → Bool
quoted quote escaped [] = not escaped
quoted quote true (c ∷ cs) = quoted quote false cs
quoted quote false (c ∷ cs) = if c == quote then false else quoted quote (c == b'\\') cs

abbrev pub is_code : ℕ → Bool
is_code c = not (c == b'/' || c == b'\'' || c == b'"')

abbrev pub is_piece : Piece → Bool
is_piece (code c) = is_code c
is_piece (divide c) = is_code c && not (c == b'*')
is_piece (character body) = quoted b'\'' false body
is_piece (string body) = quoted b'"' false body
is_piece (line_comment body) = newlines body == 0
is_piece (block_comment body) = no_close (body ++ b'*' ∷ [])

abbrev pub all_pieces : List Piece → Bool
all_pieces [] = true
all_pieces (p ∷ ps) = is_piece p && all_pieces ps

abbrev pub texts : List Piece → List ℕ
texts [] = []
texts (p ∷ ps) = text p ++ texts ps

abbrev pub cleaned_texts : List Piece → List ℕ
cleaned_texts [] = []
cleaned_texts (p ∷ ps) = cleaned p ++ cleaned_texts ps

-- The automaton after a piece `t` of its input: it prints `out`, and goes on in state `s'`.
record Reads (s : State) (t : List ℕ) (out : List ℕ) (s' : State) : Type 0 where
  prints : (rest : List ℕ) → emit s (t ++ rest) ≡ out ++ emit s' rest
  ends : (rest : List ℕ) → reach s (t ++ rest) ≡ reach s' rest

Reads-cons :
    (s : State) (c : ℕ) {t out : List ℕ} {s' : State}
    → Reads (transition_state s c) t out s'
    → Reads s (c ∷ t) (execute_action s c ++ out) s'
unfolding emit reach
Reads-cons s c {t} {out} {s'} r = record {
  prints = λ rest.
      ap (◌++◌ (execute_action s c)) (r.prints rest)
      ∙ sym (append_assoc (execute_action s c) out (emit s' rest));
  ends = r.ends;
}

Reads-nil : (s : State) → Reads s [] [] s
Reads-nil s = record { prints = λ rest. refl; ends = λ rest. refl }

abbrev single : Bool → State
single escaped = if escaped then State.escape_seq_in_single_quote else State.inside_single_quote

abbrev double : Bool → State
double escaped = if escaped then State.escape_seq_in_double_quote else State.inside_double_quote

single-transition :
    (c : ℕ) (cs : List ℕ)
    → quoted b'\'' false (c ∷ cs) ≡ true
    → single (c == b'\\') ≡ transition_state State.inside_single_quote c
unfolding transition_state
single-transition c cs h = ground arith

double-transition :
    (c : ℕ) (cs : List ℕ)
    → quoted b'"' false (c ∷ cs) ≡ true
    → double (c == b'\\') ≡ transition_state State.inside_double_quote c
unfolding transition_state
double-transition c cs h = ground arith

Reads-single :
    (escaped : Bool) (body : List ℕ)
    → quoted b'\'' escaped body ≡ true
    → Reads (single escaped) (body ++ b'\'' ∷ []) (body ++ b'\'' ∷ []) State.normal_state
unfolding transition_state execute_action
Reads-single false [] h = Reads-cons State.inside_single_quote b'\'' (Reads-nil _)
Reads-single true [] h = cc
Reads-single true (c ∷ cs) h =
    Reads-cons State.escape_seq_in_single_quote c (Reads-single false cs h)
Reads-single false (c ∷ cs) h = Reads-cons State.inside_single_quote c (
    subst (λ s. Reads s (cs ++ b'\'' ∷ []) (cs ++ b'\'' ∷ []) State.normal_state)
      (single-transition c cs h) (Reads-single (c == b'\\') cs (ground arith)))

Reads-double :
    (escaped : Bool) (body : List ℕ)
    → quoted b'"' escaped body ≡ true
    → Reads (double escaped) (body ++ b'"' ∷ []) (body ++ b'"' ∷ []) State.normal_state
unfolding transition_state execute_action
Reads-double false [] h = Reads-cons State.inside_double_quote b'"' (Reads-nil _)
Reads-double true [] h = cc
Reads-double true (c ∷ cs) h =
    Reads-cons State.escape_seq_in_double_quote c (Reads-double false cs h)
Reads-double false (c ∷ cs) h = Reads-cons State.inside_double_quote c (
    subst (λ s. Reads s (cs ++ b'"' ∷ []) (cs ++ b'"' ∷ []) State.normal_state)
      (double-transition c cs h) (Reads-double (c == b'\\') cs (ground arith)))

Reads-line :
    (body : List ℕ)
    → newlines body ≡ 0
    → Reads State.inside_one_line_comment (body ++ b'\n' ∷ []) (b'\n' ∷ []) State.normal_state
unfolding transition_state execute_action emit reach
Reads-line [] h = Reads-cons State.inside_one_line_comment b'\n' (Reads-nil _)
Reads-line (c ∷ cs) h = record {
  prints = λ rest. ground (arith, (Reads-line cs (ground arith)).prints rest);
  ends = λ rest. ground (arith, (Reads-line cs (ground arith)).ends rest);
}

abbrev block : Bool → State
block starred =
    if starred
    then State.asterisk_received_initially_in_comment
    else State.inside_multi_line_comment

Reads-block :
    (starred : Bool) (body : List ℕ)
    → no_close (body ++ b'*' ∷ []) ≡ true
    → (starred ≡ true → starts b'/' (body ++ b'*' ∷ []) ≡ false)
    → Reads (block starred) (body ++ b'*' ∷ b'/' ∷ []) (newlines_of body) State.normal_state
unfolding transition_state execute_action emit reach
Reads-block true [] h a = record { prints = λ rest. refl; ends = λ rest. refl }
Reads-block false [] h a = record { prints = λ rest. refl; ends = λ rest. refl }
Reads-block true (c ∷ cs) h a =
    let later = Reads-block (c == b'*') cs (ground arith) (ground arith) in
    record {
      prints = λ rest. ground (arith, a refl, later.prints rest);
      ends = λ rest. ground (arith, a refl, later.ends rest);
    }
Reads-block false (c ∷ cs) h a =
    let later = Reads-block (c == b'*') cs (ground arith) (ground arith) in
    record {
      prints = λ rest. ground (arith, later.prints rest);
      ends = λ rest. ground (arith, later.ends rest);
    }

Reads-piece :
    (p : Piece)
    → is_piece p ≡ true
    → Reads State.normal_state (text p) (cleaned p) State.normal_state
unfolding transition_state execute_action emit reach
Reads-piece (code c) h = record { prints = λ rest. ground arith; ends = λ rest. ground arith }
Reads-piece (divide c) h = record { prints = λ rest. ground arith; ends = λ rest. ground arith }
Reads-piece (character body) h = Reads-cons State.normal_state b'\'' (Reads-single false body h)
Reads-piece (string body) h = Reads-cons State.normal_state b'"' (Reads-double false body h)
Reads-piece (line_comment body) h =
    Reads-cons State.normal_state b'/'
      (Reads-cons State.slash_receive_initially b'/' (Reads-line body (ground arith)))
Reads-piece (block_comment body) h =
    Reads-cons State.normal_state b'/'
      (Reads-cons State.slash_receive_initially b'*' (Reads-block false body h (λ e. cc)))

emit-texts :
    (ps : List Piece)
    → all_pieces ps ≡ true
    → (emit State.normal_state (texts ps) ≡ cleaned_texts ps)
      × (reach State.normal_state (texts ps) ≡ State.normal_state)
unfolding emit reach
emit-texts [] h = (refl, refl)
emit-texts (p ∷ ps) h =
    let first = Reads-piece p (ground arith) in
    let (printed, ended) = emit-texts ps (ground arith) in
    (first.prints (texts ps) ∙ ap (◌++◌ (cleaned p)) printed, first.ends (texts ps) ∙ ended)

-- For a source text made of characters of code, literals, comments, and division signs that a
-- character of code other than a star follows directly, the program prints each line comment as a
-- space and a newline, each block comment as a space and its newlines, and everything else as it
-- stands, and it succeeds with no message.
pub main-texts :
    (ps : List Piece)
    → all_pieces ps ≡ true
    → ((main (texts ps)).stdout ≡ cleaned_texts ps)
      × ((main (texts ps)).exit_failure ≡ false)
      × ((main (texts ps)).stderr ≡ none)
main-texts ps h =
    let (printed, ended) = emit-texts ps h in
    (
      main-emit (texts ps) ∙ printed,
      (main-exit_failure (texts ps)).0 ∙ ap in_block ended,
      ground (arith, main-exit_failure (texts ps), ap in_block ended),
    )
