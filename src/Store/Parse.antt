-- ===== src/Store/Parse.antt =====
-- SP_LAB5/src/skvslib.c: `skvs_parse`, with the parts of the C library it uses. The buffer is a list
-- of characters; the server's is longer than the message.
pub mod Requests
use fall_snu_system_pro.Base.{
  ℕ, suc, ◌+◌, ◌-◌, Bool, true, false, not, ◌&&◌, Option, none, some, List, [], ◌∷◌, ◌==◌, ltb, leb,
  if◌then◌else◌, length, get_or, set,
}
use fall_snu_system_pro.Store.Chain.{same_string}

-- `enum CMD`
pub data Cmd : Type 0 where
  cmd_incomplete cmd_invalid cmd_create cmd_read cmd_update cmd_delete : Cmd

abbrev pub buffer_size : ℕ
buffer_size = 4096

abbrev pub max_key_len : ℕ
max_key_len = 32

-- `g_cmds`, each with its index.
abbrev pub g_cmds : List (List ℕ × Cmd)
g_cmds =
    (b'C' ∷ b'R' ∷ b'E' ∷ b'A' ∷ b'T' ∷ b'E' ∷ [], cmd_create)
    ∷ (b'R' ∷ b'E' ∷ b'A' ∷ b'D' ∷ [], cmd_read)
    ∷ (b'U' ∷ b'P' ∷ b'D' ∷ b'A' ∷ b'T' ∷ b'E' ∷ [], cmd_update)
    ∷ (b'D' ∷ b'E' ∷ b'L' ∷ b'E' ∷ b'T' ∷ b'E' ∷ [], cmd_delete)
    ∷ []

-- `toupper`
abbrev pub toupper : ℕ → ℕ
toupper c = if leb b'a' c && leb c b'z' then c - 32 else c

abbrev pub uppercase : List ℕ → List ℕ
uppercase [] = []
uppercase (c ∷ cs) = toupper c ∷ uppercase cs

-- The C string that starts the buffer, up to its NUL.
unfoldable pub c_text : List ℕ → List ℕ
c_text [] = []
c_text (c ∷ cs) = if c == 0 then [] else c ∷ c_text cs

-- The text before the first newline of a C string; `none` where `strstr` finds none.
unfoldable pub line_of : List ℕ → Option (List ℕ)
line_of [] = none
line_of (c ∷ cs) =
    let rest = line_of cs in
    if c == 0
    then none
    else if c == b'\n'
    then some []
    else elim rest [ none ↦ none | some l ↦ some (c ∷ l) ]

-- `strtok` with the separator " ": the token, and what is left for the next call.
unfoldable pub skip_spaces : List ℕ → List ℕ
skip_spaces [] = []
skip_spaces (c ∷ cs) = let rest = skip_spaces cs in if c == b' ' then rest else c ∷ cs

unfoldable pub split_space : List ℕ → List ℕ × List ℕ
split_space [] = ([], [])
split_space (c ∷ cs) =
    let (token, rest) = split_space cs in if c == b' ' then ([], cs) else (c ∷ token, rest)

unfoldable pub token_of : List ℕ → Option (List ℕ) × List ℕ
unfolding split_space
token_of [] = (none, [])
token_of (c ∷ cs) = let (token, rest) = split_space (c ∷ cs) in (some token, rest)

unfoldable pub strtok : List ℕ → Option (List ℕ) × List ℕ
unfolding skip_spaces token_of
strtok s = token_of (skip_spaces s)

-- What `skvs_parse` returns, and its two out parameters, which are NULL before.
pub record Parsed : Type 0 where
  pub cmd : Cmd
  pub key : Option (List ℕ)
  pub value : Option (List ℕ)

abbrev pub invalid : Option (List ℕ) → Option (List ℕ) → Parsed
invalid key value = record { cmd = cmd_invalid; key = key; value = value }

-- Whether the command takes a value.
abbrev pub takes_value : Cmd → Bool
takes_value cmd_create = true
takes_value cmd_update = true
takes_value _ = false

abbrev pub is_set : Option (List ℕ) → Bool
is_set none = false
is_set (some s) = true

-- The key and the value after a command that is known.
unfoldable pub parse_value : Cmd → List ℕ → List ℕ → Parsed
unfolding strtok
parse_value cmd key rest =
    let (value, rest') = strtok rest in
    let (extra, rest'') = strtok rest' in
    if not (takes_value cmd) && is_set value
    then invalid (some key) value
    else if takes_value cmd && not (is_set value)
    then invalid (some key) value
    else if is_set extra
    then invalid (some key) value
    else record { cmd = cmd; key = some key; value = value }

unfoldable pub parse_key : Cmd → List ℕ → Parsed
unfolding strtok parse_value
parse_key cmd rest =
    let (key, rest') = strtok rest in
    elim key [
      | none ↦ invalid none none
      | some k ↦
          if ltb max_key_len (length k) then invalid (some k) none else parse_value cmd k rest'
    ]

-- The loop over `g_cmds`.
unfoldable pub find_cmd : List (List ℕ × Cmd) → List ℕ → List ℕ → Parsed
unfolding parse_key
find_cmd [] name rest = invalid none none
find_cmd ((text, cmd) ∷ cmds) name rest =
    let later = find_cmd cmds name rest in
    if same_string name text then parse_key cmd rest else later

unfoldable pub parse_line : List ℕ → Parsed
unfolding strtok find_cmd
parse_line line =
    let (name, rest) = strtok line in
    elim name [ none ↦ invalid none none | some n ↦ find_cmd g_cmds (uppercase n) rest ]

unfoldable pub skvs_parse : List ℕ → ℕ → Parsed
unfolding line_of c_text parse_line
skvs_parse buffer len =
    if ltb buffer_size len
    then invalid none none
    else if len == buffer_size
    then if get_or buffer (buffer_size - 1) 0 == b'\n'
      then parse_line (c_text (set buffer (buffer_size - 1) 0))
      else invalid none none
    else elim (line_of (set buffer len 0)) [
      | none ↦ record { cmd = cmd_incomplete; key = none; value = none }
      | some line ↦ parse_line line
    ]
