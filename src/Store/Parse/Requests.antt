-- ===== src/Store/Parse/Requests.antt =====
-- SP_LAB5/src/skvslib.c, `skvs_parse`: the requests of the protocol, written as a client sends them.
use fall_snu_system_pro.Base.{
  ℕ, suc, ◌<◌, ◌≡◌, refl, ap, arith, Bool, true, false, not, ◌&&◌, ◌||◌, none, some, List, [], ◌∷◌,
  ◌++◌, ◌==◌, leb, length, set,
}
use fall_snu_system_pro.Store.Chain.{same_string}
use fall_snu_system_pro.Store.Parse.{
  cmd_create, cmd_read, cmd_update, cmd_delete, buffer_size, max_key_len, g_cmds, uppercase,
  line_of, skip_spaces, split_space, token_of, strtok, Parsed, parse_value, parse_key, find_cmd,
  parse_line, skvs_parse,
}

pub data Request : Type 0 where
  create update : List ℕ → List ℕ → Request
  read delete : List ℕ → Request

abbrev pub verb : Request → List ℕ
verb (create k v) = b'C' ∷ b'R' ∷ b'E' ∷ b'A' ∷ b'T' ∷ b'E' ∷ []
verb (read k) = b'R' ∷ b'E' ∷ b'A' ∷ b'D' ∷ []
verb (update k v) = b'U' ∷ b'P' ∷ b'D' ∷ b'A' ∷ b'T' ∷ b'E' ∷ []
verb (delete k) = b'D' ∷ b'E' ∷ b'L' ∷ b'E' ∷ b'T' ∷ b'E' ∷ []

abbrev pub operands : Request → List ℕ
operands (create k v) = k ++ b' ' ∷ v
operands (read k) = k
operands (update k v) = k ++ b' ' ∷ v
operands (delete k) = k

-- A request with its verb spelled `name`, without the newline.
abbrev pub request : List ℕ → Request → List ℕ
request name r = name ++ b' ' ∷ operands r

-- No NUL, newline or space.
abbrev pub plain : List ℕ → Bool
plain [] = true
plain (c ∷ cs) = not (c == 0 || c == b'\n' || c == b' ') && plain cs

abbrev pub is_token : List ℕ → Bool
is_token [] = false
is_token (c ∷ cs) = plain (c ∷ cs)

abbrev pub is_key : List ℕ → Bool
is_key k = is_token k && leb (length k) max_key_len

abbrev pub is_request : Request → Bool
is_request (create k v) = is_key k && is_token v
is_request (read k) = is_key k
is_request (update k v) = is_key k && is_token v
is_request (delete k) = is_key k

abbrev pub parsed : Request → Parsed
parsed (create k v) = record { cmd = cmd_create; key = some k; value = some v }
parsed (read k) = record { cmd = cmd_read; key = some k; value = none }
parsed (update k v) = record { cmd = cmd_update; key = some k; value = some v }
parsed (delete k) = record { cmd = cmd_delete; key = some k; value = none }

split_space-token : (w rest : List ℕ) → plain w ≡ true → split_space (w ++ b' ' ∷ rest) ≡ (w, rest)
unfolding split_space
split_space-token [] rest h = refl
split_space-token (c ∷ cs) rest h = ground (arith, split_space-token cs rest)

split_space-last : (w : List ℕ) → plain w ≡ true → split_space w ≡ (w, [])
unfolding split_space
split_space-last [] h = refl
split_space-last (c ∷ cs) h = ground (arith, split_space-last cs)

strtok-token : (w rest : List ℕ) → is_token w ≡ true → strtok (w ++ b' ' ∷ rest) ≡ (some w, rest)
unfolding strtok skip_spaces token_of
strtok-token [] rest h = cc
strtok-token (c ∷ cs) rest h = ground (arith, split_space-token (c ∷ cs) rest)

strtok-last : (w : List ℕ) → is_token w ≡ true → strtok w ≡ (some w, [])
unfolding strtok skip_spaces token_of
strtok-last [] h = cc
strtok-last (c ∷ cs) h = ground (arith, split_space-last (c ∷ cs))

strtok-nil : strtok [] ≡ (none, [])
unfolding strtok skip_spaces token_of
strtok-nil = refl

-- One line, with spaces but no other separator.
abbrev inline : List ℕ → Bool
inline [] = true
inline (c ∷ cs) = not (c == 0 || c == b'\n') && inline cs

inline-append : (xs ys : List ℕ) → inline (xs ++ ys) ≡ (inline xs && inline ys)
inline-append [] ys = refl
inline-append (x ∷ xs) ys = ground (arith, inline-append xs ys)

plain-inline : (w : List ℕ) → plain w ≡ true → inline w ≡ true
plain-inline [] h = refl
plain-inline (c ∷ cs) h = ground (arith, plain-inline cs)

token-plain : (w : List ℕ) → is_token w ≡ true → plain w ≡ true
token-plain [] h = refl
token-plain (c ∷ cs) h = h

line_of-inline :
    (text rest : List ℕ) → inline text ≡ true → line_of (text ++ b'\n' ∷ rest) ≡ some text
unfolding line_of
line_of-inline [] rest h = refl
line_of-inline (c ∷ cs) rest h = ground (arith, line_of-inline cs rest)

set-behind :
    (text rest : List ℕ)
    → set (text ++ b'\n' ∷ rest) (suc (length text)) 0 ≡ text ++ b'\n' ∷ set rest 0 0
set-behind [] rest = refl
set-behind (c ∷ cs) rest = ap (◌∷◌ c) (set-behind cs rest)

uppercase-plain : (w : List ℕ) → plain (uppercase w) ≡ true → plain w ≡ true
uppercase-plain [] h = refl
uppercase-plain (c ∷ cs) h = ground (arith, uppercase-plain cs)

inline-request :
    (name : List ℕ) (r : Request)
    → plain name ≡ true
    → is_request r ≡ true
    → inline (request name r) ≡ true
inline-request name (create k v) p h = ground (
  arith,
  inline-append name (b' ' ∷ (k ++ b' ' ∷ v)),
  inline-append k (b' ' ∷ v),
  plain-inline name,
  plain-inline k,
  plain-inline v,
  token-plain k,
  token-plain v,
)
inline-request name (update k v) p h = ground (
  arith,
  inline-append name (b' ' ∷ (k ++ b' ' ∷ v)),
  inline-append k (b' ' ∷ v),
  plain-inline name,
  plain-inline k,
  plain-inline v,
  token-plain k,
  token-plain v,
)
inline-request name (read k) p h =
    ground (arith, inline-append name (b' ' ∷ k), plain-inline name, plain-inline k, token-plain k)
inline-request name (delete k) p h =
    ground (arith, inline-append name (b' ' ∷ k), plain-inline name, plain-inline k, token-plain k)

-- The loop over the commands finds the one of the verb.
find_cmd-verb :
    (r : Request) → is_request r ≡ true → find_cmd g_cmds (verb r) (operands r) ≡ parsed r
unfolding find_cmd same_string parse_key parse_value
find_cmd-verb (create k v) h = ground (arith, strtok-token k v, strtok-last v, strtok-nil)
find_cmd-verb (update k v) h = ground (arith, strtok-token k v, strtok-last v, strtok-nil)
find_cmd-verb (read k) h = ground (arith, strtok-last k, strtok-nil)
find_cmd-verb (delete k) h = ground (arith, strtok-last k, strtok-nil)

verb-plain : (name : List ℕ) (r : Request) → uppercase name ≡ verb r → is_token name ≡ true
verb-plain [] (create k v) e = cc
verb-plain [] (update k v) e = cc
verb-plain [] (read k) e = cc
verb-plain [] (delete k) e = cc
verb-plain (c ∷ cs) (create k v) e = uppercase-plain (c ∷ cs) (ap plain e)
verb-plain (c ∷ cs) (update k v) e = uppercase-plain (c ∷ cs) (ap plain e)
verb-plain (c ∷ cs) (read k) e = uppercase-plain (c ∷ cs) (ap plain e)
verb-plain (c ∷ cs) (delete k) e = uppercase-plain (c ∷ cs) (ap plain e)

-- A request whose verb is spelled in any case, with its operands and a newline, is parsed to its
-- command, key and value, whatever the buffer holds behind it: for keys and values without NUL,
-- newline and space, keys of at most 32 characters, and messages shorter than the buffer.
pub skvs_parse-request :
    (name : List ℕ) (r : Request) (junk : List ℕ)
    → uppercase name ≡ verb r
    → is_request r ≡ true
    → suc (length (request name r)) < buffer_size
    → skvs_parse (request name r ++ b'\n' ∷ junk) (suc (length (request name r))) ≡ parsed r
unfolding skvs_parse parse_line
skvs_parse-request name r junk e h short =
    let word = verb-plain name r e in
    let line = inline-request name r (token-plain name word) h in
    ground (
      arith,
      set-behind (request name r) junk,
      line_of-inline (request name r) (set junk 0 0) line,
      strtok-token name (operands r) word,
      e,
      find_cmd-verb r h,
    )
