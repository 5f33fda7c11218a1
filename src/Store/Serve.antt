-- ===== src/Store/Serve.antt =====
-- SP_LAB5/src/skvslib.c: the context, and `skvs_serve`, which answers one request.
pub mod Protocol
use fall_snu_system_pro.Base.{ℕ, Bool, Option, none, some, List, [], ◌∷◌, if◌then◌else◌}
use fall_snu_system_pro.Store.Chain.{Result, done, not_done, internal_error}
use fall_snu_system_pro.Store.RwLock.{Setup, Pointer, Code}
use fall_snu_system_pro.Store.Table.{
  Table, Env, Outcome, returned, blocked, fault, made, refused, undefined, hash_init, hash_destroy,
  hash_insert, hash_search, hash_update, hash_delete,
}
use fall_snu_system_pro.Store.Parse.{
  Cmd, cmd_incomplete, cmd_invalid, cmd_create, cmd_read, cmd_update, cmd_delete, Parsed,
  skvs_parse,
}

-- `g_msgs`
abbrev pub msg_invalid : List ℕ
msg_invalid = b'I' ∷ b'N' ∷ b'V' ∷ b'A' ∷ b'L' ∷ b'I' ∷ b'D' ∷ b' ' ∷ b'C' ∷ b'M' ∷ b'D' ∷ []

abbrev pub msg_create_ok : List ℕ
msg_create_ok = b'C' ∷ b'R' ∷ b'E' ∷ b'A' ∷ b'T' ∷ b'E' ∷ b' ' ∷ b'O' ∷ b'K' ∷ []

abbrev pub msg_collision : List ℕ
msg_collision = b'C' ∷ b'O' ∷ b'L' ∷ b'L' ∷ b'I' ∷ b'S' ∷ b'I' ∷ b'O' ∷ b'N' ∷ []

abbrev pub msg_not_found : List ℕ
msg_not_found = b'N' ∷ b'O' ∷ b'T' ∷ b' ' ∷ b'F' ∷ b'O' ∷ b'U' ∷ b'N' ∷ b'D' ∷ []

abbrev pub msg_update_ok : List ℕ
msg_update_ok = b'U' ∷ b'P' ∷ b'D' ∷ b'A' ∷ b'T' ∷ b'E' ∷ b' ' ∷ b'O' ∷ b'K' ∷ []

abbrev pub msg_delete_ok : List ℕ
msg_delete_ok = b'D' ∷ b'E' ∷ b'L' ∷ b'E' ∷ b'T' ∷ b'E' ∷ b' ' ∷ b'O' ∷ b'K' ∷ []

abbrev pub msg_internal_err : List ℕ
msg_internal_err =
    b'I' ∷ b'N' ∷ b'T' ∷ b'E' ∷ b'R' ∷ b'N' ∷ b'A' ∷ b'L' ∷ b' ' ∷ b'E' ∷ b'R' ∷ b'R' ∷ []

-- What `skvs_init` returns: the context with its table, or NULL. `no_context` is the access through
-- the NULL of a `calloc` that fails, which the code does not test.
-- `unknown` is where `hash_init` is undefined.
pub data Start : Type 0 where
  context : Table → Start
  no_table no_context unknown : Start

-- The first Boolean is whether the context's `calloc` succeeds, the second is for `hash_init`.
unfoldable pub skvs_init : Bool → Bool → (ℕ → Setup) → (ℕ → Pointer) → ℕ → ℕ → Start
skvs_init ctx_ok ok setup old hash_size delay =
    if ctx_ok
    then elim (hash_init ok setup old hash_size delay) [
      | made t ↦ context t
      | refused ↦ no_table
      | undefined ↦ unknown
    ]
    else no_context

-- The dump before it is output alone.
unfoldable pub skvs_destroy : (ℕ → Setup) → Table → Code
skvs_destroy setup t = hash_destroy setup t

-- The response, which may be NULL, and the table of the context. A call that waits for its lock is
-- `waiting`.
pub data Served : Type 0 where
  responds : Option (List ℕ) → Table → Served
  waiting : Table → Served
  crashes : Served

-- The response to the result of a table operation; `ok` is the one to success.
abbrev pub respond : (Option (List ℕ) → Option (List ℕ)) → List ℕ → Outcome → Served
respond ok failed (returned done value t) = responds (ok value) t
respond ok failed (returned not_done value t) = responds (some failed) t
respond ok failed (returned internal_error value t) = responds (some msg_internal_err) t
respond ok failed (blocked t) = waiting t
respond ok failed fault = crashes

-- A key or a value that is not set would be a NULL for the table.
abbrev pub with_key : Option (List ℕ) → (List ℕ → Served) → Served
with_key none serve = crashes
with_key (some key) serve = serve key

-- The `switch` of `skvs_serve`.
unfoldable pub serve_cmd : Env → Table → Cmd → Option (List ℕ) → Option (List ℕ) → Served
serve_cmd e t cmd_incomplete key value = responds none t
serve_cmd e t cmd_invalid key value = responds (some msg_invalid) t
serve_cmd e t cmd_create key value = with_key key (λ k.
    with_key value (λ v. respond (λ r. some msg_create_ok) msg_collision (hash_insert e t k v)))
serve_cmd e t cmd_read key value =
    with_key key (λ k. respond (λ r. r) msg_not_found (hash_search e t k))
serve_cmd e t cmd_update key value = with_key key (λ k.
    with_key value (λ v. respond (λ r. some msg_update_ok) msg_not_found (hash_update e t k v)))
serve_cmd e t cmd_delete key value =
    with_key key (λ k. respond (λ r. some msg_delete_ok) msg_not_found (hash_delete e t k))

unfoldable pub skvs_serve : Env → Table → List ℕ → ℕ → Served
unfolding skvs_parse serve_cmd
skvs_serve e t rbuf rlen = let p = skvs_parse rbuf rlen in serve_cmd e t p.cmd p.key p.value
