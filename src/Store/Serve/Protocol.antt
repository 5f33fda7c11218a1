-- ===== src/Store/Serve/Protocol.antt =====
-- SP_LAB5/src/skvslib.c: `skvs_serve` as a protocol over a finite map.
use fall_snu_system_pro.Base.{
  ℕ, suc, ◌+◌, ◌<◌, ◌≡◌, ap, ◌∙◌, arith, true, none, some, List, ◌∷◌, ◌++◌, length,
}
use fall_snu_system_pro.Store.Chain.{Memory, Result, done, not_done, internal_error}
use fall_snu_system_pro.Store.Table.{Table, size_limit}
use fall_snu_system_pro.Store.Table.Valid.{IsValid, lookup}
use fall_snu_system_pro.Store.Table.Map.{
  Map, memory_ok, create, change, remove, healthy, hash_search-Effect,
}
use fall_snu_system_pro.Store.Table.Create.{hash_insert-Effect}
use fall_snu_system_pro.Store.Table.Change.{hash_update-Effect}
use fall_snu_system_pro.Store.Table.Remove.{hash_delete-Effect}
use fall_snu_system_pro.Store.Parse.{buffer_size, uppercase}
use fall_snu_system_pro.Store.Parse.Requests.{
  Request, verb, request, is_request, parsed, skvs_parse-request,
}
use fall_snu_system_pro.Store.Serve.{
  Served, responds, msg_create_ok, msg_collision, msg_not_found, msg_update_ok, msg_delete_ok,
  msg_internal_err, serve_cmd, skvs_serve,
}

-- The text for a result.
abbrev pub message : List ℕ → List ℕ → Result → List ℕ
message ok failed done = ok
message ok failed not_done = failed
message ok failed internal_error = msg_internal_err

-- The protocol: the response to a request, and the map it leaves.
abbrev pub answer : Memory → Map → Request → List ℕ × Map
answer m f (Request.create k v) =
    let (r, g) = create (memory_ok m) f k v in (message msg_create_ok msg_collision r, g)
answer m f (Request.read k) = (elim (f k) [ none ↦ msg_not_found | some v ↦ v ], f)
answer m f (Request.update k v) =
    let (r, g) = change m.value_ok f k v in (message msg_update_ok msg_not_found r, g)
answer m f (Request.delete k) =
    let (r, g) = remove f k in (message msg_delete_ok msg_not_found r, g)

-- A call responds with the text, and leaves a valid table that holds the map.
pub record Answers (run : Served) (spec : List ℕ × Map) : Type 0 where
  pub table : Table
  pub response : run ≡ responds (some spec.0) table
  pub valid : IsValid table
  pub holds : (q : List ℕ) → lookup table q ≡ spec.1 q

serve_parsed :
    (self : ℕ) (m : Memory) (t : Table) (r : Request)
    → IsValid t
    → t.total_entries + 1 < size_limit
    → Answers
        (serve_cmd (healthy self m) t (parsed r).cmd (parsed r).key (parsed r).value)
        (answer m (lookup t) r)
unfolding serve_cmd
serve_parsed self m t (Request.create k v) ok room =
    let e = hash_insert-Effect t k ok self m v room in
    record {
      table = e.table;
      response = ground (arith, e.returns);
      valid = e.valid;
      holds = e.holds;
    }
serve_parsed self m t (Request.read k) ok room =
    let e = hash_search-Effect t k ok self m in
    record {
      table = e.table;
      response = ground (arith, e.returns);
      valid = e.valid;
      holds = e.holds;
    }
serve_parsed self m t (Request.update k v) ok room =
    let e = hash_update-Effect t k ok self m v in
    record {
      table = e.table;
      response = ground (arith, e.returns);
      valid = e.valid;
      holds = e.holds;
    }
serve_parsed self m t (Request.delete k) ok room =
    let e = hash_delete-Effect t k ok self m in
    record {
      table = e.table;
      response = ground (arith, e.returns);
      valid = e.valid;
      holds = e.holds;
    }

-- A request that a client sends (its verb in any case, its operands and a newline, with anything
-- behind it in the buffer), served on a valid table whose locks are free while the thread library
-- makes no error, is answered as the protocol over a finite map says: the response, the map that
-- is left, and a table that is valid again; for keys and values without NUL, newline and space,
-- keys of at most 32 characters, messages shorter than the buffer, and a counter of entries with
-- room for one more.
pub skvs_serve-request :
    (self : ℕ) (m : Memory) (t : Table) (name : List ℕ) (r : Request) (junk : List ℕ)
    → IsValid t
    → t.total_entries + 1 < size_limit
    → uppercase name ≡ verb r
    → is_request r ≡ true
    → suc (length (request name r)) < buffer_size
    → Answers
        (skvs_serve
          (healthy self m)
          t
          (request name r ++ b'\n' ∷ junk)
          (suc (length (request name r))))
        (answer m (lookup t) r)
unfolding skvs_serve
skvs_serve-request self m t name r junk ok room e h short =
    let a = serve_parsed self m t r ok room in
    record {
      table = a.table;
      response =
          ap (λ p. serve_cmd (healthy self m) t p.cmd p.key p.value)
            (skvs_parse-request name r junk e h short)
          ∙ a.response;
      valid = a.valid;
      holds = a.holds;
    }
