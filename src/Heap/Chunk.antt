-- ===== src/Heap/Chunk.antt =====
-- SP_LAB3/src/chunk.c: chunks of memory with a header and a footer. Memory is a list of units, a
-- pointer is the number of a unit, and a header and a footer have the same layout.
pub mod Adjacent
use fall_snu_system_pro.Base.{
  ℕ, suc, ◌+◌, ◌-◌, Bool, true, false, not, Option, none, some, List, ◌==◌, ltb, leb, if◌then◌else◌,
  get_elem?, set,
}

pub data Status : Type 0 where
  chunk_free chunk_in_use : Status

-- `struct Chunk` and `struct Chunk_Footer`: `link` is `next` in a header and `prev` in a footer.
pub record Chunk : Type 0 where
  pub link : Option ℕ
  pub units : ℕ
  pub status : Status

-- The read of a field; `none` is an access outside of the memory.
abbrev pub read_field {ℓ} : {A : Type ℓ} → (Chunk → A) → List Chunk → ℕ → Option A
read_field f mem c = elim (get_elem? mem c) [ none ↦ none | some u ↦ some (f u) ]

abbrev pub write_field : (Chunk → Chunk) → List Chunk → ℕ → Option (List Chunk)
write_field f mem c = elim (get_elem? mem c) [ none ↦ none | some u ↦ some (set mem c (f u)) ]

unfoldable pub chunk_get_status : List Chunk → ℕ → Option Status
chunk_get_status = read_field (λ u. u.status)

unfoldable pub chunk_set_status : List Chunk → ℕ → Status → Option (List Chunk)
chunk_set_status mem c status = write_field (λ u. record u { status = status }) mem c

unfoldable pub chunk_get_units : List Chunk → ℕ → Option ℕ
chunk_get_units = read_field (λ u. u.units)

unfoldable pub chunk_set_units : List Chunk → ℕ → ℕ → Option (List Chunk)
chunk_set_units mem c units = write_field (λ u. record u { units = units }) mem c

unfoldable pub chunk_get_next_free_chunk : List Chunk → ℕ → Option (Option ℕ)
chunk_get_next_free_chunk = read_field (λ u. u.link)

unfoldable pub chunk_set_next_free_chunk : List Chunk → ℕ → Option ℕ → Option (List Chunk)
chunk_set_next_free_chunk mem c next = write_field (λ u. record u { link = next }) mem c

unfoldable pub chunk_footer_get_status : List Chunk → ℕ → Option Status
chunk_footer_get_status = read_field (λ u. u.status)

unfoldable pub chunk_footer_set_status : List Chunk → ℕ → Status → Option (List Chunk)
chunk_footer_set_status mem c status = write_field (λ u. record u { status = status }) mem c

unfoldable pub chunk_footer_get_units : List Chunk → ℕ → Option ℕ
chunk_footer_get_units = read_field (λ u. u.units)

unfoldable pub chunk_footer_set_units : List Chunk → ℕ → ℕ → Option (List Chunk)
chunk_footer_set_units mem c units = write_field (λ u. record u { units = units }) mem c

unfoldable pub chunk_footer_get_prev_free_chunk : List Chunk → ℕ → Option (Option ℕ)
chunk_footer_get_prev_free_chunk = read_field (λ u. u.link)

unfoldable pub chunk_footer_set_prev_free_chunk : List Chunk → ℕ → Option ℕ → Option (List Chunk)
chunk_footer_set_prev_free_chunk mem c prev = write_field (λ u. record u { link = prev }) mem c

-- The result of the functions below: a pointer, NULL, or a failed `assert` or bad access.
pub data Found : Type 0 where
  at : ℕ → Found
  null aborts : Found

-- `p < q` on pointers is `ltb`; a pointer less `k` is below `start` when it is below `start + k`.
abbrev pub above : ℕ → ℕ → ℕ → Found
above p k start = if ltb p (start + k) then null else at (p - k)

unfoldable pub chunk_get_next_adjacent : List Chunk → ℕ → ℕ → ℕ → Found
unfolding chunk_get_units
chunk_get_next_adjacent mem c start end' =
    if leb start c
    then elim (chunk_get_units mem c) [
      | none ↦ aborts
      | some units ↦ if leb end' (c + units + 2) then null else at (c + units + 2)
    ]
    else aborts

unfoldable pub chunk_get_prev_adjacent : List Chunk → ℕ → ℕ → ℕ → Found
unfolding chunk_footer_get_units
chunk_get_prev_adjacent mem c start end' =
    if leb c end'
    then if ltb c (start + 1) then null else elim (chunk_footer_get_units mem (c - 1)) [
      | none ↦ aborts
      | some units ↦ above (c - 1) (units + 1) start
    ]
    else aborts

unfoldable pub chunk_get_header_from_footer : List Chunk → ℕ → ℕ → ℕ → Found
unfolding chunk_footer_get_units
chunk_get_header_from_footer mem c start end' =
    if leb c end'
    then if leb start c
      then elim (chunk_footer_get_units mem c) [
        | none ↦ aborts
        | some units ↦ above c (units + 1) start
      ]
      else aborts
    else aborts

unfoldable pub chunk_get_footer_from_header : List Chunk → ℕ → ℕ → ℕ → Found
unfolding chunk_get_units
chunk_get_footer_from_header mem c start end' =
    if leb c end'
    then if leb start c
      then elim (chunk_get_units mem c) [
        | none ↦ aborts
        | some units ↦ if leb end' (c + units + 1) then null else at (c + units + 1)
      ]
      else aborts
    else aborts

-- Without the messages; `none` is an access outside of the memory.
unfoldable pub chunk_is_valid : List Chunk → ℕ → ℕ → ℕ → Option Bool
unfolding chunk_get_units
chunk_is_valid mem c start end' =
    if ltb c start
    then some false
    else if leb end' c
    then some false
    else elim (chunk_get_units mem c) [ none ↦ none | some units ↦ some (not (units == 0)) ]
