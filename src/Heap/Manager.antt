-- ===== src/Heap/Manager.antt =====
-- SP_LAB3/src/heapmgr1.c: splitting and merging chunks, and the doubly linked list of free chunks.
-- The functions may write between two failed assertions; `none` is such a failure, or an access
-- outside of the memory.
pub mod Merge
use fall_snu_system_pro.Base.{
  ℕ, ◌+◌, ◌-◌, ◌%◌, ◌/◌, ◌^◌, Bool, true, false, ◌&&◌, Option, none, some, List, ◌==◌, ltb, leb,
  assert, ◌>>=◌,
}
use fall_snu_system_pro.Heap.Chunk.{
  Status, chunk_free, chunk_in_use, Chunk, Found, at, null, aborts, chunk_get_status,
  chunk_set_status, chunk_get_units, chunk_set_units, chunk_get_next_free_chunk,
  chunk_set_next_free_chunk, chunk_footer_set_units, chunk_footer_get_prev_free_chunk,
  chunk_footer_set_prev_free_chunk, chunk_get_next_adjacent, chunk_get_footer_from_header,
}

-- The memory, the ends of the heap and the global variable `g_free_head`.
pub record Heap : Type 0 where
  pub memory : List Chunk
  pub heap_start : ℕ
  pub heap_end : ℕ
  pub free_head : Option ℕ

-- A sum of two `size_t` wraps around.
unfoldable pub size_to_units : ℕ → ℕ
size_to_units size = (size + 15) % 2 ^ 64 / 16

abbrev pub is_free : Status → Bool
is_free chunk_free = true
is_free chunk_in_use = false

abbrev pub is_in_use : Status → Bool
is_in_use chunk_free = false
is_in_use chunk_in_use = true

abbrev pub is_at : Found → ℕ → Bool
is_at (at p) q = p == q
is_at null q = false
is_at aborts q = false

-- `chunk_get_footer_from_header` and the assertion that it is not NULL.
abbrev pub footer_of : Heap → List Chunk → ℕ → Option ℕ
footer_of h mem c = elim (chunk_get_footer_from_header mem c h.heap_start h.heap_end) [
  | at p ↦ some p
  | null ↦ none
  | aborts ↦ none
]

-- `merged_units` is an `int`: a sum that is too large for it is undefined, here `none`.
unfoldable pub merge_chunk : Heap → ℕ → ℕ → Option (ℕ × Heap)
merge_chunk h c1 c2 = do
  h ← assert (ltb c1 c2 && is_at (chunk_get_next_adjacent h.memory c1 h.heap_start h.heap_end) c2) h
  s1 ← chunk_get_status h.memory c1
  h ← assert (is_in_use s1) h
  s2 ← chunk_get_status h.memory c2
  h ← assert (is_in_use s2) h
  u1 ← chunk_get_units h.memory c1
  u2 ← chunk_get_units h.memory c2
  u1 ← assert (ltb (u1 + u2 + 2) (2 ^ 31)) u1
  mem ← chunk_set_units h.memory c1 (u1 + u2 + 2)
  footer ← footer_of h mem c1
  mem' ← chunk_footer_set_units mem footer (u1 + u2 + 2)
  mem'' ← chunk_footer_set_prev_free_chunk mem' footer none
  some (c1, record h { memory = mem'' })

-- The last step of `split_chunk`: the footer of the chunk behind it in the list, if there is one.
abbrev pub relink : Heap → List Chunk → Option ℕ → ℕ → Option (List Chunk)
relink h mem none c2 = some mem
relink h mem (some c3) c2 =
    footer_of h mem c3 >>= (λ footer. chunk_footer_set_prev_free_chunk mem footer (some c2))

-- `chunk_get_next_adjacent` in `split_chunk`, whose result is used without a test for NULL.
abbrev pub next_of : Heap → List Chunk → ℕ → Option ℕ
next_of h mem c = elim (chunk_get_next_adjacent mem c h.heap_start h.heap_end) [
  | at p ↦ some p
  | null ↦ none
  | aborts ↦ none
]

unfoldable pub split_chunk : Heap → ℕ → ℕ → Option (ℕ × Heap)
split_chunk h c units = do
  h ← assert (leb h.heap_start c && leb c h.heap_end) h
  s ← chunk_get_status h.memory c
  h ← assert (is_free s) h
  all_units ← chunk_get_units h.memory c
  h ← assert (ltb (units + 2) all_units) h
  c3 ← chunk_get_next_free_chunk h.memory c
  old ← footer_of h h.memory c
  c_prev ← chunk_footer_get_prev_free_chunk h.memory old
  m1 ← chunk_set_units h.memory c (all_units - units - 2)
  footer ← footer_of h m1 c
  m2 ← chunk_footer_set_units m1 footer (all_units - units - 2)
  m3 ← chunk_footer_set_prev_free_chunk m2 footer c_prev
  c2 ← next_of h m3 c
  m4 ← chunk_set_units m3 c2 units
  footer2 ← footer_of h m4 c2
  m5 ← chunk_footer_set_prev_free_chunk m4 footer2 (some c)
  m6 ← chunk_footer_set_units m5 footer2 units
  m7 ← chunk_set_status m6 c2 chunk_free
  m8 ← chunk_set_next_free_chunk m7 c (some c2)
  m9 ← chunk_set_next_free_chunk m8 c2 c3
  m ← relink h m9 c3 c2
  some (c2, record h { memory = m })

-- The `prev` of the old head, if there is one.
abbrev pub relink_head : Heap → List Chunk → ℕ → Option (List Chunk)
relink_head h mem c = elim h.free_head [
  | none ↦ some mem
  | some q ↦ footer_of h mem q >>= (λ footer. chunk_footer_set_prev_free_chunk mem footer (some c))
]

unfoldable pub insert_chunk : Heap → ℕ → Option Heap
insert_chunk h c = do
  u ← chunk_get_units h.memory c
  h ← assert (leb 1 u) h
  s ← chunk_get_status h.memory c
  h ← assert (is_free s) h
  footer ← footer_of h h.memory c
  m1 ← chunk_set_next_free_chunk h.memory c h.free_head
  m2 ← chunk_footer_set_prev_free_chunk m1 footer none
  m3 ← relink_head h m2 c
  some (record h { memory = m3; free_head = some c })

-- The four cases of `remove_chunk_from_list`, by `prev` and `next`.
abbrev pub unlink : Heap → Option ℕ → Option ℕ → Option Heap
unlink h none none = some (record h { free_head = none })
unlink h none (some next) = do
  footer ← footer_of h h.memory next
  m ← chunk_footer_set_prev_free_chunk h.memory footer none
  some (record h { memory = m; free_head = some next })
unlink h (some prev) none = do
  m ← chunk_set_next_free_chunk h.memory prev none
  some (record h { memory = m })
unlink h (some prev) (some next) = do
  footer ← footer_of h h.memory next
  m ← chunk_footer_set_prev_free_chunk h.memory footer (some prev)
  m' ← chunk_set_next_free_chunk m prev (some next)
  some (record h { memory = m' })

unfoldable pub remove_chunk_from_list : Heap → ℕ → Option Heap
remove_chunk_from_list h c = do
  s ← chunk_get_status h.memory c
  h ← assert (is_free s) h
  footer ← footer_of h h.memory c
  prev ← chunk_footer_get_prev_free_chunk h.memory footer
  next ← chunk_get_next_free_chunk h.memory c
  h' ← unlink h prev next
  m1 ← chunk_set_next_free_chunk h'.memory c none
  m2 ← chunk_footer_set_prev_free_chunk m1 footer none
  m3 ← chunk_set_status m2 c chunk_in_use
  some (record h' { memory = m3 })
