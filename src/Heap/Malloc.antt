-- ===== src/Heap/Malloc.antt =====
-- SP_LAB3/src/heapmgr1.c: `heapmgr_malloc` and `heapmgr_free`, with the checks of the whole heap.
-- `sbrk` is what the system answers: the units that it adds for a number of bytes, or a failure.
-- The result `none` is a failed assertion, an access outside of the memory, or `exit`.
pub mod Sound
pub mod Check
pub mod Take
pub mod New
pub mod Carve
pub mod Grow
pub mod Absorb
pub mod Alloc
pub mod Neighbours
pub mod Before
pub mod Free
pub mod Manages
pub mod Written
pub mod Session
mod Tests
use fall_snu_system_pro.Base.{
  ℕ, zero, suc, ◌+◌, ◌-◌, ◌*◌, ◌%◌, ◌^◌, Bool, true, false, ◌&&◌, Option, none, some, List, ◌++◌,
  ◌==◌, ltb, leb, assert, ◌>>=◌, if◌then◌else◌, length,
}
use fall_snu_system_pro.Heap.Chunk.{
  Status, chunk_free, chunk_in_use, Chunk, Found, at, null, aborts, chunk_get_status,
  chunk_set_status, chunk_get_units, chunk_set_units, chunk_get_next_free_chunk,
  chunk_footer_set_units, chunk_footer_set_prev_free_chunk, chunk_get_next_adjacent,
  chunk_get_prev_adjacent, chunk_is_valid,
}
use fall_snu_system_pro.Heap.Manager.{
  Heap, size_to_units, is_free, is_in_use, footer_of, next_of, merge_chunk, split_chunk,
  insert_chunk, remove_chunk_from_list,
}

-- The walk over neighbours: it ends at NULL, or at an address that is not below the end.
unfoldable pub check_adjacent : ℕ → Heap → ℕ → Option Bool
check_adjacent zero h w = none
check_adjacent (suc fuel) h w =
    let rest = λ (q : ℕ). check_adjacent fuel h q in
    if ltb w h.heap_end
    then chunk_is_valid h.memory w h.heap_start h.heap_end >>= (λ valid.
      if valid
      then elim (chunk_get_next_adjacent h.memory w h.heap_start h.heap_end) [
        | at q ↦ rest q
        | null ↦ some true
        | aborts ↦ none
      ]
      else some false)
    else some true

-- The walk over the free list.
unfoldable pub check_free : ℕ → Heap → Option ℕ → Option Bool
check_free zero h w = none
check_free (suc fuel) h none = some true
check_free (suc fuel) h (some w) =
    let rest = λ (q : Option ℕ). check_free fuel h q in
    chunk_get_status h.memory w >>= (λ status.
      if is_free status
      then chunk_is_valid h.memory w h.heap_start h.heap_end
        >>= (λ valid. if valid then chunk_get_next_free_chunk h.memory w >>= rest else some false)
      else some false)

abbrev pub is_null : Option ℕ → Bool
is_null none = true
is_null (some c) = false

-- A walk visits fewer chunks than there are units.
abbrev pub fuel_of : Heap → ℕ
fuel_of h = suc (length h.memory)

unfoldable pub check_heap_validity : Heap → Option Bool
check_heap_validity h =
    if h.heap_start == h.heap_end
    then some (is_null h.free_head)
    else check_adjacent (fuel_of h) h h.heap_start
      >>= (λ valid. if valid then check_free (fuel_of h) h h.free_head else some false)

abbrev pub checked : Heap → Option Heap
checked h = check_heap_validity h >>= (λ valid. assert valid h)

-- The loop of `heapmgr_malloc`: the first chunk of the free list that is large enough.
unfoldable pub find_fit : ℕ → Heap → Option ℕ → ℕ → Option (Option ℕ)
find_fit zero h w units = none
find_fit (suc fuel) h none units = some none
find_fit (suc fuel) h (some w) units =
    let rest = λ (q : Option ℕ). find_fit fuel h q units in
    chunk_get_units h.memory w
    >>= (λ n. if leb units n then some (some w) else chunk_get_next_free_chunk h.memory w >>= rest)

-- The body of the loop for that chunk.
unfoldable pub take_fit : Heap → ℕ → ℕ → Option (ℕ × Heap)
take_fit h c units = do
  n ← chunk_get_units h.memory c
  r ← if ltb (units + 2) n then split_chunk h c units else some (c, h)
  h' ← remove_chunk_from_list r.1 r.0
  some (r.0, h')

-- The new memory, from `c` on, as one chunk.
unfoldable pub new_chunk : Heap → ℕ → ℕ → Option Heap
new_chunk h c units = do
  m1 ← chunk_set_units h.memory c units
  footer ← footer_of h m1 c
  m2 ← chunk_footer_set_units m1 footer units
  m3 ← chunk_footer_set_prev_free_chunk m2 footer none
  m4 ← chunk_set_status m3 c chunk_free
  some (record h { memory = m4 })

-- The end of the heap moves behind the new memory; `sbrk` returns the old end.
abbrev pub grown : Heap → List Chunk → Heap
grown h new = record h { memory = h.memory ++ new; heap_end = h.heap_end + length new }

abbrev pub at_least : ℕ → ℕ
at_least units = if ltb units 1024 then 1024 else units

-- A chunk behind the first `units` units of a larger one, for `heapmgr_malloc`.
unfoldable pub carve : Heap → ℕ → ℕ → ℕ → Option Heap
carve h c c_units units = do
  m1 ← chunk_set_units h.memory c units
  footer ← footer_of h m1 c
  m2 ← chunk_footer_set_units m1 footer units
  c2 ← next_of h m2 c
  m3 ← chunk_set_units m2 c2 (c_units - units - 2)
  footer2 ← footer_of h m3 c2
  m4 ← chunk_footer_set_units m3 footer2 (c_units - units - 2)
  m5 ← chunk_set_status m4 c2 chunk_free
  insert_chunk (record h { memory = m5 }) c2

-- What `heapmgr_malloc` makes of a chunk of new memory.
unfoldable pub use_new : Heap → ℕ → ℕ → Option Heap
use_new h c units = do
  c_units ← chunk_get_units h.memory c
  h ← assert (leb units c_units) h
  h' ← if ltb (units + 2) c_units then carve h c c_units units else some h
  m ← chunk_set_status h'.memory c chunk_in_use
  some (record h' { memory = m })

module _ (sbrk : ℕ → Option (List Chunk)) where
  unfoldable pub allocate_more_memory : Heap → ℕ → Option (Option ℕ × Heap)
  allocate_more_memory h units = elim (sbrk ((at_least units + 2) * 16 % 2 ^ 64)) [
    | none ↦ some (none, h)
    | some new ↦
        new_chunk (grown h new) h.heap_end (at_least units) >>= (λ h'. some (some h.heap_end, h'))
  ]

  -- After the loop found nothing.
  unfoldable pub malloc_more : Heap → ℕ → Option (Option ℕ × Heap)
  malloc_more h units = allocate_more_memory h units >>= (λ r. elim r.0 [
    | none ↦ checked r.1 >>= (λ h'. some (none, h'))
    | some c ↦ use_new r.1 c units >>= checked >>= (λ h'. some (some (c + 1), h'))
  ])

  -- `heapmgr_malloc` for a heap that is initialised. A pointer to data is one unit behind the header.
  unfoldable pub malloc_from : Heap → ℕ → Option (Option ℕ × Heap)
  malloc_from h size = do
    h ← checked h
    found ← find_fit (fuel_of h) h h.free_head (size_to_units size)
    elim found [
      | none ↦ malloc_more h (size_to_units size)
      | some c ↦ do
        r ← take_fit h c (size_to_units size)
        h' ← checked r.1
        some (some (r.0 + 1), h')
    ]

-- `initial` is the memory below the end of the data segment, which `sbrk(0)` returns.
unfoldable pub init_my_heap : Option (List Chunk) → Option Heap
init_my_heap none = none
init_my_heap (some initial) = some (record {
  memory = initial;
  heap_start = length initial;
  heap_end = length initial;
  free_head = none;
})

-- The heap once it is initialised, and `none` before the first call.
abbrev pub initialised : Option (List Chunk) → Option Heap → Option Heap
initialised initial none = init_my_heap initial
initialised initial (some h) = some h

unfoldable pub heapmgr_malloc :
    (ℕ → Option (List Chunk))
    → Option (List Chunk)
    → Option Heap
    → ℕ
    → Option (Option ℕ × Option Heap)
heapmgr_malloc sbrk initial state size =
    if size == 0
    then some (none, state)
    else initialised initial state
      >>= (λ h. malloc_from sbrk h size)
      >>= (λ r. some (r.0, some r.1))

-- A neighbour that is free is removed from the list and merged with the chunk.
abbrev pub merge_next : Heap → ℕ → Found → Option (ℕ × Heap)
merge_next h c aborts = none
merge_next h c null = some (c, h)
merge_next h c (at next) = chunk_get_status h.memory next >>= (λ status.
    if is_free status
    then remove_chunk_from_list h next >>= (λ h'. merge_chunk h' c next)
    else some (c, h))

abbrev pub merge_prev : Heap → ℕ → Found → Option (ℕ × Heap)
merge_prev h c aborts = none
merge_prev h c null = some (c, h)
merge_prev h c (at prev) = chunk_get_status h.memory prev >>= (λ status.
    if is_free status
    then remove_chunk_from_list h prev >>= (λ h'. merge_chunk h' prev c)
    else some (c, h))

-- `heapmgr_free` from the chunk on.
unfoldable pub free_chunk : Heap → ℕ → Option Heap
free_chunk h c = do
  status ← chunk_get_status h.memory c
  h ← assert (is_in_use status) h
  r ← merge_next h c (chunk_get_next_adjacent h.memory c h.heap_start h.heap_end)
  r' ← merge_prev r.1 r.0 (chunk_get_prev_adjacent h.memory c h.heap_start h.heap_end)
  m ← chunk_set_status r'.1.memory r'.0 chunk_free
  insert_chunk (record r'.1 { memory = m }) r'.0

-- Before the initialisation the check fails.
unfoldable pub heapmgr_free : Option Heap → Option ℕ → Option (Option Heap)
heapmgr_free state none = some state
heapmgr_free none (some m) = none
heapmgr_free (some h) (some m) = do
  h ← checked h
  h ← assert (leb (h.heap_start + 1) m && ltb (m - 1) h.heap_end) h
  h' ← free_chunk h (m - 1)
  h'' ← checked h'
  some (some h'')
