-- ===== src/Heap/Malloc/Tests.antt =====
-- SP_LAB3/src/heapmgr1.c: the theorems on allocation, at small runs.
use fall_snu_system_pro.Base.{
  ℕ, zero, suc, ◌+◌, ◌-◌, ◌*◌, ◌/◌, ◌%◌, ◌^◌, ◌≤◌, ◌≡◌, ◌⊎◌, refl, arith, true, Option, none, some,
  List, [], ◌∷◌, if◌then◌else◌, ◌==◌, length,
}
use fall_snu_system_pro.Heap.Chunk.{
  Status, Chunk, chunk_free, chunk_in_use, chunk_get_status, chunk_set_status, chunk_get_units,
  chunk_set_units, chunk_get_next_free_chunk, chunk_set_next_free_chunk, chunk_footer_get_units,
  chunk_footer_set_units, chunk_footer_get_prev_free_chunk, chunk_footer_set_prev_free_chunk,
  chunk_get_next_adjacent, chunk_get_prev_adjacent, chunk_get_footer_from_header, chunk_is_valid,
}
use fall_snu_system_pro.Heap.Manager.{
  Heap, size_to_units, insert_chunk, remove_chunk_from_list, split_chunk, merge_chunk,
}
use fall_snu_system_pro.Heap.Malloc.{
  check_adjacent, check_free, check_heap_validity, find_fit, take_fit, new_chunk, carve, use_new,
  allocate_more_memory, malloc_more, malloc_from, init_my_heap, heapmgr_malloc, free_chunk,
  heapmgr_free,
}
use fall_snu_system_pro.Heap.Blocks.{Block, find}
use fall_snu_system_pro.Heap.Blocks.Rep.{Rep, header_of, tail_of}
use fall_snu_system_pro.Heap.Blocks.Rep.Units.{Holds-moved}
use fall_snu_system_pro.Heap.FreeList.{shape, used, Listed, Relisted, Returned}
use fall_snu_system_pro.Heap.FreeList.Insert.{insert_chunk-Relisted}
use fall_snu_system_pro.Heap.FreeList.Remove.{remove_chunk_from_list-Relisted}
use fall_snu_system_pro.Heap.FreeList.Split.{split_chunk-Returned}
use fall_snu_system_pro.Heap.Malloc.Sound.{Sound}
use fall_snu_system_pro.Heap.Malloc.Check.{check_heap_validity-true}
use fall_snu_system_pro.Heap.Malloc.Alloc.{Grows}
use fall_snu_system_pro.Heap.Malloc.Manages.{
  Tracks, Served, entry, heapmgr_malloc-Manages, heapmgr_free-Manages,
}
use fall_snu_system_pro.Heap.Malloc.Session.{
  Session, opened, served, denied, Request, fits, perform, Session-disjoint, Session-returns,
}

abbrev unit : Chunk
unit = record { link = none; units = 0; status = chunk_in_use }

abbrev units_of : ℕ → List Chunk
units_of zero = []
units_of (suc n) = unit ∷ units_of n

-- A system that always has memory, in whole units.
abbrev sbrk : ℕ → Option (List Chunk)
sbrk n = if n % 16 == 0 then some (units_of (n / 16)) else none

-- A system that has no memory left.
abbrev empty : ℕ → Option (List Chunk)
empty n = none

abbrev after : Option (Option ℕ × Option Heap) → Option Heap
after none = none
after (some (p, state)) = state

abbrev pointer : Option (Option ℕ × Option Heap) → Option ℕ
pointer none = none
pointer (some (p, state)) = p

abbrev one : Option Heap
one = after (heapmgr_malloc sbrk (some []) none 100)

abbrev two : Option Heap
two = after (heapmgr_malloc sbrk (some []) one 200)

-- The first call asks the system for memory, and the second takes the end of what is left; a third
-- one is refused.
calls :
    (heapmgr_malloc sbrk (some []) none 100 ≡ some (some 1, one))
    × (heapmgr_malloc sbrk (some []) one 200 ≡ some (some 1012, two))
    × (heapmgr_malloc empty (some []) two 100000 ≡ some (none, two))
    × (fits two ≡ true)
unfolding heapmgr_malloc heapmgr_free free_chunk merge_chunk malloc_from malloc_more
    allocate_more_memory use_new carve new_chunk take_fit find_fit check_heap_validity
    check_adjacent check_free size_to_units init_my_heap insert_chunk remove_chunk_from_list
    split_chunk chunk_get_units chunk_set_units chunk_get_status chunk_set_status
    chunk_get_next_free_chunk chunk_set_next_free_chunk chunk_footer_set_units
    chunk_footer_get_units chunk_footer_get_prev_free_chunk chunk_footer_set_prev_free_chunk
    chunk_get_footer_from_header chunk_is_valid chunk_get_next_adjacent chunk_get_prev_adjacent
calls = (refl, refl, refl, refl)

-- A size near the limit rounds up to no units, and the check after the call fails.
oversized : heapmgr_malloc sbrk (some []) one (2 ^ 64 - 1) ≡ none
unfolding heapmgr_malloc heapmgr_free free_chunk merge_chunk malloc_from malloc_more
    allocate_more_memory use_new carve new_chunk take_fit find_fit check_heap_validity
    check_adjacent check_free size_to_units init_my_heap insert_chunk remove_chunk_from_list
    split_chunk chunk_get_units chunk_set_units chunk_get_status chunk_set_status
    chunk_get_next_free_chunk chunk_set_next_free_chunk chunk_footer_set_units
    chunk_footer_get_units chunk_footer_get_prev_free_chunk chunk_footer_set_prev_free_chunk
    chunk_get_footer_from_header chunk_is_valid chunk_get_next_adjacent chunk_get_prev_adjacent
oversized = refl

length-units_of : (n : ℕ) → length (units_of n) ≡ n
length-units_of zero = refl
length-units_of (suc n) = omega (arith, length-units_of n)

sbrk-Grows : Grows sbrk
sbrk-Grows n new small e = ground (arith, e, length-units_of (n / 16))

empty-Grows : Grows empty
empty-Grows n new small e = absurd (ground (arith, e))

-- The program holds both pointers, and a third request is refused.
session : Session [] two (entry (entry (λ p. none) 1 (some 100)) 1012 (some 200))
session =
    denied empty empty-Grows two two (entry (entry (λ p. none) 1 (some 100)) 1012 (some 200)) 100000
      (served sbrk sbrk-Grows one two (entry (λ p. none) 1 (some 100)) 1012 200
        (served sbrk sbrk-Grows none one (λ p. none) 1 100 opened (omega arith) (omega arith)
          calls.0)
        (omega arith) (omega arith) calls.1)
      (omega arith) (omega arith) calls.2

Session-disjoint_example : (16 * 1 + 100 ≤ 16 * 1012) ⊎ (16 * 1012 + 200 ≤ 16 * 1)
Session-disjoint_example =
    Session-disjoint [] two (entry (entry (λ p. none) 1 (some 100)) 1012 (some 200)) session 1 1012
      100 200 refl refl (ground arith)

Session-returns_example :
    (p : Option ℕ) × (state' : Option Heap) × (perform sbrk [] two (Request.give_back 1012)
      ≡ some (p, state'))
Session-returns_example =
    Session-returns [] sbrk sbrk-Grows two (entry (entry (λ p. none) 1 (some 100)) 1012 (some 200))
      session (Request.give_back 1012) (200, refl, calls.3)

heapmgr_malloc-Manages_example :
    Served sbrk (λ d. none) 100 (heapmgr_malloc sbrk (some []) none 100)
heapmgr_malloc-Manages_example =
    heapmgr_malloc-Manages sbrk sbrk-Grows [] none (λ d. none) 100 (λ d. refl) (omega arith)
      (omega arith)

-- A heap of one chunk of five units.
abbrev only : Status → Block
only st = record { units = 5; status = st; next = none; prev = none; unread = chunk_in_use }

abbrev tiny : Status → Option ℕ → Heap
tiny st head = record {
  memory = header_of (only st) ∷ unit ∷ unit ∷ unit ∷ unit ∷ unit ∷ tail_of (only st) ∷ [];
  heap_start = 0;
  heap_end = 7;
  free_head = head;
}

tiny-Rep : (st : Status) (head : Option ℕ) → Rep (tiny st head) (only st ∷ [])
unfolding find
tiny-Rep st head = record {
  ends = refl;
  sized = refl;
  holds = λ c b f.
      Holds-moved (tiny st head).memory 0 c (only st) b (ground (arith, f)) (ground (arith, f))
        (record { header = refl; footer = refl });
}

abbrev free_heap : Heap
free_heap = tiny chunk_free (some 0)

free_heap-Sound : Sound free_heap (only chunk_free ∷ []) (0 ∷ [])
unfolding find
free_heap-Sound = record {
  listed = record {
    rep = tiny-Rep chunk_free (some 0);
    linked = (refl, refl, refl);
    nodup = refl;
    free = λ c m. ground (arith, m);
  };
  tidy = record {
    all = λ d f. ground (arith, f);
    positive = λ d n f. ground (arith, f);
    coalesced = λ d n f. ground (arith, f);
  };
}

at_zero : (st : Status) → find 0 (only st ∷ []) 0 ≡ some (only st)
unfolding find
at_zero st = refl

check_heap_validity-true_example : check_heap_validity free_heap ≡ some true
check_heap_validity-true_example =
    check_heap_validity-true free_heap (only chunk_free ∷ []) (0 ∷ []) free_heap-Sound

remove_chunk_from_list-Relisted_example :
    Relisted free_heap (remove_chunk_from_list free_heap 0) [] (λ d.
      if 0 == d
      then used (shape (find 0 (only chunk_free ∷ []) d))
      else shape (find 0 (only chunk_free ∷ []) d))
remove_chunk_from_list-Relisted_example =
    remove_chunk_from_list-Relisted free_heap (only chunk_free ∷ []) (0 ∷ []) free_heap-Sound.listed
      0 (only chunk_free) (at_zero chunk_free) refl

split_chunk-Returned_example : Returned free_heap (split_chunk free_heap 0 1) 4 (0 ∷ 4 ∷ []) (λ d.
    if 0 == d
    then some (2, chunk_free)
    else if 4 == d
    then some (1, chunk_free)
    else shape (find 0 (only chunk_free ∷ []) d))
split_chunk-Returned_example =
    split_chunk-Returned free_heap (only chunk_free ∷ []) (0 ∷ []) free_heap-Sound.listed 0
      (only chunk_free) (at_zero chunk_free) refl 1 (omega arith)

abbrev loose_heap : Heap
loose_heap = tiny chunk_free none

loose_heap-Listed : Listed loose_heap (only chunk_free ∷ []) []
loose_heap-Listed = record {
  rep = tiny-Rep chunk_free none;
  linked = refl;
  nodup = refl;
  free = λ c m. absurd (ground (arith, m));
}

insert_chunk-Relisted_example :
    Relisted loose_heap
      (insert_chunk loose_heap 0)
      (0 ∷ [])
      (λ d. shape (find 0 (only chunk_free ∷ []) d))
insert_chunk-Relisted_example =
    insert_chunk-Relisted loose_heap (only chunk_free ∷ []) [] loose_heap-Listed 0 (only chunk_free)
      (at_zero chunk_free) refl (omega arith) refl

abbrev full_heap : Heap
full_heap = tiny chunk_in_use none

full_heap-Tracks : Tracks full_heap (entry (λ d. none) 0 (some 5))
unfolding find
full_heap-Tracks = record {
  blocks = only chunk_in_use ∷ [];
  list = [];
  sound = record {
    listed = record {
      rep = tiny-Rep chunk_in_use none;
      linked = refl;
      nodup = refl;
      free = λ c m. absurd (ground (arith, m));
    };
    tidy = record {
      all = λ d f. ground (arith, f);
      positive = λ d n f. ground (arith, f);
      coalesced = λ d n f. ground (arith, f);
    };
  };
  agrees = λ d. ground arith;
}

heapmgr_free-Manages_example :
    (h' : Heap) × (heapmgr_free (some full_heap) (some 1) ≡ some (some h'))
    × Tracks h' (entry (entry (λ d. none) 0 (some 5)) 0 none)
heapmgr_free-Manages_example =
    heapmgr_free-Manages full_heap (entry (λ d. none) 0 (some 5)) 0 5 full_heap-Tracks refl
      (omega arith)
