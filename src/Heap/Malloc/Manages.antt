-- ===== src/Heap/Malloc/Manages.antt =====
-- SP_LAB3/src/heapmgr1.c: the heap manager as a table of allocated chunks.
use fall_snu_system_pro.Base.{
  ℕ, ◌+◌, ◌-◌, ◌*◌, ◌^◌, ◌≤◌, ◌<◌, ◌≡◌, ◌≢◌, ◌⊎◌, inl, inr, refl, sym, ap, ◌∙◌, arith, Option, none,
  some, List, [], if◌then◌else◌, ◌==◌, length,
}
use fall_snu_system_pro.Heap.Chunk.{Status, Chunk, chunk_free, chunk_in_use}
use fall_snu_system_pro.Heap.Blocks.{Block, find, find-in}
use fall_snu_system_pro.Heap.Manager.{Heap, size_to_units}
use fall_snu_system_pro.Heap.Malloc.{
  heapmgr_malloc, heapmgr_free, init_my_heap, free_chunk, at_least,
}
use fall_snu_system_pro.Heap.Malloc.Sound.{Sound, shapes_of, live, shape_found, shape-apart}
use fall_snu_system_pro.Heap.Malloc.Check.{checked_lem}
use fall_snu_system_pro.Heap.Malloc.Alloc.{Grows, malloc_from-Allocated}
use fall_snu_system_pro.Heap.Malloc.Free.{free_chunk-Freed}

-- The heap is sound, and `table` has the units of each allocated chunk.
pub record Tracks (h : Heap) (table : ℕ → Option ℕ) : Type 0 where
  pub blocks : List Block
  pub list : List ℕ
  pub sound : Sound h blocks list
  pub agrees : (d : ℕ) → table d ≡ live (shapes_of h blocks d)

-- Before the first call nothing is allocated.
abbrev pub Manages : Option Heap → (ℕ → Option ℕ) → Type 0
Manages none table = (d : ℕ) → table d ≡ none
Manages (some h) table = Tracks h table

abbrev pub entry : (ℕ → Option ℕ) → ℕ → Option ℕ → ℕ → Option ℕ
entry table c v d = if c == d then v else table d

pub live_shape : (o : Option (ℕ × Status)) (n : ℕ) → live o ≡ some n → o ≡ some (n, chunk_in_use)
live_shape none n e = absurd (ground (arith, e))
live_shape (some (m, chunk_free)) n e = absurd (ground (arith, e))
live_shape (some (m, chunk_in_use)) n e = ground (arith, e)

-- A heap that holds nothing.
init-Tracks :
    (initial : List Chunk)
    → Tracks
        (record {
          memory = initial;
          heap_start = length initial;
          heap_end = length initial;
          free_head = none;
        })
        (λ d. none)
unfolding find
init-Tracks initial = record {
  blocks = [];
  list = [];
  sound = record {
    listed = record {
      rep = record {
        ends = omega arith;
        sized = refl;
        holds = λ c b f. absurd (ground (arith, f));
      };
      linked = refl;
      nodup = refl;
      free = λ c m. absurd (ground (arith, m));
    };
    tidy = record {
      all = λ d f. absurd (ground (arith, f));
      positive = λ d n f. absurd (ground (arith, f));
      coalesced = λ d n f. refl;
    };
  };
  agrees = λ d. refl;
}

units-bounds :
    (size : ℕ)
    → 0 < size
    → size < 2 ^ 34
    → (0 < size_to_units size) × (size_to_units size < 2 ^ 31) × (size ≤ 16 * size_to_units size)
unfolding size_to_units
units-bounds size pos small = (omega arith, omega arith, omega arith)

-- What a call of `heapmgr_malloc` may give: a chunk that was not allocated, or NULL where `sbrk`
-- refuses.
pub data Served (sbrk : ℕ → Option (List Chunk)) (table : ℕ → Option ℕ) (size : ℕ)
    (run : Option (Option ℕ × Option Heap)) : Type 0 where
  granted :
      (c n : ℕ) (h : Heap)
      → run ≡ some (some (c + 1), some h)
      → table c ≡ none
      → size ≤ 16 * n
      → Tracks h (entry table c (some n))
      → Served sbrk table size run
  refused :
      (h : Heap)
      → run ≡ some (none, some h)
      → sbrk ((at_least (size_to_units size) + 2) * 16) ≡ none
      → Tracks h table
      → Served sbrk table size run

Tracks-same :
    (h : Heap) (table table' : ℕ → Option ℕ)
    → ((d : ℕ) → table' d ≡ table d)
    → Tracks h table
    → Tracks h table'
Tracks-same h table table' same t = record {
  blocks = t.blocks;
  list = t.list;
  sound = t.sound;
  agrees = λ d. same d ∙ t.agrees d;
}

-- The same for an equal run and a table with the same entries.
served_as :
    (sbrk : ℕ → Option (List Chunk)) (table table' : ℕ → Option ℕ) (size : ℕ)
    (run run' : Option (Option ℕ × Option Heap))
    → run' ≡ run
    → ((d : ℕ) → table' d ≡ table d)
    → Served sbrk table size run
    → Served sbrk table' size run'
served_as sbrk table table' size run run' eq same (granted c n h e f l t) =
    granted c n h (eq ∙ e) (same c ∙ f) l (
      Tracks-same h (entry table c (some n)) (entry table' c (some n)) (λ d. ground (arith, same d))
        t)
served_as sbrk table table' size run run' eq same (refused h e f t) =
    refused h (eq ∙ e) f (Tracks-same h table table' same t)

module _ (sbrk : ℕ → Option (List Chunk)) (grows : Grows sbrk) (initial : List Chunk) where
  malloc-Tracks :
      (h : Heap) (table : ℕ → Option ℕ) (size : ℕ)
      → Tracks h table
      → 0 < size
      → size < 2 ^ 34
      → Served sbrk table size (heapmgr_malloc sbrk (some initial) (some h) size)
  unfolding heapmgr_malloc
  malloc-Tracks h table size t pos small =
      let u = units-bounds size pos small in
      elim (malloc_from-Allocated sbrk grows h t.blocks t.list t.sound (size_to_units size) u.0 u.1
        size refl) [
          | inl (e, no_memory, smaller) ↦ refused h (ground (arith, e, pos)) no_memory t
          | inr (c, h', e, a) ↦
              granted a.chunk a.size a.heap (ground (arith, e, a.runs, pos))
                (t.agrees a.chunk ∙ a.fresh) (omega (arith, a.large, u))
                (record {
                  blocks = a.blocks;
                  list = a.list;
                  sound = a.sound;
                  agrees = λ d. ground (arith, a.table d, t.agrees d);
                })
        ]

  -- On a heap that is not initialised or sound, heapmgr_malloc grants a chunk that was not
  -- allocated and that holds the bytes asked for, and every other allocation keeps its place and
  -- its size, or it returns NULL where sbrk refuses, and all allocations keep theirs; the heap is
  -- sound again; for requests of 1 to 2 ^ 34 - 1 bytes, where sbrk fails or adds the bytes that
  -- it is asked for.
  pub heapmgr_malloc-Manages :
      (state : Option Heap) (table : ℕ → Option ℕ) (size : ℕ)
      → Manages state table
      → 0 < size
      → size < 2 ^ 34
      → Served sbrk table size (heapmgr_malloc sbrk (some initial) state size)
  unfolding heapmgr_malloc init_my_heap
  heapmgr_malloc-Manages none table size t pos small =
      served_as sbrk (λ d. none) table size _ (heapmgr_malloc sbrk (some initial) none size)
        (ground (arith, pos)) t
        (malloc-Tracks
          (record {
            memory = initial;
            heap_start = length initial;
            heap_end = length initial;
            free_head = none;
          })
          (λ d. none) size (init-Tracks initial) pos small)
  heapmgr_malloc-Manages (some h) table size t pos small = malloc-Tracks h table size t pos small

-- On a sound heap of at most 2 ^ 31 units (32 GiB), heapmgr_free at the data of an allocated
-- chunk returns, the chunk is not allocated any more, every other allocation keeps its place and
-- its size, and the heap is sound again: free neighbours are merged, so that no two free chunks
-- touch.
pub heapmgr_free-Manages :
    (h : Heap) (table : ℕ → Option ℕ) (c n : ℕ)
    → Tracks h table
    → table c ≡ some n
    → h.heap_end ≤ h.heap_start + 2 ^ 31
    → (h' : Heap) × (heapmgr_free (some h) (some (c + 1)) ≡ some (some h'))
      × Tracks h' (entry table c none)
unfolding heapmgr_free
heapmgr_free-Manages h table c n t e small =
    let used = live_shape (shapes_of h t.blocks c) n (sym (t.agrees c) ∙ e) in
    let (b, found, u, st) = shape_found (find h.heap_start t.blocks c) n chunk_in_use used in
    let f = free_chunk-Freed h t.blocks t.list t.sound small c n used in
    let c_of : c + 1 - 1 ≡ c = omega arith in
    let freed : free_chunk h (c + 1 - 1) ≡ some f.heap = ap (free_chunk h) c_of ∙ f.runs in
    let inside : (h.heap_start + 1 ≤ c + 1) × (c + 1 - 1 < h.heap_end) =
      omega (arith, find-in h.heap_start t.blocks c b found, t.sound.listed.rep.ends) in
    (
      f.heap,
      ground (
        arith,
        checked_lem h t.blocks t.list t.sound,
        inside,
        freed,
        checked_lem f.heap f.blocks f.list f.sound,
      ),
      record {
        blocks = f.blocks;
        list = f.list;
        sound = f.sound;
        agrees = λ d. ground (arith, f.table d, t.agrees d);
      },
    )

-- Allocated chunks do not overlap.
pub Tracks-apart :
    (h : Heap) (table : ℕ → Option ℕ) (c d n m : ℕ)
    → Tracks h table
    → table c ≡ some n
    → table d ≡ some m
    → c ≢ d
    → (c + n + 2 ≤ d) ⊎ (d + m + 2 ≤ c)
Tracks-apart h table c d n m t e e' ne =
    shape-apart h.heap_start t.blocks c d n m chunk_in_use chunk_in_use
      (live_shape (shapes_of h t.blocks c) n (sym (t.agrees c) ∙ e))
      (live_shape (shapes_of h t.blocks d) m (sym (t.agrees d) ∙ e')) ne
