-- ===== src/Heap/Malloc/Session.antt =====
-- SP_LAB3/src/heapmgr1.c: a program that calls the heap manager and writes to what it was given.
use fall_snu_system_pro.Base.{
  ℕ, ◌+◌, ◌*◌, ◌^◌, ◌≤◌, ◌<◌, ◌≡◌, ◌≢◌, ◌⊎◌, inl, inr, refl, sym, ap, ◌∙◌, arith, Option, none,
  some, List, ◌==◌, set, Bool-cases, subst, Bool, true, leb, ◌>>=◌,
}
use fall_snu_system_pro.Heap.Chunk.{Chunk}
use fall_snu_system_pro.Heap.Blocks.Rep.Write.{with_memory}
use fall_snu_system_pro.Heap.Manager.{Heap}
use fall_snu_system_pro.Heap.Malloc.{heapmgr_malloc, heapmgr_free}
use fall_snu_system_pro.Heap.Malloc.Alloc.{Grows}
use fall_snu_system_pro.Heap.Malloc.Written.{write-Tracks}
use fall_snu_system_pro.Heap.Malloc.Manages.{
  Tracks, Manages, granted, refused, entry, heapmgr_malloc-Manages, heapmgr_free-Manages,
  Tracks-apart,
}

-- The heap has at most 2 ^ 31 units, so that the sum of the sizes of two chunks is an `int`.
abbrev pub fits : Option Heap → Bool
fits none = true
fits (some h) = leb h.heap_end (h.heap_start + 2 ^ 31)

-- The states of the manager in a run of a program, with the sizes that it asked for at the
-- pointers that it holds. It frees a pointer that it holds, while the heap has at most 2 ^ 31
-- units, and writes to bytes that it was given. Each request has an `sbrk` of its own, since the
-- system may refuse what it granted before.
pub data Session (initial : List Chunk) : Option Heap → (ℕ → Option ℕ) → Type 0 where
  opened : Session initial none (λ p. none)
  served :
      (sbrk : ℕ → Option (List Chunk))
      → Grows sbrk
      → (state state' : Option Heap) (held : ℕ → Option ℕ) (p size : ℕ) → Session initial state held
      → 0 < size
      → size < 2 ^ 34
      → heapmgr_malloc sbrk (some initial) state size ≡ some (some p, state')
      → Session initial state' (entry held p (some size))
  denied :
      (sbrk : ℕ → Option (List Chunk))
      → Grows sbrk
      → (state state' : Option Heap) (held : ℕ → Option ℕ) (size : ℕ) → Session initial state held
      → 0 < size
      → size < 2 ^ 34
      → heapmgr_malloc sbrk (some initial) state size ≡ some (none, state')
      → Session initial state' held
  freed :
      (state state' : Option Heap) (held : ℕ → Option ℕ) (p size : ℕ)
      → Session initial state held
      → held p ≡ some size
      → fits state ≡ true
      → heapmgr_free state (some p) ≡ some state'
      → Session initial state' (entry held p none)
  written :
      (h : Heap) (held : ℕ → Option ℕ) (p size i : ℕ) (v : Chunk)
      → Session initial (some h) held
      → held p ≡ some size
      → 16 * i < size
      → Session initial (some (with_memory h (set h.memory (p + i) v))) held

-- Each pointer that is held stands behind the header of an allocated chunk that is large enough.
abbrev Backed : (ℕ → Option ℕ) → (ℕ → Option ℕ) → Type 0
Backed table held =
    (p size : ℕ)
    → held p ≡ some size
    → (c : ℕ) × (n : ℕ) × (p ≡ c + 1) × (table c ≡ some n) × (size ≤ 16 * n)

Backed-granted :
    (table held : ℕ → Option ℕ) (c n p size : ℕ)
    → Backed table held
    → table c ≡ none
    → p ≡ c + 1
    → size ≤ 16 * n
    → Backed (entry table c (some n)) (entry held p (some size))
Backed-granted table held c n p size b fresh at_p large q k e = elim (Bool-cases (p == q)) [
  | inl same ↦ (c, n, ground (arith, same, at_p), ground arith, ground (arith, e, same, large))
  | inr other ↦
      let (d, m, eq, f, l) = b q k (ground (arith, e, other)) in
      (d, m, eq, ground (arith, f, fresh, ap table {x = c} {y = d}), l)
]

Backed-freed :
    (table held : ℕ → Option ℕ) (c : ℕ)
    → Backed table held
    → Backed (entry table c none) (entry held (c + 1) none)
Backed-freed table held c b q k e =
    let (d, m, eq, f, l) = b q k (ground (arith, e)) in (d, m, eq, ground (arith, f, e, eq), l)

-- What a program asks of the manager next.
pub data Request : Type 0 where
  ask : ℕ → Request
  give_back : ℕ → Request

abbrev pub Allowed : Option Heap → (ℕ → Option ℕ) → Request → Type 0
Allowed state held (ask size) = size < 2 ^ 34
Allowed state held (give_back p) = (size : ℕ) × (held p ≡ some size) × (fits state ≡ true)

-- The pointer that the call gives, and the state after it.
abbrev pub perform :
    (ℕ → Option (List Chunk)) → List Chunk → Option Heap → Request → Option (Option ℕ × Option Heap)
perform sbrk initial state (ask size) = heapmgr_malloc sbrk (some initial) state size
perform sbrk initial state (give_back p) =
    heapmgr_free state (some p) >>= (λ state'. some (none, state'))

module _ (initial : List Chunk) where
  backed :
      (state : Option Heap) (held : ℕ → Option ℕ)
      → Session initial state held
      → (table : ℕ → Option ℕ) × Manages state table × Backed table held
  backed _ _ opened = (λ d. none, λ d. refl, λ p size e. absurd (ground (arith, e)))
  backed _ _ (served sbrk grows state state' held p size s pos small e) =
      let (table, m, b) = backed state held s in
      elim (heapmgr_malloc-Manages sbrk grows initial state table size m pos small) [
        | granted c n h e' new large t ↦
            let new_state : some h ≡ state' = ground (arith, e, e') in
            (
              entry table c (some n),
              subst (λ x. Manages x (entry table c (some n))) new_state t,
              Backed-granted table held c n p size b new (ground (arith, e, e')) large,
            )
        | refused h e' no_memory t ↦ absurd (ground (arith, e, e'))
      ]
  backed _ _ (denied sbrk grows state state' held size s pos small e) =
      let (table, m, b) = backed state held s in
      elim (heapmgr_malloc-Manages sbrk grows initial state table size m pos small) [
        | granted c n h e' new large t ↦ absurd (ground (arith, e, e'))
        | refused h e' no_memory t ↦
            let new_state : some h ≡ state' = ground (arith, e, e') in
            (table, subst (λ x. Manages x table) new_state t, b)
      ]
  backed _ _ (freed none state' held p size s has small e) =
      let (table, m, b) = backed none held s in
      let (c, n, at_p, at_c, large) = b p size has in absurd (ground (arith, m c, at_c))
  backed _ _ (freed (some h) state' held p size s has small e) =
      let (table, t, b) = backed (some h) held s in
      let (c, n, at_p, at_c, large) = b p size has in
      let (h', e', t') = heapmgr_free-Manages h table c n t at_c (ground (arith, small)) in
      let new_state : some h' ≡ state' =
        ground (arith, e, e', at_p, ap (λ q. heapmgr_free (some h) (some q)) at_p) in
      (
        entry table c none,
        subst (λ x. Manages x (entry table c none)) new_state t',
        subst (λ q. Backed (entry table c none) (entry held q none)) (sym at_p)
            (Backed-freed table held c b),
      )
  backed _ _ (written h held p size i v s has low) =
      let (table, t, b) = backed (some h) held s in
      let (c, n, eq, e, large) = b p size has in
      (
        table,
        subst (λ q. Tracks (with_memory h (set h.memory (q + i) v)) table) (sym eq)
            (write-Tracks h table c n i v t e (omega (arith, low, large))),
        b,
      )

  -- Whatever a program did with the heap manager of heapmgr1.c before (requests of 1 to 2 ^ 34 -
  -- 1 bytes, granted or refused, pointers that it holds given back while the heap has at most 2 ^
  -- 31 units, 32 GiB, and writes to the bytes that it was given), the bytes that it asked for at
  -- two different pointers that it holds do not overlap; where sbrk, at each request anew, fails
  -- or adds the bytes that it is asked for.
  pub Session-disjoint :
      (state : Option Heap) (held : ℕ → Option ℕ)
      → Session initial state held
      → (p q size size' : ℕ) → held p ≡ some size
      → held q ≡ some size'
      → p ≢ q
      → (16 * p + size ≤ 16 * q) ⊎ (16 * q + size' ≤ 16 * p)
  Session-disjoint none held s p q size size' at_p at_q ne =
      let (table, m, b) = backed none held s in
      let (c, n, eq, at_c, large) = b p size at_p in absurd (ground (arith, m c, at_c))
  Session-disjoint (some h) held s p q size size' at_p at_q ne =
      let (table, t, b) = backed (some h) held s in
      let (c, n, eq, at_c, large) = b p size at_p in
      let (d, m, eq', at_d, large') = b q size' at_q in
      let apart = Tracks-apart h table c d n m t at_c at_d (ground (arith, ne, eq, eq')) in
      ground (arith, apart, eq, eq', large, large')

  malloc_returns :
      (sbrk : ℕ → Option (List Chunk))
      → Grows sbrk
      → (state : Option Heap) (held : ℕ → Option ℕ) (size : ℕ) → Session initial state held
      → size < 2 ^ 34
      → (p : Option ℕ) × (state' : Option Heap) × (heapmgr_malloc sbrk (some initial) state size
          ≡ some (p, state'))
  unfolding heapmgr_malloc
  malloc_returns sbrk grows state held size s small = elim (Bool-cases (size == 0)) [
    | inl e ↦ (none, state, ground (arith, e))
    | inr e ↦
        let (table, m, b) = backed state held s in
        elim (heapmgr_malloc-Manages sbrk grows initial state table size m (ground (arith, e))
          small) [
            | granted c n h e' new large t ↦ (some (c + 1), some h, e')
            | refused h e' no_memory t ↦ (none, some h, e')
          ]
  ]

  free_returns :
      (state : Option Heap) (held : ℕ → Option ℕ) (p size : ℕ)
      → Session initial state held
      → held p ≡ some size
      → fits state ≡ true
      → (state' : Option Heap) × (heapmgr_free state (some p) ≡ some state')
  free_returns none held p size s at_p small =
      let (table, m, b) = backed none held s in
      let (c, n, eq, at_c, large) = b p size at_p in absurd (ground (arith, m c, at_c))
  free_returns (some h) held p size s at_p small =
      let (table, t, b) = backed (some h) held s in
      let (c, n, eq, at_c, large) = b p size at_p in
      let (h', e, t') = heapmgr_free-Manages h table c n t at_c (ground (arith, small)) in
      (some h', ap (λ q. heapmgr_free (some h) (some q)) eq ∙ e)

  -- Whatever a program did with the heap manager before, as in Session-disjoint, its next request
  -- of less than 2 ^ 34 bytes returns, and so does giving back any pointer that it holds while
  -- the heap has at most 2 ^ 31 units (32 GiB): the loops and both checks of the heap end, no
  -- assertion fails, no access is outside of the memory, and no sum of the units of two chunks
  -- exceeds an int; where sbrk, at each request anew, fails or adds the bytes that it is asked
  -- for.
  pub Session-returns :
      (sbrk : ℕ → Option (List Chunk))
      → Grows sbrk
      → (state : Option Heap) (held : ℕ → Option ℕ) → Session initial state held
      → (r : Request) → Allowed state held r
      → (p : Option ℕ) × (state' : Option Heap) × (perform sbrk initial state r ≡ some (p, state'))
  Session-returns sbrk grows state held s (ask size) small =
      malloc_returns sbrk grows state held size s small
  Session-returns sbrk grows state held s (give_back p) (size, at_p, small) =
      let (state', e) = free_returns state held p size s at_p small in
      (none, state', ground (arith, e))
