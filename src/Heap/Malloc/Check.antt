-- ===== src/Heap/Malloc/Check.antt =====
-- SP_LAB3/src/heapmgr1.c: on a sound heap the check of the whole heap ends and succeeds.
use fall_snu_system_pro.Base.{
  ℕ, zero, suc, ◌+◌, ◌≤◌, ◌<◌, ◌≡◌, ◌⊎◌, inl, inr, refl, ap, ◌∙◌, arith, true, Option, none, some,
  List, [], ◌∷◌, length, Bool-cases, Option-cases, leb,
}
use fall_snu_system_pro.Heap.Links.{has, Linked, head-in}
use fall_snu_system_pro.Heap.Blocks.{Block, find, find-in, find_first}
use fall_snu_system_pro.Heap.Blocks.Rep.{
  Rep, read_units, read_status, read_next, read_valid, next_there, next_end,
}
use fall_snu_system_pro.Heap.Manager.{Heap}
use fall_snu_system_pro.Heap.FreeList.{next_at, prev_at, shape}
use fall_snu_system_pro.Heap.FreeList.Insert.{block_of}
use fall_snu_system_pro.Heap.Malloc.{
  check_adjacent, check_free, check_heap_validity, find_fit, checked, fuel_of,
}
use fall_snu_system_pro.Heap.Malloc.Sound.{size_of, Sound, length-fs}

module _ (h : Heap) (bs : List Block) (fs : List ℕ) (so : Sound h bs fs) where
  abbrev r : Rep h bs
  r = so.listed.rep

  abbrev next : ℕ → Option ℕ
  next d = next_at (find h.heap_start bs d)

  abbrev prev : ℕ → Option ℕ
  prev d = prev_at (find h.heap_start bs d)

  positive : (c : ℕ) (b : Block) → find h.heap_start bs c ≡ some b → 0 < b.units
  positive c b f = so.tidy.positive c b.units (ap (λ o. size_of (shape o)) f)

  check_adjacent-true :
      (fuel w : ℕ) (b : Block)
      → find h.heap_start bs w ≡ some b
      → h.heap_end < w + fuel
      → check_adjacent fuel h w ≡ some true
  unfolding check_adjacent
  check_adjacent-true zero w b f enough =
      absurd (omega (arith, enough, find-in h.heap_start bs w b f, r.ends))
  check_adjacent-true (suc fuel) w b f enough =
      elim (Option-cases (find h.heap_start bs (w + b.units + 2))) [
        | inl e ↦ ground (
          arith,
          read_valid h bs r w b f (positive w b f),
          next_end h bs r w b f e,
          find-in h.heap_start bs w b f,
          r.ends,
        )
        | inr (b', e) ↦ ground (
          arith,
          read_valid h bs r w b f (positive w b f),
          next_there h bs r w b f b' e,
          find-in h.heap_start bs w b f,
          r.ends,
          check_adjacent-true fuel (w + b.units + 2) b' e (omega (arith, enough)),
        )
      ]

  check_free-true :
      (fuel : ℕ) (p w : Option ℕ) (cs : List ℕ)
      → Linked next prev p w cs
      → ((d : ℕ) → has d cs ≡ true → has d fs ≡ true)
      → length cs < fuel
      → check_free fuel h w ≡ some true
  unfolding check_free
  check_free-true zero p w cs l sub enough = absurd (omega (arith, enough))
  check_free-true (suc fuel) p none [] l sub enough = refl
  check_free-true (suc fuel) p (some w) [] l sub enough = absurd (ground (arith, l))
  check_free-true (suc fuel) p none (c ∷ cs) l sub enough = absurd (ground (arith, l.0))
  check_free-true (suc fuel) p (some w) (c ∷ cs) l sub enough =
      let same : w ≡ c = ground (arith, l.0) in
      let (b, f) = block_of (find h.heap_start bs c) (so.listed.free c (sub c (ground arith))) in
      let f' : find h.heap_start bs w ≡ some b = ap (find h.heap_start bs) same ∙ f in
      let step : next c ≡ b.next = ap next_at f in
      let rest =
        check_free-true fuel (some c) (next c) cs l.2 (λ d m. sub d (ground (arith, m)))
          (omega (arith, enough)) in
      ground (
        arith,
        read_status h bs r w b f',
        so.listed.free c (sub c (ground arith)),
        ap shape f,
        read_valid h bs r w b f' (positive w b f'),
        read_next h bs r w b f',
        rest,
        step,
        ap (check_free fuel h) step,
      )

  -- The walk over the list ends, and finds a chunk of it that is large enough, or none.
  pub find_fit-found :
      (fuel : ℕ) (p w : Option ℕ) (cs : List ℕ) (units : ℕ)
      → Linked next prev p w cs
      → ((d : ℕ) → has d cs ≡ true → has d fs ≡ true)
      → length cs < fuel
      → ((find_fit fuel h w units ≡ some none)
          × ((d : ℕ) (b : Block)
              → has d cs ≡ true
              → find h.heap_start bs d ≡ some b
              → b.units < units))
        ⊎ ((c : ℕ) × (b : Block) × (find_fit fuel h w units ≡ some (some c))
            × (find h.heap_start bs c ≡ some b)
            × (has c fs ≡ true)
            × (units ≤ b.units))
  unfolding find_fit
  find_fit-found zero p w cs units l sub enough = absurd (omega (arith, enough))
  find_fit-found (suc fuel) p none [] units l sub enough =
      inl (refl, λ d b m f. absurd (ground (arith, m)))
  find_fit-found (suc fuel) p (some w) [] units l sub enough = absurd (ground (arith, l))
  find_fit-found (suc fuel) p none (c ∷ cs) units l sub enough = absurd (ground (arith, l.0))
  find_fit-found (suc fuel) p (some w) (c ∷ cs) units l sub enough =
      let same : w ≡ c = ground (arith, l.0) in
      let (b, f) = block_of (find h.heap_start bs c) (so.listed.free c (sub c (ground arith))) in
      let f' : find h.heap_start bs w ≡ some b = ap (find h.heap_start bs) same ∙ f in
      let step : b.next ≡ next c = ground (arith, ap next_at f) in
      let rest =
        find_fit-found fuel (some c) (next c) cs units l.2 (λ d m. sub d (ground (arith, m)))
          (omega (arith, enough)) in
      let here = ap (λ q. find_fit fuel h q units) step in
      elim (Bool-cases (leb units b.units)) [
        | inl e ↦ inr (
          w,
          b,
          ground (arith, read_units h bs r w b f', e),
          f',
          ground (arith, sub w, l.0),
          ground (arith, e),
        )
        | inr e ↦ elim rest [
          | inl (none_left, small) ↦ inl (
            ground (arith, read_units h bs r w b f', read_next h bs r w b f', e, here, none_left),
            λ d x m at_d.
                ground (arith, small d x, m, at_d, f, e, ap (find h.heap_start bs) {x = c} {y = d}),
          )
          | inr (d, x, runs, at_d, m, large) ↦ inr (
            d,
            x,
            ground (arith, read_units h bs r w b f', read_next h bs r w b f', e, here, runs),
            at_d,
            m,
            large,
          )
        ]
      ]

  -- On a sound heap check_heap_validity ends, with no access outside of the memory, and its
  -- answer is yes.
  pub check_heap_validity-true : check_heap_validity h ≡ some true
  unfolding check_heap_validity
  check_heap_validity-true = elim (Option-cases (find h.heap_start bs h.heap_start)) [
    | inl e ↦
        let empty = find_first h.heap_start bs e in
        let no_head : h.free_head ≡ none = elim (Option-cases h.free_head) [
          | inl v ↦ v
          | inr (q, v) ↦
              let (b, f) =
                block_of (find h.heap_start bs q)
                  (so.listed.free q (head-in next prev none h.free_head fs q so.listed.linked v)) in
              absurd (omega (arith, find-in h.heap_start bs q b f, empty))
        ] in
        ground (arith, no_head, empty, r.ends)
    | inr (b, f) ↦
        let walk = check_adjacent-true (fuel_of h) h.heap_start b f (omega (arith, r.sized)) in
        let list =
          check_free-true (fuel_of h) none h.free_head fs so.listed.linked (λ d m. m)
            (omega (arith, length-fs h bs fs so.listed)) in
        ground (arith, walk, list, find-in h.heap_start bs h.heap_start b f, r.ends)
  ]

  pub checked_lem : checked h ≡ some h
  checked_lem = ground (arith, check_heap_validity-true)
