-- ===== src/Heap/Bins/Ranges.antt =====
-- SP_LAB3/src/heapmgr2.c: which sizes go to which bin.
use fall_snu_system_pro.Base.{
  ℕ, zero, suc, ◌+◌, ◌-◌, ◌*◌, ◌^◌, ◌≤◌, ◌<◌, ◌≡◌, arith, true, ◌==◌, leb, if◌then◌else◌,
  Bool-cases, inl, inr,
}
use fall_snu_system_pro.Heap.Bins.{
  Bin, exponential_bin, fixed_bin, large_bin, find_exponential, find_fixed, find_bin,
}

-- The sizes that the check of the heap allows in a bin, and the bins that there are.
abbrev pub Fits : Bin → ℕ → Type 0
Fits (exponential_bin i) units =
    (i < 6) × ((if i == 0 then 1 else 1 * 2 ^ (i - 1) + 1) ≤ units) × (units ≤ 1 * 2 ^ i)
Fits (fixed_bin i) units = (i < 2047) × (33 + i * 32 ≤ units) × (units ≤ 33 + i * 32 + 32 - 1)
Fits large_bin units = 65536 < units

find_fixed-Fits :
    (n i units : ℕ)
    → i + n ≡ 2047
    → 33 + i * 32 ≤ units
    → units ≤ 65536
    → Fits (find_fixed n i units) units
unfolding find_fixed
find_fixed-Fits zero i units e low high = absurd (omega (arith, e, low, high))
find_fixed-Fits (suc n) i units e low high = elim (Bool-cases (leb units (33 + (i + 1) * 32 - 1))) [
  | inl h ↦ rw h (omega (arith, e), low, ground (arith, h))
  | inr h ↦ rw h (find_fixed-Fits n (i + 1) units (omega (arith, e)) (ground (arith, h)) high)
]

exponential-Fits : (units : ℕ) → 0 < units → units ≤ 32 → Fits (find_exponential 6 0 units) units
unfolding find_exponential
exponential-Fits units pos small = elim (Bool-cases (leb units 1)) [
  | inl a ↦ rw a (omega arith, pos, ground (arith, a))
  | inr a ↦ elim (Bool-cases (leb units 2)) [
    | inl b ↦ rw (a, b) (omega arith, ground (arith, a), ground (arith, b))
    | inr b ↦ elim (Bool-cases (leb units 4)) [
      | inl c ↦ rw (a, b, c) (omega arith, ground (arith, b), ground (arith, c))
      | inr c ↦ elim (Bool-cases (leb units 8)) [
        | inl d ↦ rw (a, b, c, d) (omega arith, ground (arith, c), ground (arith, d))
        | inr d ↦ elim (Bool-cases (leb units 16)) [
          | inl e ↦ rw (a, b, c, d, e) (omega arith, ground (arith, d), ground (arith, e))
          | inr e ↦
              let f : leb units 32 ≡ true = ground (arith, small) in
              rw (a, b, c, d, e, f) (omega arith, ground (arith, e), small)
        ]
      ]
    ]
  ]
]

-- The bin that find_bin gives for a size of at least one unit exists, and its range, as the check
-- of the heap has it, holds the size.
pub find_bin-Fits : (units : ℕ) → 0 < units → Fits (find_bin units) units
unfolding find_bin
find_bin-Fits units pos = elim (Bool-cases (leb units 32)) [
  | inl small ↦ rw small (exponential-Fits units pos (ground (arith, small)))
  | inr large ↦ elim (Bool-cases (leb units 65536)) [
    | inl h ↦
        rw (large, h)
          (find_fixed-Fits 2047 0 units (omega arith) (ground (arith, large)) (ground (arith, h)))
    | inr h ↦ rw (large, h) (ground (arith, h))
  ]
]
