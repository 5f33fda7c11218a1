-- ===== src/Heap/Bins/Search.antt =====
-- SP_LAB3/src/heapmgr2.c: the search for a chunk passes over the bin of the size asked for.
use fall_snu_system_pro.Base.{
  ℕ, zero, suc, ◌+◌, ◌*◌, ◌^◌, ◌<◌, ◌≡◌, refl, ap, ap₂, arith, Option, leb, Bool-cases, inl, inr,
}
use fall_snu_system_pro.Heap.Malloc.{find_fit, fuel_of}
use fall_snu_system_pro.Heap.Bins.{
  fixed_bin, Bins, set_head, array_set, or_else, search_exponential, search_fixed,
  find_best_fit_chunk,
}
use fall_snu_system_pro.Heap.Bins.Ranges.{Fits}

module _ (b : Bins) (i : ℕ) (v : Option ℕ) (units : ℕ) where
  abbrev b' : Bins
  b' = set_head b (fixed_bin i) v

  search_fixed-set_head :
      33 + i * 32 < units → (n j : ℕ) → search_fixed b' n j units ≡ search_fixed b n j units
  unfolding search_fixed
  search_fixed-set_head inside zero j = refl
  search_fixed-set_head inside (suc n) j =
      let rest = search_fixed-set_head inside n (j + 1) in
      elim (Bool-cases (leb units (33 + j * 32))) [
        | inl h ↦
            let same : array_set b.fixed_bins i v j ≡ b.fixed_bins j = ground (arith, h, inside) in
            rw h (ap₂ or_else (ap (λ o. find_fit (fuel_of b.heap) b.heap o units) same) rest)
        | inr h ↦ rw h rest
      ]

  search_exponential-set_head :
      (n j : ℕ) → search_exponential b' n j units ≡ search_exponential b n j units
  unfolding search_exponential
  search_exponential-set_head zero j = refl
  search_exponential-set_head (suc n) j =
      let rest = search_exponential-set_head n (j + 1) in
      elim (Bool-cases (leb units (1 * 2 ^ j))) [
        | inl h ↦
            rw h (ap (or_else (find_fit (fuel_of b.heap) b.heap (b.exponential_bins j) units)) rest)
        | inr h ↦ rw h rest
      ]

  -- What find_best_fit_chunk finds for a size of a fixed bin that is not the first size of that
  -- bin does not depend on the bin: whatever the list of the bin is, its chunks are passed over.
  pub find_best_fit_chunk-set_head :
      Fits (fixed_bin i) units
      → 33 + i * 32 < units
      → find_best_fit_chunk (set_head b (fixed_bin i) v) units ≡ find_best_fit_chunk b units
  unfolding find_best_fit_chunk
  find_best_fit_chunk-set_head fits inside =
      ground (arith, search_fixed-set_head inside 2047 0, search_exponential-set_head 6 0)
