-- ===== src/Heap/Bins/Lists.antt =====
-- SP_LAB3/src/heapmgr2.c: a heap with one of its bins, and the bins after a change of one.
use fall_snu_system_pro.Base.{ℕ, ◌≡◌, ◌≢◌, refl, ap, arith, Option}
use fall_snu_system_pro.Heap.Manager.{Heap}
use fall_snu_system_pro.Heap.Bins.{
  Bin, exponential_bin, fixed_bin, large_bin, Bins, head_of, set_head, array_set,
}

-- The heap with the head of one bin for its list.
abbrev pub view : Bins → Bin → Heap
view b bin = record b.heap { free_head = head_of b bin }

-- What `on_bin` leaves where the function leaves `h`.
abbrev pub stored : Bins → Bin → Heap → Bins
stored b bin h =
    set_head (record b { heap = record h { free_head = b.heap.free_head } }) bin h.free_head

array_set-at : (f : ℕ → Option ℕ) (i : ℕ) (v : Option ℕ) → array_set f i v i ≡ v
array_set-at f i v = ground arith

pub view-stored : (b : Bins) (bin : Bin) (h : Heap) → view (stored b bin h) bin ≡ h
view-stored b (exponential_bin i) h =
    ap (λ o. record h { free_head = o }) (array_set-at b.exponential_bins i h.free_head)
view-stored b (fixed_bin i) h =
    ap (λ o. record h { free_head = o }) (array_set-at b.fixed_bins i h.free_head)
view-stored b large_bin h = refl

array_set-away : (f : ℕ → Option ℕ) (i j : ℕ) (v : Option ℕ) → j ≢ i → array_set f i v j ≡ f j
array_set-away f i j v ne = ground (arith, ne)

pub head_of-stored :
    (b : Bins) (bin other : Bin) (h : Heap)
    → other ≢ bin
    → head_of (stored b bin h) other ≡ head_of b other
head_of-stored b (exponential_bin i) (exponential_bin j) h ne =
    array_set-away b.exponential_bins i j h.free_head (λ e. ne (ap exponential_bin e))
head_of-stored b (exponential_bin i) (fixed_bin j) h ne = refl
head_of-stored b (exponential_bin i) large_bin h ne = refl
head_of-stored b (fixed_bin i) (exponential_bin j) h ne = refl
head_of-stored b (fixed_bin i) (fixed_bin j) h ne =
    array_set-away b.fixed_bins i j h.free_head (λ e. ne (ap fixed_bin e))
head_of-stored b (fixed_bin i) large_bin h ne = refl
head_of-stored b large_bin (exponential_bin j) h ne = refl
head_of-stored b large_bin (fixed_bin j) h ne = refl
head_of-stored b large_bin large_bin h ne = absurd (ne refl)
