-- ===== src/Shell/DynArray/Contents.antt =====
-- SP_LAB4/dynarray.c as a list: the array refines the sequence of its first `iLength` elements.
use fall_snu_system_pro.Base.{
  ℕ, zero, suc, ◌+◌, ◌-◌, ◌*◌, ◌≤◌, ◌<◌, true, Option, none, some, List, [], ◌∷◌, ◌++◌, ◌≡◌, refl,
  sym, ap, ap₂, ◌∙◌, inl, inr, Bool-cases, arith, ltb, ◌==◌, if◌then◌else◌, get_or, set, replicate,
  length, length-append, length-replicate, length-set, append_assoc, append-nil, get_or-append_left,
  get_or-append_length, set-append_left, set-append_length,
}
use fall_snu_system_pro.Shell.DynArray.{
  DynArray, dynarray_is_valid, dynarray_new, dynarray_get_length, dynarray_get, dynarray_set,
  dynarray_add, dynarray_map, map_loop, int_limit,
}

module _ {ℓ} {A : Type ℓ} where
  -- The array holds the elements `xs`, and then `spare` slots.
  pub record Represents (d : DynArray A) (xs : List (Option A)) : Type ℓ where
    pub spare : List (Option A)
    pub slots : d.ppv_array ≡ xs ++ spare
    pub counted : d.i_length ≡ length xs
    pub allocated : d.i_phys_length ≡ length xs + length spare
    pub least : 2 ≤ d.i_phys_length

  Represents-is_valid :
      (d : DynArray A) (xs : List (Option A)) → Represents d xs → dynarray_is_valid d ≡ true
  unfolding dynarray_is_valid
  Represents-is_valid d xs r = ground arith

  -- A new array of length n is a list of n NULLs, when its allocations succeed.
  pub dynarray_new-Represents :
      (n : ℕ) → (d : DynArray A) × (dynarray_new true n ≡ some d) × Represents d (replicate n none)
  unfolding dynarray_new
  dynarray_new-Represents zero = (
    _,
    refl,
    record {
      spare = none ∷ none ∷ [];
      slots = refl;
      counted = refl;
      allocated = refl;
      least = omega arith;
    },
  )
  dynarray_new-Represents (suc zero) = (
    _,
    refl,
    record {
      spare = none ∷ [];
      slots = refl;
      counted = refl;
      allocated = refl;
      least = omega arith;
    },
  )
  dynarray_new-Represents (suc (suc n)) = (
    record {
      i_length = suc (suc n);
      i_phys_length = suc (suc n);
      ppv_array = replicate (suc (suc n)) none;
    },
    ground arith,
    record {
      spare = [];
      slots = sym (append-nil _);
      counted = omega (arith, length-replicate {A = Option A} (suc (suc n)) none);
      allocated = omega (arith, length-replicate {A = Option A} (suc (suc n)) none);
      least = omega arith;
    },
  )

  pub dynarray_get_length-Represents :
      (d : DynArray A) (xs : List (Option A))
      → Represents d xs
      → dynarray_get_length d ≡ some (length xs)
  unfolding dynarray_get_length
  dynarray_get_length-Represents d xs r =
      let valid : dynarray_is_valid d ≡ true = Represents-is_valid d xs r in
      rw valid (ap some r.counted)

  -- Within the list, dynarray_get reads the element; outside it, its assertion fails.
  pub dynarray_get-Represents :
      (d : DynArray A) (xs : List (Option A)) (i : ℕ)
      → Represents d xs
      → dynarray_get d i ≡ (if ltb i (length xs) then some (get_or xs i none) else none)
  unfolding dynarray_get
  dynarray_get-Represents d xs i r = elim (Bool-cases (ltb i (length xs))) [
    | inl p ↦ ground (arith, Represents-is_valid d xs r, get_or-append_left xs r.spare i none)
    | inr p ↦ ground (arith, Represents-is_valid d xs r)
  ]

  -- Within the list, dynarray_set returns the old element and replaces it.
  pub dynarray_set-Represents :
      (d : DynArray A) (xs : List (Option A)) (i : ℕ) (v : Option A)
      → Represents d xs
      → i < length xs
      → (d' : DynArray A) × (dynarray_set d i v ≡ some (get_or xs i none, d'))
        × Represents d' (set xs i v)
  unfolding dynarray_set
  dynarray_set-Represents d xs i v r h = (
    record d { ppv_array = set d.ppv_array i v },
    ground (arith, Represents-is_valid d xs r, get_or-append_left xs r.spare i none),
    record {
      spare = r.spare;
      slots = ap (λ a. set a i v) r.slots ∙ set-append_left xs r.spare i v h;
      counted = omega (arith, length-set xs i v);
      allocated = omega (arith, length-set xs i v);
      least = r.least;
    },
  )

  -- A write behind the elements, with spare slots and in a grown array.
  set_spare :
      (a xs : List (Option A)) (y : Option A) (ys : List (Option A)) (k : ℕ) (v : Option A)
      → a ≡ xs ++ y ∷ ys
      → k ≡ length xs
      → set a k v ≡ (xs ++ v ∷ []) ++ ys
  set_spare a xs y ys k v e h = rw (e, h, set-append_length xs y ys v, append_assoc xs (v ∷ []) ys)

  replicate_pos : (n : ℕ) (v : Option A) → 0 < n → replicate n v ≡ v ∷ replicate (n - 1) v
  replicate_pos zero v h = elim h [ ]
  replicate_pos (suc n) v h = ap (λ k. v ∷ replicate k v) (omega arith)

  dynarray_add_spare :
      (d : DynArray A) (xs spare : List (Option A)) (v : Option A)
      → d.ppv_array ≡ xs ++ spare
      → d.i_length ≡ length xs
      → d.i_phys_length ≡ length xs + length spare
      → 2 ≤ d.i_phys_length
      → length xs * 2 < int_limit
      → (d' : DynArray A) × (dynarray_add true d v ≡ some d') × Represents d' (xs ++ v ∷ [])
  unfolding dynarray_add
  dynarray_add_spare d xs (y ∷ ys) v e c a l h = (
    record d { i_length = d.i_length + 1; ppv_array = set d.ppv_array d.i_length v },
    ground arith,
    record {
      spare = ys;
      slots = set_spare d.ppv_array xs y ys d.i_length v e c;
      counted = omega (arith, length-append xs (v ∷ []));
      allocated = omega (arith, length-append xs (v ∷ []));
      least = l;
    },
  )
  dynarray_add_spare d xs [] v e c a l h =
      let grown = d.ppv_array ++ replicate d.i_phys_length none in
      (
        record {
          i_length = d.i_length + 1;
          i_phys_length = d.i_phys_length * 2;
          ppv_array = set grown d.i_length v;
        },
        (let valid : dynarray_is_valid d ≡ true = unfold dynarray_is_valid in ground arith in
            let full : (d.i_length == d.i_phys_length) ≡ true = ground arith in
            let room : ltb (d.i_phys_length * 2) int_limit ≡ true = ground arith in
            rw (valid, full, valid, room)),
        record {
          spare = replicate (d.i_phys_length - 1) none;
          slots =
              set_spare grown xs none (replicate (d.i_phys_length - 1) none) d.i_length v
                (rw (e, append-nil, replicate_pos d.i_phys_length none (omega arith))) c;
          counted = omega (arith, length-append xs (v ∷ []));
          allocated = omega (
            arith,
            length-append xs (v ∷ []),
            length-replicate {A = Option A} (d.i_phys_length - 1) none,
          );
          least = omega arith;
        },
      )

  -- Dynarray_add appends one element to the list that the array holds, growing the array when it
  -- is full; for arrays whose doubled length is an int, when the reallocation succeeds.
  pub dynarray_add-Represents :
      (d : DynArray A) (xs : List (Option A)) (v : Option A)
      → Represents d xs
      → length xs * 2 < int_limit
      → (d' : DynArray A) × (dynarray_add true d v ≡ some d') × Represents d' (xs ++ v ∷ [])
  unfolding dynarray_add
  dynarray_add-Represents d xs v r h =
      dynarray_add_spare d xs r.spare v r.slots r.counted r.allocated r.least h

  one_more : (xs : List (Option A)) (v : Option A) → length (xs ++ v ∷ []) ≡ length xs + 1
  one_more xs v = length-append xs (v ∷ [])

  map_loop-lem :
      (d : DynArray A) (before xs spare : List (Option A))
      → d.ppv_array ≡ before ++ (xs ++ spare)
      → map_loop d (length before) (length xs) ≡ xs
  unfolding map_loop
  map_loop-lem d before [] spare e = refl
  map_loop-lem d before (x ∷ xs) spare e =
      ap₂ ◌∷◌
        (ap (λ a. get_or a (length before) none) e
          ∙ get_or-append_length before (x ∷ (xs ++ spare)) none)
        (rw (one_more before x) at (
          map_loop-lem d (before ++ x ∷ []) xs spare
            (e ∙ sym (append_assoc before (x ∷ []) (xs ++ spare)))))

  -- Dynarray_map visits the elements in order.
  pub dynarray_map-Represents :
      (d : DynArray A) (xs : List (Option A)) → Represents d xs → dynarray_map d ≡ some xs
  unfolding dynarray_map
  dynarray_map-Represents d xs r =
      ground (arith, Represents-is_valid d xs r, map_loop-lem d [] xs r.spare r.slots)
