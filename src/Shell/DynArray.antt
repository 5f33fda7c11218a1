-- ===== src/Shell/DynArray.antt =====
-- SP_LAB4/dynarray.c: an array that doubles when it is full. `none` is a failed `assert`; a slot
-- that was never written holds `none` too.
pub mod Contents
use fall_snu_system_pro.Base.{
  assert, ◌>>=◌, ℕ, zero, suc, ◌+◌, ◌-◌, ◌*◌, ◌^◌, Bool, true, false, ◌&&◌, Option, none, some,
  List, [], ◌∷◌, ◌++◌, ltb, leb, ◌==◌, if◌then◌else◌, get_or, set, replicate, length,
}

abbrev pub min_phys_length : ℕ
min_phys_length = 2

abbrev pub growth_factor : ℕ
growth_factor = 2

-- An `int` is below this. A doubling past it overflows, which is undefined in C.
abbrev pub int_limit : ℕ
int_limit = 2 ^ 31

-- `struct DynArray`
pub record DynArray {ℓ} (A : Type ℓ) : Type ℓ where
  pub i_length : ℕ
  pub i_phys_length : ℕ
  pub ppv_array : List (Option A)

module _ {ℓ} {A : Type ℓ} where
  -- The pointer and the sign of `iLength` need no test here: the types have no NULL and no sign.
  unfoldable pub dynarray_is_valid : DynArray A → Bool
  dynarray_is_valid d = leb min_phys_length d.i_phys_length && leb d.i_length d.i_phys_length

  -- The Boolean is whether both allocations succeed.
  unfoldable pub dynarray_new : Bool → ℕ → Option (DynArray A)
  dynarray_new ok n =
      let phys = if ltb min_phys_length n then n else min_phys_length in
      assert ok (record { i_length = n; i_phys_length = phys; ppv_array = replicate phys none })

  unfoldable pub dynarray_get_length : DynArray A → Option ℕ
  unfolding dynarray_is_valid
  dynarray_get_length d = assert (dynarray_is_valid d) d.i_length

  unfoldable pub dynarray_get : DynArray A → ℕ → Option (Option A)
  unfolding dynarray_is_valid
  dynarray_get d i = assert (dynarray_is_valid d && ltb i d.i_length) (get_or d.ppv_array i none)

  -- The element that was there, and the array after the write.
  unfoldable pub dynarray_set : DynArray A → ℕ → Option A → Option (Option A × DynArray A)
  unfolding dynarray_is_valid
  dynarray_set d i element =
      assert (dynarray_is_valid d && ltb i d.i_length)
        (get_or d.ppv_array i none, record d { ppv_array = set d.ppv_array i element })

  -- `realloc` keeps the old slots; what the new ones hold is not read before it is written.
  unfoldable pub dynarray_grow : Bool → DynArray A → Option (DynArray A)
  unfolding dynarray_is_valid
  dynarray_grow ok d =
      assert (dynarray_is_valid d && ltb (d.i_phys_length * growth_factor) int_limit && ok)
        (record d {
          i_phys_length = d.i_phys_length * growth_factor;
          ppv_array = d.ppv_array ++ replicate d.i_phys_length none;
        })

  -- The return value is always 1.
  unfoldable pub dynarray_add : Bool → DynArray A → Option A → Option (DynArray A)
  unfolding dynarray_is_valid dynarray_grow
  dynarray_add ok d element = do
    valid ← assert (dynarray_is_valid d) d
    roomy ← (if valid.i_length == valid.i_phys_length then dynarray_grow ok valid else some valid)
    some (record roomy {
      ppv_array = set roomy.ppv_array roomy.i_length element;
      i_length = roomy.i_length + 1;
    })

  -- The loop of `dynarray_map` from index `i` on, with `n` rounds left: the elements that
  -- `pfApply` is called with, in order.
  unfoldable pub map_loop : DynArray A → ℕ → ℕ → List (Option A)
  map_loop d i zero = []
  map_loop d i (suc n) = get_or d.ppv_array i none ∷ map_loop d (i + 1) n

  unfoldable pub dynarray_map : DynArray A → Option (List (Option A))
  unfolding dynarray_is_valid map_loop
  dynarray_map d = assert (dynarray_is_valid d) (map_loop d 0 d.i_length)
