-- ===== src/Base/Asserts.antt =====
-- Assertions: a function that fails one, or that accesses memory out of bounds, is `none`.
use mathlib.Core.Bool.{Bool, true, false}
use mathlib.Core.Option.{Option, none, some}

infixl 5 ◌>>=◌
abbrev pub ◌>>=◌ {ℓ κ} : {A : Type ℓ} {B : Type κ} → Option A → (A → Option B) → Option B
none >>= f = none
some a >>= f = f a

abbrev pub assert {ℓ} : {A : Type ℓ} → Bool → A → Option A
assert true a = some a
assert false a = none
