-- ===== src/Base/Results.antt =====
-- How a C function ends. `fault` is what C leaves undefined: an access outside a block or through NULL,
-- or a signed overflow; `abort` is a failed `assert` or a call of `abort`; `no_fuel` is the model's own: the
-- bound on the depth of a recursion or the rounds of a loop was too small.
use mathlib.Core.Option.{Option, none, some}
use mathlib.Core.Path.{◌≡◌, refl}

pub data Outcome {ℓ} (A : Type ℓ) : Type ℓ where
  ok : A → Outcome A
  abort fault no_fuel : Outcome A

infixl 5 ◌>>=◌
abbrev pub ◌>>=◌ {ℓ κ} : {A : Type ℓ} {B : Type κ} → Outcome A → (A → Outcome B) → Outcome B
ok a >>= f = f a
abort >>= f = abort
fault >>= f = fault
no_fuel >>= f = no_fuel

-- An access that may miss its block.
abbrev pub checked {ℓ} : {A : Type ℓ} → Option A → Outcome A
checked (some a) = ok a
checked none = fault

-- The parts of a run that ends.
pub bind_ok {ℓ κ} :
    {A : Type ℓ} {B : Type κ} (m : Outcome A) (f : A → Outcome B) (b : B)
    → (m >>= f) ≡ ok b
    → (a : A) × (m ≡ ok a) × (f a ≡ ok b)
bind_ok (ok a) f b e = (a, refl, e)
bind_ok abort f b e = cc
bind_ok fault f b e = cc
bind_ok no_fuel f b e = cc

pub ok_inj {ℓ} : {A : Type ℓ} {a b : A} → ok a ≡ ok b → a ≡ b
ok_inj e = cc
