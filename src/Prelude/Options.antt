-- ===== src/Prelude/Options.antt =====
-- Chains of results that may be missing.
use mathlib.Core.Path.{◌≡◌, refl}
use mathlib.Core.Option.{Option, none, some}

module _ {ℓ κ} {A : Type ℓ} {B : Type κ} where
  infixl 5 ◌>>=◌
  abbrev pub ◌>>=◌ : Option A → (A → Option B) → Option B
  none >>= next = none
  some value >>= next = next value

  -- A chain with a result has a first part with a result.
  pub >>=-eq-some :
      (first : Option A) (next : A → Option B) {result : B}
      → (first >>= next) ≡ some result
      → (value : A) × (first ≡ some value) × (next value ≡ some result)
  >>=-eq-some none next returned = cc
  >>=-eq-some (some value) next returned = (value, refl, returned)
