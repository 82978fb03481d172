-- ===== src/Prelude/Except.antt =====
-- Code that returns or throws. Texts are lists of bytes.
use Prim.Native.Nat.{ℕ}
use mathlib.Core.Path.{◌≡◌, refl}
use mathlib.Core.List.{List}

abbrev pub Text : Type 0
Text = List ℕ

-- The standard exceptions that the code throws, with their messages.
pub data Exception : Type 0 where
  invalid_argument : Text → Exception
  runtime_error : Text → Exception

pub data Except {ℓ} (A : Type ℓ) : Type ℓ where
  ok : A → Except A
  throw : Exception → Except A

module _ {ℓ κ} {A : Type ℓ} {B : Type κ} where
  infixl 5 ◌>>=◌
  -- What is thrown goes past the rest of the chain.
  abbrev pub ◌>>=◌ : Except A → (A → Except B) → Except B
  throw problem >>= next = throw problem
  ok value >>= next = next value

  -- A chain that returns has a first part that returns.
  pub >>=-eq-ok :
      (first : Except A) (next : A → Except B) {result : B}
      → (first >>= next) ≡ ok result
      → (value : A) × (first ≡ ok value) × (next value ≡ ok result)
  >>=-eq-ok (throw problem) next returned = cc
  >>=-eq-ok (ok value) next returned = (value, refl, returned)
