-- ===== src/Prelude/Ends.antt =====
-- What is known of code that returns or throws: of the value, and that only invalid_argument is thrown.
use mathlib.Core.Path.{◌≡◌, refl, subst}
use mathlib.Core.Bool.{Bool, true, false}
use edge_flow.Prelude.Tests.{if◌then◌else◌}
use edge_flow.Prelude.Except.{Exception, invalid_argument, runtime_error, Except, ok, throw, ◌>>=◌}

abbrev pub IsInvalidArgument : Exception → Type 0
IsInvalidArgument (invalid_argument message) = Unit
IsInvalidArgument (runtime_error message) = ⊥

pub record Ends {ℓ} {A : Type ℓ} (Holds : A → Type 0) (x : Except A) : Type ℓ where
  pub returned : (a : A) → x ≡ ok a → Holds a
  pub thrown : (e : Exception) → x ≡ throw e → IsInvalidArgument e

module _ {ℓ} {A : Type ℓ} {Holds : A → Type 0} where
  pub ok-Ends : (a : A) → Holds a → Ends Holds (ok a)
  ok-Ends a h = record {
    returned = λ b e. let same : a ≡ b = cc in subst Holds same h;
    thrown = λ x e. cc;
  }

  pub throw-Ends : (e : Exception) → IsInvalidArgument e → Ends Holds (throw e)
  throw-Ends e h = record {
    returned = λ b r. cc;
    thrown = λ x r. let same : e ≡ x = cc in subst IsInvalidArgument same h;
  }

  pub if-Ends :
      (b : Bool) {x y : Except A} → Ends Holds x → Ends Holds y → Ends Holds (if b then x else y)
  if-Ends true hx hy = hx
  if-Ends false hx hy = hy

  -- A guard that throws: the rest may use that it did not.
  pub guard-Ends :
      (b : Bool) (e : Exception) {y : Except A}
      → IsInvalidArgument e
      → (b ≡ false → Ends Holds y)
      → Ends Holds (if b then throw e else y)
  guard-Ends true e h k = throw-Ends e h
  guard-Ends false e h k = k refl

pub then-Ends {ℓ κ} :
    {A : Type ℓ} {B : Type κ} {Holds : A → Type 0} {Then : B → Type 0} {x : Except A}
    {f : A → Except B}
    → Ends Holds x
    → ((a : A) → Holds a → Ends Then (f a))
    → Ends Then (x >>= f)
then-Ends {x = ok a} h k = k a (h.returned a refl)
then-Ends {x = throw e} h k = throw-Ends e (h.thrown e refl)
