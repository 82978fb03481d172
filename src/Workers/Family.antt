-- ===== src/Workers/Family.antt =====
-- What the threads of a pool stand at, by their number: a change of one thread, and sums over the first
-- `n` of them.
use Prim.Native.Nat.{ℕ, zero, suc, ◌+◌, ◌≤◌, ◌<◌}
use mathlib.Core.Path.{◌≡◌, refl, sym, ap}
use mathlib.Core.Logic.{ite, if_pos, if_neg, ◌≢◌}
use native.Mathlib.Decide.{dec_lt, ℕ_discrete}
use native.Mathlib.Omega.{arith}

module _ {ℓ} {A : Type ℓ} where
  -- The threads after thread `i` has come to stand at `now`.
  abbrev pub update : (ℕ → A) → ℕ → A → ℕ → A
  update threads i now = λ j. ite (ℕ_discrete i j) now (threads j)

  pub update_self : (threads : ℕ → A) (i : ℕ) (now : A) → update threads i now i ≡ now
  update_self threads i now = if_pos (ℕ_discrete i i) refl now (threads i)

  pub update_other :
      (threads : ℕ → A) (i j : ℕ) (now : A) → i ≢ j → update threads i now j ≡ threads j
  update_other threads i j now ne = if_neg (ℕ_discrete i j) ne now (threads j)

  module _ (w : A → ℕ) where
    abbrev pub total : ℕ → (ℕ → A) → ℕ
    total zero threads = 0
    total (suc n) threads = w (threads n) + total n threads

    -- A thread that is not among the first `n` does not count.
    beyond :
        (threads : ℕ → A) (i : ℕ) (now : A) (n : ℕ)
        → n ≤ i
        → total n threads ≡ total n (update threads i now)
    beyond threads i now zero far = refl
    beyond threads i now (suc n) far = omega (
      arith,
      ap w (update_other threads i n now (λ same. omega (arith, same))),
      beyond threads i now n (omega arith),
    )

    -- A change of one thread among the first `n` changes the sum by that thread's term.
    pub total-update :
        (n : ℕ) (threads : ℕ → A) (i : ℕ) (now : A)
        → i < n
        → w now + total n threads ≡ w (threads i) + total n (update threads i now)
    total-update zero threads i now near = absurd (omega arith)
    total-update (suc n) threads i now near = elim (ℕ_discrete i n) [
      | yes last ↦
          rw (sym last)
            (omega (arith, ap w (update_self threads i now), beyond threads i now i (omega arith)))
      | no earlier ↦ omega (
        arith,
        ap w (update_other threads i n now earlier),
        total-update n threads i now (omega arith),
      )
    ]

    -- No term of a sum that is 0 is more.
    pub total_zero :
        (n : ℕ) (threads : ℕ → A) (i : ℕ) → total n threads ≡ 0 → i < n → w (threads i) ≡ 0
    total_zero zero threads i none near = absurd (omega arith)
    total_zero (suc n) threads i none near = elim (dec_lt i n) [
      | yes earlier ↦ total_zero n threads i (omega arith) earlier
      | no last ↦ ground arith
    ]

    pub total_none :
        (n : ℕ) (threads : ℕ → A) → ((i : ℕ) → i < n → w (threads i) ≡ 0) → total n threads ≡ 0
    total_none zero threads none = refl
    total_none (suc n) threads none =
        omega (arith, none n (omega arith), total_none n threads (λ i lt. none i (omega arith)))
