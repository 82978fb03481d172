-- ===== src/Queue/LockFree/Parking/Sums.antt =====
-- Sums of a weight over the first `n` threads, while the weight of one thread changes.
use native.Mathlib.Decide.{ℕ_discrete}
use edge_flow.Prelude.{ℕ, zero, suc, ◌+◌, ◌≤◌, ◌<◌, ◌≡◌, refl, ap, ◌≢◌, arith}

abbrev pub sum : ℕ → (ℕ → ℕ) → ℕ
sum zero w = 0
sum (suc n) w = w n + sum n w

pub sum_same : (n : ℕ) (w w' : ℕ → ℕ) → ((j : ℕ) → j < n → w j ≡ w' j) → sum n w ≡ sum n w'
sum_same zero w w' same = refl
sum_same (suc n) w w' same =
    omega (arith, same n (omega arith), sum_same n w w' (λ j lt. same j (omega arith)))

-- A change at one place changes the sum by that place's term.
pub sum_change :
    (n : ℕ) (w w' : ℕ → ℕ) (i : ℕ)
    → i < n
    → ((j : ℕ) → i ≢ j → w j ≡ w' j)
    → w' i + sum n w ≡ w i + sum n w'
sum_change zero w w' i lt same = absurd (omega arith)
sum_change (suc n) w w' i lt same = elim (ℕ_discrete i n) [
  | yes last ↦ omega (
    arith,
    ap w last,
    ap w' last,
    sum_same n w w' (λ j below. same j (λ (e : i ≡ j). omega (arith, e, last))),
  )
  | no earlier ↦
      omega (arith, same n earlier, sum_change n w w' i (omega (arith, earlier, lt)) same)
]

pub term_le : (n : ℕ) (w : ℕ → ℕ) (i : ℕ) → i < n → w i ≤ sum n w
term_le zero w i lt = absurd (omega arith)
term_le (suc n) w i lt = elim (ℕ_discrete i n) [
  | yes last ↦ omega (arith, ap w last)
  | no earlier ↦ omega (arith, term_le n w i (omega (arith, earlier, lt)))
]

pub sum_zero : (n : ℕ) (w : ℕ → ℕ) → ((j : ℕ) → j < n → w j ≡ 0) → sum n w ≡ 0
sum_zero zero w none = refl
sum_zero (suc n) w none =
    omega (arith, none n (omega arith), sum_zero n w (λ j lt. none j (omega arith)))

-- A sum of terms of at most 1.
pub sum_le : (n : ℕ) (w : ℕ → ℕ) → ((j : ℕ) → w j ≤ 1) → sum n w ≤ n
sum_le zero w small = omega arith
sum_le (suc n) w small = omega (arith, small n, sum_le n w small)
