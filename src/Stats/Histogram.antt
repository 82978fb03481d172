-- ===== src/Stats/Histogram.antt =====
-- The bucket counters as a histogram of the samples recorded.
use edge_flow.Prelude.{
  ℕ, suc, ◌+◌, ◌-◌, ◌^◌, ◌≤◌, ◌<◌, ◌≡◌, List, [], ◌∷◌, arith, leb, leb→le, le→leb, Bool-cases, inl,
  inr, if◌then◌else◌, length, All,
}
use edge_flow.Stats.{first_bucket, count_in}

-- How many samples are at most `k`.
abbrev pub count_le : ℕ → List ℕ → ℕ
count_le k [] = 0
count_le k (x ∷ xs) = if leb x k then suc (count_le k xs) else count_le k xs

pub count_le-le-length : (k : ℕ) (xs : List ℕ) → count_le k xs ≤ length xs
count_le-le-length k [] = omega arith
count_le-le-length k (x ∷ xs) = ground (arith, count_le-le-length k xs)

-- With `c` samples at or below the boundary before, the buckets count on from there: each up to
-- its own boundary, and the last one, which has none, up to all samples.
abbrev pub Counts : List ℕ → ℕ → List ℕ → List ℕ → Type 0
Counts xs c [] ks = ⊥
Counts xs c (b ∷ bs) (k ∷ ks) = (c + b ≡ count_le k xs) × Counts xs (count_le k xs) bs ks
Counts xs c (b ∷ []) [] = c + b ≡ length xs
Counts xs c (b ∷ d ∷ bs) [] = ⊥

abbrev pub IsAscending : List ℕ → Type 0
IsAscending [] = Unit
IsAscending (k ∷ ks) = All (λ j. k < j) ks × IsAscending ks

-- A sample at or below every boundary shifts the counts by one.
Counts-cons_low :
    (x c : ℕ) (xs bs ks : List ℕ)
    → All (λ k. x ≤ k) ks
    → Counts xs c bs ks
    → Counts (x ∷ xs) (suc c) bs ks
Counts-cons_low x c xs [] ks low h = h
Counts-cons_low x c xs (b ∷ []) [] low h = omega arith
Counts-cons_low x c xs (b ∷ d ∷ bs) [] low h = h
Counts-cons_low x c xs (b ∷ bs) (k ∷ ks) low h =
    rw (le→leb x k low.0) (omega (arith, h.0), Counts-cons_low x (count_le k xs) xs bs ks low.1 h.1)

All-mono : (x k : ℕ) (ks : List ℕ) → x ≤ k → All (λ j. k < j) ks → All (λ j. x ≤ j) ks
All-mono x k [] h a = tt
All-mono x k (j ∷ ks) h a = (omega arith, All-mono x k ks h a.1)

-- Counting a sample in its bucket keeps the histogram.
pub Counts-count_in :
    (x c : ℕ) (xs bs ks : List ℕ)
    → IsAscending ks
    → length xs < 2 ^ 64 - 1
    → Counts xs c bs ks
    → Counts (x ∷ xs) c (count_in bs (first_bucket ks x)) ks
Counts-count_in x c xs [] ks up few h = h
Counts-count_in x c xs (b ∷ []) [] up few h = omega arith
Counts-count_in x c xs (b ∷ d ∷ bs) [] up few h = h
Counts-count_in x c xs (b ∷ bs) (k ∷ ks) up few h = elim (Bool-cases (leb x k)) [
  | inl here ↦
      rw (here, here)
        (
          omega (arith, h.0, count_le-le-length k xs),
          Counts-cons_low x (count_le k xs) xs bs ks (All-mono x k ks (leb→le x k here) up.0) h.1,
        )
  | inr later ↦ rw (later, later) (h.0, Counts-count_in x (count_le k xs) xs bs ks up.1 few h.1)
]
