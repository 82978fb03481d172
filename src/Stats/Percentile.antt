-- ===== src/Stats/Percentile.antt =====
-- Stats::percentile: the least boundary at or below which more than the target of samples lie.
use edge_flow.Prelude.{
  ℕ, ◌+◌, ◌^◌, ◌≤◌, ◌<◌, ◌≡◌, refl, ◌⊎◌, inl, inr, List, [], ◌∷◌, arith, length, ltb, Bool-cases,
  ltb→lt, ltb→ge,
}
use edge_flow.Stats.{Stats, percentile, percentile_from, bucket_boundaries, last_boundary, u64}
use edge_flow.Stats.Histogram.{Counts, count_le, count_le-le-length}
use edge_flow.Stats.Waits.{Summarises}

-- `k` is the first of the boundaries that more than `target` samples do not exceed; the last
-- boundary stands for the samples above it.
abbrev pub Answers : List ℕ → List ℕ → ℕ → ℕ → Type 0
Answers xs [] target answer = answer ≡ last_boundary
Answers xs (k ∷ ks) target answer =
    ((target < count_le k xs) × (answer ≡ k))
    ⊎ ((count_le k xs ≤ target) × Answers xs ks target answer)

percentile_from-Answers :
    (xs bs ks : List ℕ) (c target : ℕ)
    → length xs < 2 ^ 64
    → Counts xs c bs ks
    → Answers xs ks target (percentile_from bs ks target c)
unfolding percentile_from
percentile_from-Answers xs [] ks c target few h = absurd h
percentile_from-Answers xs (b ∷ bs) [] c target few h = refl
percentile_from-Answers xs (b ∷ bs) (k ∷ ks) c target few h =
    let step : u64 (c + b) ≡ count_le k xs = omega (arith, h.0, count_le-le-length k xs) in
    rw step (elim (Bool-cases (ltb target (count_le k xs))) [
      | inl more ↦ rw more (inl (ltb→lt target (count_le k xs) more, refl))
      | inr less ↦ rw less (
          inr (
            ltb→ge target (count_le k xs) less,
            percentile_from-Answers xs bs ks (count_le k xs) target few h.1,
          ))
    ])

percentile_of_pos :
    (target_of : ℕ → ℕ) (s : Stats) (n : ℕ)
    → s.queue_wait_count ≡ n
    → 0 < n
    → percentile target_of s
      ≡ percentile_from s.queue_wait_buckets bucket_boundaries (target_of n) 0
unfolding percentile
percentile_of_pos target_of s n e h = ground arith

-- With samples recorded, fewer than 2^64 of them, `percentile` returns the least bucket boundary that
-- more than the target of samples do not exceed, and the last boundary if there is none.
pub percentile-Answers :
    (target_of : ℕ → ℕ) (s : Stats) (xs : List ℕ)
    → Summarises s xs
    → 0 < length xs
    → length xs < 2 ^ 64
    → Answers xs bucket_boundaries (target_of (length xs)) (percentile target_of s)
percentile-Answers target_of s xs h some_left few =
    rw (percentile_of_pos target_of s (length xs) h.counted some_left) (
      percentile_from-Answers xs s.queue_wait_buckets bucket_boundaries 0 (target_of (length xs))
        few h.histogram)
