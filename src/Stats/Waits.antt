-- ===== src/Stats/Waits.antt =====
-- Stats::record_queue_wait: what the wait figures say of the samples recorded so far.
use edge_flow.Prelude.{ℕ, ◌+◌, ◌-◌, ◌^◌, ◌<◌, ◌≡◌, List, [], ◌∷◌, arith, length, min, max}
use edge_flow.Prelude.Int.{ℤ}
use edge_flow.Stats.{Stats, no_stats, micros, bucket_boundaries, bucket_for, record_queue_wait}
use edge_flow.Stats.Histogram.{Counts, Counts-count_in, IsAscending}

abbrev pub sum : List ℕ → ℕ
sum [] = 0
sum (x ∷ xs) = x + sum xs

-- The least and the greatest sample, from the values that stand for none.
abbrev pub least : List ℕ → ℕ
least [] = 2 ^ 64 - 1
least (x ∷ xs) = min x (least xs)

abbrev pub greatest : List ℕ → ℕ
greatest [] = 0
greatest (x ∷ xs) = max x (greatest xs)

-- The figures are those of the samples `xs`, in microseconds, the latest first.
pub record Summarises (s : Stats) (xs : List ℕ) : Type 0 where
  pub counted : s.queue_wait_count ≡ length xs
  pub summed : s.queue_wait_sum_us ≡ sum xs
  pub lowest : s.queue_wait_min_us ≡ least xs
  pub highest : s.queue_wait_max_us ≡ greatest xs
  pub histogram : Counts xs 0 s.queue_wait_buckets bucket_boundaries

pub boundaries_ascend : IsAscending bucket_boundaries
boundaries_ascend = omega arith

pub no_stats-Summarises : Summarises no_stats []
no_stats-Summarises = omega arith

-- Recording a wait keeps every figure that of the samples, the new one among them: the count, the
-- sum, the least, the greatest and the histogram, as long as the count and the sum fit 64 bits.
pub record_queue_wait-Summarises :
    (s : Stats) (xs : List ℕ) (wait : ℤ)
    → length xs < 2 ^ 64 - 1
    → micros wait + sum xs < 2 ^ 64
    → Summarises s xs
    → Summarises (record_queue_wait wait s) (micros wait ∷ xs)
unfolding record_queue_wait bucket_for
record_queue_wait-Summarises s xs wait few small h = record {
  counted = omega (arith, h.counted);
  summed = omega (arith, h.summed);
  lowest = ground (arith, h.lowest);
  highest = ground (arith, h.highest);
  histogram =
      Counts-count_in (micros wait) 0 xs s.queue_wait_buckets bucket_boundaries boundaries_ascend
        few h.histogram;
}
