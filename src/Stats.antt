-- ===== src/Stats.antt =====
-- core/include/edgeflow/stats.hpp. Each counter is an atomic word; a call is one step on the record.
-- Doubles are a parameter: the mean is a quotient of two of them, and a percentile's target the
-- product of a fraction with the count, cast back.
pub mod Histogram
pub mod Waits
pub mod Percentile
mod Tests
use edge_flow.Prelude.{
  ℕ, zero, suc, ◌+◌, ◌-◌, ◌/◌, ◌%◌, ◌^◌, Bool, List, [], ◌∷◌, ltb, leb, ◌==◌, if◌then◌else◌, get_or,
  set,
}
use edge_flow.Prelude.Int.{ℤ, pos, negsuc}

abbrev pub u64 : ℕ → ℕ
u64 n = n % 2 ^ 64

-- kBucketBoundariesUs
abbrev pub bucket_boundaries : List ℕ
bucket_boundaries =
    100 ∷ 250 ∷ 500 ∷ 1000 ∷ 2500 ∷ 5000 ∷ 10000 ∷ 25000 ∷ 50000 ∷ 100000 ∷ 250000 ∷ 500000
    ∷ 1000000 ∷ 2500000 ∷ 5000000 ∷ 10000000 ∷ []

abbrev pub last_boundary : ℕ
last_boundary = 10000000

pub record Stats : Type 0 where
  pub events_accepted : ℕ
  pub events_dropped_oldest : ℕ
  pub events_dropped_newest : ℕ
  pub events_malformed : ℕ
  pub queue_wait_count : ℕ
  pub queue_wait_sum_us : ℕ
  pub queue_wait_min_us : ℕ
  pub queue_wait_max_us : ℕ
  pub queue_wait_buckets : List ℕ
  pub batches_sent : ℕ
  pub batches_retried : ℕ
  pub batches_dropped_outbound : ℕ
  pub batches_dropped_exhausted : ℕ

-- The member initialisers.
abbrev pub no_stats : Stats
no_stats = record {
  events_accepted = 0;
  events_dropped_oldest = 0;
  events_dropped_newest = 0;
  events_malformed = 0;
  queue_wait_count = 0;
  queue_wait_sum_us = 0;
  queue_wait_min_us = 2 ^ 64 - 1;
  queue_wait_max_us = 0;
  queue_wait_buckets = 0 ∷ 0 ∷ 0 ∷ 0 ∷ 0 ∷ 0 ∷ 0 ∷ 0 ∷ 0 ∷ 0 ∷ 0 ∷ 0 ∷ 0 ∷ 0 ∷ 0 ∷ 0 ∷ 0 ∷ [];
  batches_sent = 0;
  batches_retried = 0;
  batches_dropped_outbound = 0;
  batches_dropped_exhausted = 0;
}

unfoldable pub record_accepted : Stats → Stats
record_accepted s = record s { events_accepted = u64 (s.events_accepted + 1) }

unfoldable pub record_dropped_oldest : Stats → Stats
record_dropped_oldest s = record s { events_dropped_oldest = u64 (s.events_dropped_oldest + 1) }

unfoldable pub record_dropped_newest : Stats → Stats
record_dropped_newest s = record s { events_dropped_newest = u64 (s.events_dropped_newest + 1) }

unfoldable pub record_malformed : Stats → Stats
record_malformed s = record s { events_malformed = u64 (s.events_malformed + 1) }

unfoldable pub record_batch_sent : Stats → Stats
record_batch_sent s = record s { batches_sent = u64 (s.batches_sent + 1) }

unfoldable pub record_batch_retried : Stats → Stats
record_batch_retried s = record s { batches_retried = u64 (s.batches_retried + 1) }

unfoldable pub record_batch_dropped_outbound : Stats → Stats
record_batch_dropped_outbound s = record s {
  batches_dropped_outbound = u64 (s.batches_dropped_outbound + 1);
}

unfoldable pub record_batch_dropped_exhausted : Stats → Stats
record_batch_dropped_exhausted s = record s {
  batches_dropped_exhausted = u64 (s.batches_dropped_exhausted + 1);
}

-- duration_cast from nanoseconds to microseconds, which truncates towards zero, and 0 for what is
-- negative after it.
abbrev pub micros : ℤ → ℕ
micros (pos ns) = ns / 1000
micros (negsuc ns) = 0

-- The index of the first boundary that is not below `us`; past the last, the number of boundaries.
abbrev pub first_bucket : List ℕ → ℕ → ℕ
first_bucket [] us = 0
first_bucket (k ∷ ks) us = if leb us k then 0 else suc (first_bucket ks us)

unfoldable pub bucket_for : ℕ → ℕ
bucket_for us = first_bucket bucket_boundaries us

-- fetch_add(1) on one bucket.
abbrev pub count_in : List ℕ → ℕ → List ℕ
count_in bs i = set bs i (u64 (get_or bs i 0 + 1))

-- The compare-exchange loops leave the lower and the higher of two values.
abbrev pub lower : ℕ → ℕ → ℕ
lower us current = if ltb us current then us else current

abbrev pub higher : ℕ → ℕ → ℕ
higher us current = if ltb current us then us else current

unfoldable pub record_queue_wait : ℤ → Stats → Stats
record_queue_wait wait s = record s {
  queue_wait_count = u64 (s.queue_wait_count + 1);
  queue_wait_sum_us = u64 (s.queue_wait_sum_us + micros wait);
  queue_wait_min_us = lower (micros wait) s.queue_wait_min_us;
  queue_wait_max_us = higher (micros wait) s.queue_wait_max_us;
  queue_wait_buckets = count_in s.queue_wait_buckets (bucket_for (micros wait));
}

-- The loop of `percentile` over the buckets and their boundaries, the overflow bucket last.
unfoldable pub percentile_from : List ℕ → List ℕ → ℕ → ℕ → ℕ
percentile_from [] ks target cumulative = last_boundary
percentile_from (b ∷ bs) [] target cumulative = last_boundary
percentile_from (b ∷ bs) (k ∷ ks) target cumulative =
    let rest = percentile_from bs ks target (u64 (cumulative + b)) in
    if ltb target (u64 (cumulative + b)) then k else rest

-- `target_of total` is `static_cast<uint64_t>(fraction * static_cast<double>(total))`.
unfoldable pub percentile : (ℕ → ℕ) → Stats → ℕ
percentile target_of s =
    if s.queue_wait_count == 0
    then 0
    else percentile_from s.queue_wait_buckets bucket_boundaries (target_of s.queue_wait_count) 0

-- What the model takes of double: a division of two counts, and the two targets.
pub record Doubles : Type 1 where
  pub Double : Type 0
  pub zero_double : Double
  pub mean : ℕ → ℕ → Double
  pub half_of : ℕ → ℕ
  pub most_of : ℕ → ℕ

pub record StatsSnapshot (Double : Type 0) : Type 0 where
  pub accepted : ℕ
  pub dropped_oldest : ℕ
  pub dropped_newest : ℕ
  pub malformed : ℕ
  pub wait_count : ℕ
  pub wait_min_us : ℕ
  pub wait_max_us : ℕ
  pub wait_mean_us : Double
  pub wait_p50_us : ℕ
  pub wait_p99_us : ℕ
  pub sent : ℕ
  pub retried : ℕ
  pub dropped_outbound : ℕ
  pub dropped_exhausted : ℕ

module _ (d : Doubles) where
  -- The six wait figures stay 0 until a wait is recorded.
  unfoldable pub snapshot : Stats → StatsSnapshot d.Double
  snapshot s = record {
    accepted = s.events_accepted;
    dropped_oldest = s.events_dropped_oldest;
    dropped_newest = s.events_dropped_newest;
    malformed = s.events_malformed;
    wait_count = s.queue_wait_count;
    wait_min_us = if ltb 0 s.queue_wait_count then s.queue_wait_min_us else 0;
    wait_max_us = if ltb 0 s.queue_wait_count then s.queue_wait_max_us else 0;
    wait_mean_us =
        if ltb 0 s.queue_wait_count
        then d.mean s.queue_wait_sum_us s.queue_wait_count
        else d.zero_double;
    wait_p50_us = if ltb 0 s.queue_wait_count then percentile d.half_of s else 0;
    wait_p99_us = if ltb 0 s.queue_wait_count then percentile d.most_of s else 0;
    sent = s.batches_sent;
    retried = s.batches_retried;
    dropped_outbound = s.batches_dropped_outbound;
    dropped_exhausted = s.batches_dropped_exhausted;
  }
