-- ===== src/Stats/Tests.antt =====
-- The statistics at concrete inputs.
use edge_flow.Prelude.{◌/◌, [], ◌∷◌, arith}
use edge_flow.Prelude.Int.{pos}
use edge_flow.Stats.{Stats, no_stats, record_queue_wait, percentile, bucket_boundaries}
use edge_flow.Stats.Waits.{Summarises, no_stats-Summarises, record_queue_wait-Summarises}
use edge_flow.Stats.Percentile.{Answers, percentile-Answers}

-- Waits of 30 and of 7 microseconds.
abbrev two_waits : Stats
two_waits = record_queue_wait (pos 7500) (record_queue_wait (pos 30000) no_stats)

record_queue_wait-Summarises_example : Summarises (record_queue_wait (pos 30000) no_stats) (30 ∷ [])
record_queue_wait-Summarises_example =
    record_queue_wait-Summarises no_stats [] (pos 30000) (omega arith) (omega arith)
      no_stats-Summarises

two_waits-Summarises : Summarises two_waits (7 ∷ 30 ∷ [])
two_waits-Summarises =
    record_queue_wait-Summarises (record_queue_wait (pos 30000) no_stats) (30 ∷ []) (pos 7500)
      (omega arith) (omega arith) record_queue_wait-Summarises_example

-- The median of two samples: the target is one sample.
percentile-Answers_example :
    Answers (7 ∷ 30 ∷ []) bucket_boundaries 1 (percentile (λ n. n / 2) two_waits)
percentile-Answers_example =
    percentile-Answers (λ n. n / 2) two_waits (7 ∷ 30 ∷ []) two_waits-Summarises (omega arith)
      (omega arith)
