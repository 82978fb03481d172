-- ===== src/Workers/Tests.antt =====
-- The worker pool at concrete inputs.
use edge_flow.Prelude.{ℕ, ◌+◌, ◌≤◌, ◌≡◌, refl, Bool, List, [], ◌∷◌, false, true, arith, length}
use edge_flow.Queue.Types.{drop_oldest}
use edge_flow.Queue.Bounded.{pop}
use edge_flow.Queue.Bounded.Laws.{bounded_queue, IsValid}
use edge_flow.Stats.{no_stats}
use edge_flow.Workers.{
  TimedEvent, popping, finished, Clock, Move, turns, arrives, stops, Pool, run, work, turn,
}
use edge_flow.Workers.Conserve.{worth, entered, put_out_by, worth-run}
use edge_flow.Workers.Drain.{left_to_do, queued, run_turns, Runs, stop_bounded, stop_drains}

abbrev at_once : Clock
at_once = record { popped = 9; began = 9; checked = 9 }

abbrev stamped : ℕ → TimedEvent ℕ
stamped n = record { event = n; enqueued_at = 0 }

-- Two workers at the queue of one place, which holds the event 7, before stop() and after it.
abbrev two_workers : Bool → Pool (bounded_queue (TimedEvent ℕ))
two_workers stopping = record {
  queue = record {
    items = stamped 7 ∷ [];
    capacity = 1;
    policy = drop_oldest;
    shutting_down = stopping;
  };
  stats = no_stats;
  batcher = record { max_batch_size = 4; max_batch_age = 5; buffer = []; batch_started_at = 0 };
  delivered = [];
  workers = λ i. popping;
  stopped = stopping;
}

two_workers-IsValid : (stopping : Bool) → IsValid (two_workers stopping).queue
two_workers-IsValid stopping = omega arith

abbrev schedule : List (Move ℕ)
schedule =
    arrives (stamped 8)
    ∷ turns 1 at_once
    ∷ turns 0 at_once
    ∷ turns 1 at_once
    ∷ stops
    ∷ turns 1 at_once
    ∷ turns 0 at_once
    ∷ []

worth-run_example :
    worth (bounded_queue (TimedEvent ℕ)) (λ n. n) 2 (two_workers false)
      + entered (bounded_queue (TimedEvent ℕ)) (λ n. n) (two_workers false) schedule
    ≡ worth
        (bounded_queue (TimedEvent ℕ))
        (λ n. n)
        2
        (run (bounded_queue (TimedEvent ℕ)) (two_workers false) schedule)
      + put_out_by (bounded_queue (TimedEvent ℕ)) (λ n. n) (two_workers false) schedule
worth-run_example =
    worth-run (bounded_queue (TimedEvent ℕ)) (λ n. n) 2 (two_workers false) schedule (omega arith)
      (two_workers-IsValid false)

-- Worker 0 takes the event through, both workers find the queue closed: five calls.
abbrev to_the_end : List (ℕ × Clock)
to_the_end = (0, at_once) ∷ (1, at_once) ∷ (0, at_once) ∷ (0, at_once) ∷ (0, at_once) ∷ []

to_the_end-Runs : Runs (bounded_queue (TimedEvent ℕ)) 2 (two_workers true) to_the_end
unfolding Runs turn work pop
to_the_end-Runs = ground arith

stop_bounded_example :
    length to_the_end ≤ left_to_do (bounded_queue (TimedEvent ℕ)) 2 (two_workers true)
stop_bounded_example =
    stop_bounded (bounded_queue (TimedEvent ℕ)) 2 (two_workers true) to_the_end 0 to_the_end-Runs
      (two_workers-IsValid true) refl

stop_drains_example :
    (queued
        (bounded_queue (TimedEvent ℕ))
        (run_turns (bounded_queue (TimedEvent ℕ)) (two_workers true) to_the_end)
      ≡ [])
    × ((run_turns (bounded_queue (TimedEvent ℕ)) (two_workers true) to_the_end).workers 1
        ≡ finished)
stop_drains_example =
    stop_drains (bounded_queue (TimedEvent ℕ)) 2 (two_workers true) to_the_end 0 1 to_the_end-Runs
      (two_workers-IsValid true) refl refl (omega arith)
