-- ===== src/Gateway/Tests.antt =====
-- The gateway at concrete moves: one connection, one worker, and a queue of one place.
use native.Mathlib.Decide.{ℕ_discrete}
use edge_flow.Prelude.{
  ℕ, ◌+◌, ◌<◌, ◌≡◌, refl, List, [], ◌∷◌, Option, none, some, false, arith, length,
}
use edge_flow.Prelude.Except.{Text, ok}
use edge_flow.Queue.Bounded
use edge_flow.Sinks
use edge_flow.Config.{defaults, parse_args, parse_all, validate}
use edge_flow.Gateway.Start
use edge_flow.Gateway.Start.{World, open_sink, exit_code}
use edge_flow.Gateway.Start.Laws.{StartsMutex, StartsLockFree, start-parse_args}
use edge_flow.Prelude.Text.{codes}
use edge_flow.Queue.Types.{drop_oldest}
use edge_flow.Queue.Bounded.{BoundedQueue, pop, push, shutdown}
use edge_flow.Queue.Bounded.Laws.{bounded_queue}
use edge_flow.Batcher
use edge_flow.Batcher.{flush, flush_locked, add_event, append_event, should_flush}
use edge_flow.Connection.{respond, handle_line, after_parse, push_event, after_push, start}
use edge_flow.Workers.{TimedEvent, Clock, finished, turn, work, stop}
use edge_flow.Workers.Conserve.{weigh}
use edge_flow.Workers.Drain.{run_turns, Runs, left_to_do}
use edge_flow.Gateway.{
  Gateway, Move, arrives, accepted, handles, line_read, works, flushes, opened, serve, handle,
  flush_pool, move, run, shut_down,
}
use edge_flow.Gateway.Conserve.{held_all, read_in, lost_in}
use edge_flow.Gateway.Shutdown.{shut_down-wealth}

-- The first byte is the event; an empty line is malformed.
abbrev first_byte : Text → Option ℕ
first_byte [] = none
first_byte (b ∷ line) = some b

abbrev one_place : BoundedQueue (TimedEvent ℕ)
one_place = record { items = []; capacity = 1; policy = drop_oldest; shutting_down = false }

abbrev at_once : Clock
at_once = record { popped = 9; began = 9; checked = 9 }

-- The second event puts out the first, and the worker holds it when main stops the pool.
abbrev session : List Move
session =
    arrives accepted
    ∷ handles 0 (line_read (codes "a") 1)
    ∷ handles 0 (line_read (codes "b") 2)
    ∷ handles 0 (line_read [] 3)
    ∷ works 0 at_once
    ∷ flushes
    ∷ []

abbrev to_the_end : List (ℕ × Clock)
to_the_end = (0, at_once) ∷ (0, at_once) ∷ (0, at_once) ∷ []

to_the_end-Runs :
    Runs
      (bounded_queue (TimedEvent ℕ))
      1
      (stop
        (bounded_queue (TimedEvent ℕ))
        (run
          (bounded_queue (TimedEvent ℕ))
          first_byte
          (opened (bounded_queue (TimedEvent ℕ)) one_place drop_oldest 4 5 0)
          session).pool)
      to_the_end
unfolding Runs turn work pop stop run move serve handle respond handle_line after_parse push_event
    after_push start flush_pool flush push shutdown Batcher.make
to_the_end-Runs = ground arith

to_the_end-left_to_do :
    length to_the_end
    ≡ left_to_do (bounded_queue (TimedEvent ℕ)) 1 (
        stop
          (bounded_queue (TimedEvent ℕ))
          (run
            (bounded_queue (TimedEvent ℕ))
            first_byte
            (opened (bounded_queue (TimedEvent ℕ)) one_place drop_oldest 4 5 0)
            session).pool)
unfolding turn work pop stop run move serve handle respond handle_line after_parse push_event
    after_push start flush_pool flush push shutdown Batcher.make ℕ_discrete
to_the_end-left_to_do = refl

abbrev begun : Gateway (bounded_queue (TimedEvent ℕ))
begun = opened (bounded_queue (TimedEvent ℕ)) one_place drop_oldest 4 5 0

abbrev served : Gateway (bounded_queue (TimedEvent ℕ))
served = run (bounded_queue (TimedEvent ℕ)) first_byte begun session

-- The sink is handed the second event alone.
delivered_once :
    (shut_down (bounded_queue (TimedEvent ℕ)) served.pool to_the_end).delivered ≡ 98 ∷ []
unfolding shut_down run_turns turn work add_event append_event should_flush flush_locked pop stop
    run move serve handle respond handle_line after_parse push_event after_push start flush_pool
    flush push shutdown Batcher.make ℕ_discrete
delivered_once = refl

shut_down-wealth_example :
    let p = shut_down (bounded_queue (TimedEvent ℕ)) served.pool to_the_end in
    (p.queue.items ≡ [])
    × (p.batcher.buffer ≡ [])
    × ((i : ℕ) → i < 1 → p.workers i ≡ finished)
    × (weigh (λ n. n) p.delivered
          + held_all (λ n. n) served.connections
          + lost_in (bounded_queue (TimedEvent ℕ)) (λ n. n) first_byte begun session
        ≡ read_in (bounded_queue (TimedEvent ℕ)) (λ n. n) first_byte begun session)
shut_down-wealth_example =
    shut_down-wealth (bounded_queue (TimedEvent ℕ)) (λ n. n) first_byte 1 one_place drop_oldest 4 5
      0 session to_the_end refl (omega arith) (omega arith) to_the_end-Runs to_the_end-left_to_do

abbrev no_file : World
no_file = record { key_prefix = []; is_open = false; existing = [] }

-- The file sink of the default configuration, whose file cannot be opened.
accepts_none : parse_args [] ≡ ok defaults
unfolding parse_args parse_all validate
accepts_none = refl

start-parse_args_example :
    StartsMutex ℕ no_file [] defaults × StartsLockFree {A = ℕ} 0 no_file [] defaults
start-parse_args_example = start-parse_args 0 no_file [] accepts_none

fails : exit_code (Start.start {Q = BoundedQueue ℕ} Bounded.make no_file []) ≡ 1
unfolding Start.start open_sink Sinks.open_sink parse_args parse_all validate Bounded.make
fails = refl
