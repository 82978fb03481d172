-- ===== src/Connection/Tests.antt =====
-- A connection at concrete completions.
use edge_flow.Prelude.{
  ℕ, ◌+◌, ◌≡◌, refl, List, [], ◌∷◌, ◌++◌, false, Option, none, some, arith, length,
}
use edge_flow.Prelude.Except.{Text}
use edge_flow.Prelude.Text.{codes}
use edge_flow.Queue.Types.{block}
use edge_flow.Queue.Bounded.{BoundedQueue}
use edge_flow.Queue.Bounded.Laws.{bounded_queue}
use edge_flow.Stats.{no_stats, u64}
use edge_flow.Workers.{TimedEvent}
use edge_flow.Connection.{Connection, reading, Completion, reads, fires, read_fails, meanwhile, run}
use edge_flow.Connection.Account.{counted, lines, waiting, counted-run}
use edge_flow.Connection.Order.{stamped, entered, block_keeps_order}

-- The first byte is the event; an empty line is malformed.
abbrev first_byte : Text → Option ℕ
first_byte [] = none
first_byte (b ∷ line) = some b

abbrev one_place : List ℕ → BoundedQueue (TimedEvent ℕ)
one_place held = record { items = stamps held; capacity = 1; policy = block; shutting_down = false }
  where
    stamps : List ℕ → List (TimedEvent ℕ)
    stamps [] = []
    stamps (n ∷ ns) = record { event = n; enqueued_at = 0 } ∷ stamps ns

abbrev connected : Connection (bounded_queue (TimedEvent ℕ))
connected = record { queue = one_place []; policy = block; stats = no_stats; status = reading }

-- Two events for one place, an empty line, and a worker that makes room.
abbrev session : List (Completion (bounded_queue (TimedEvent ℕ)))
session =
    reads (codes "a") 1
    ∷ reads [] 2
    ∷ reads (codes "b") 3
    ∷ fires
    ∷ meanwhile (one_place [])
    ∷ fires
    ∷ read_fails
    ∷ []

counted-run_example :
    u64 (
      counted
        (bounded_queue (TimedEvent ℕ))
        (run (bounded_queue (TimedEvent ℕ)) first_byte connected session))
    ≡ u64 (
        counted (bounded_queue (TimedEvent ℕ)) connected
        + length (lines (bounded_queue (TimedEvent ℕ)) first_byte connected session))
counted-run_example =
    counted-run (bounded_queue (TimedEvent ℕ)) first_byte connected session (ground arith)

block_keeps_order_example :
    stamped
      (bounded_queue (TimedEvent ℕ))
      first_byte
      (lines (bounded_queue (TimedEvent ℕ)) first_byte connected session)
    ≡ entered (bounded_queue (TimedEvent ℕ)) first_byte connected session
      ++ waiting (run (bounded_queue (TimedEvent ℕ)) first_byte connected session).status
block_keeps_order_example =
    block_keeps_order (bounded_queue (TimedEvent ℕ)) first_byte connected session refl
      (ground arith)
