-- ===== src/Connection.antt =====
-- gateway/include/edgeflow/gateway/connection.hpp over any event queue. The one reactor thread runs one
-- completion handler after another; a `Completion` is a handler of this connection, or what the others
-- do to the shared queue in between. Of the shared counters a connection has the part that it counts
-- itself. parse_event is a parameter, and so is the clock.
pub mod Account
pub mod Order
mod Tests
use edge_flow.Prelude.{ℕ, Bool, true, false, List, [], ◌∷◌, Option, none, some, if◌then◌else◌}
use edge_flow.Prelude.Except.{Text}
use edge_flow.Queue.Types.{
  BackpressurePolicy, drop_newest, PushResult, accepted, dropped_oldest, rejected_backpressure,
}
use edge_flow.Queue.Contract.{EventQueue}
use edge_flow.Stats.{
  Stats, record_accepted, record_dropped_oldest, record_dropped_newest, record_malformed,
}
use edge_flow.Workers.{TimedEvent}

-- The asynchronous operation that is under way.
pub data Status (A : Type 0) : Type 0 where
  reading : Status A  -- async_read_until
  retrying : TimedEvent A → Status A  -- the retry timer, with the event to push again
  closed : Status A  -- none: the connection is dropped

-- `policy_ == BackpressurePolicy::DropNewest`
abbrev pub is_drop_newest : BackpressurePolicy → Bool
is_drop_newest drop_newest = true
is_drop_newest _ = false

module _ {A : Type 0} (E : EventQueue (TimedEvent A)) where
  pub data Completion : Type 0 where
    reads : Text → ℕ → Completion  -- a line, and the clock's reading
    fires : Completion  -- the timer
    read_fails : Completion  -- the end of the stream, a line that is too long, or an error
    timer_fails : Completion  -- the timer was cancelled
    meanwhile : E.Queue → Completion  -- the queue as the workers and other connections leave it

  pub record Connection : Type 0 where
    pub queue : E.Queue
    pub policy : BackpressurePolicy
    pub stats : Stats
    pub status : Status A

  abbrev pub read_line : Connection → Connection
  read_line c = record c { status = reading }

  abbrev pub retry_push : TimedEvent A → Connection → Connection
  retry_push timed c = record c { status = retrying timed }

  -- start()
  unfoldable pub start : Connection → Connection
  start c = read_line c

  -- What push_event does with the result of the push.
  unfoldable pub after_push : TimedEvent A → PushResult → Connection → Connection
  after_push timed accepted c = read_line (record c { stats = record_accepted c.stats })
  after_push timed dropped_oldest c = read_line (record c { stats = record_dropped_oldest c.stats })
  after_push timed rejected_backpressure c =
      if is_drop_newest c.policy
      then read_line (record c { stats = record_dropped_newest c.stats })
      else retry_push timed c

  unfoldable pub push_event : TimedEvent A → Connection → Connection
  push_event timed c =
      let (result, q) = E.push timed c.queue in after_push timed result (record c { queue = q })

  -- What the timer's handler does with the result of the push.
  unfoldable pub after_retry : TimedEvent A → PushResult → Connection → Connection
  after_retry timed rejected_backpressure c = retry_push timed c
  after_retry timed accepted c = read_line (record c { stats = record_accepted c.stats })
  after_retry timed dropped_oldest c =
      read_line (record c { stats = record_dropped_oldest c.stats })

  unfoldable pub push_again : TimedEvent A → Connection → Connection
  push_again timed c =
      let (result, q) = E.push timed c.queue in after_retry timed result (record c { queue = q })

  module _ (parse_event : Text → Option A) where
    unfoldable pub after_parse : Option A → ℕ → Connection → Connection
    after_parse none now c = read_line (record c { stats = record_malformed c.stats })
    after_parse (some event) now c = push_event (record { event = event; enqueued_at = now }) c

    unfoldable pub handle_line : Text → ℕ → Connection → Connection
    handle_line line now c = after_parse (parse_event line) now c

    -- A handler runs only for the operation that is under way.
    unfoldable pub respond : Status A → Completion → Connection → Connection
    respond s (meanwhile q) c = record c { queue = q }
    respond reading (reads line now) c = handle_line line now c
    respond reading read_fails c = record c { status = closed }
    respond (retrying timed) fires c = push_again timed c
    respond (retrying timed) timer_fails c = record c { status = closed }
    respond s m c = c

    unfoldable pub run : Connection → List Completion → Connection
    run c [] = c
    run c (m ∷ ms) = run (respond c.status m c) ms
