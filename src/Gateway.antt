-- ===== src/Gateway.antt =====
-- gateway/src/main.cpp and gateway/include/edgeflow/gateway/server.hpp: the server, its connections, the
-- workers and the flush thread on one event queue, interleaved, over any such queue. A `Move` is one
-- completion handler of the reactor thread, one call of a worker, or one flush of the flush thread. What
-- arrives on the sockets, which handlers fail, and the clock are arguments; parse_event is a parameter.
pub mod Worth
pub mod Conserve
pub mod Shutdown
pub mod Start
mod Tests
use edge_flow.Prelude.{ℕ, zero, suc, ◌++◌, Bool, true, false, List, [], ◌∷◌, Option, none, some}
use edge_flow.Prelude.Except.{Text}
use edge_flow.Queue.Types.{BackpressurePolicy}
use edge_flow.Queue.Contract.{EventQueue}
use edge_flow.Stats.{no_stats}
use edge_flow.Batcher
use edge_flow.Batcher.{flush}
use edge_flow.Batcher.Order.{out}
use edge_flow.Workers.{TimedEvent, popping, Clock, Pool, turn, stop}
use edge_flow.Workers.Drain.{run_turns}
use edge_flow.Connection
use edge_flow.Connection.{
  Status, reading, Completion, reads, fires, read_fails, timer_fails, Connection, respond,
}

-- The operation of the server that is under way.
pub data Accept : Type 0 where
  accepting : Accept  -- async_accept
  backing_off : Accept  -- the retry timer
  ended : Accept

-- The completions of the server's operations.
pub data Arrival : Type 0 where
  accepted : Arrival
  aborted : Arrival  -- operation_aborted
  failed : Arrival  -- another error of the accept
  retried : Arrival
  cancelled : Arrival  -- an error of the timer

-- The completions of a connection's operations.
pub data Handler : Type 0 where
  line_read : Text → ℕ → Handler
  retry_fired : Handler
  read_failed : Handler
  retry_cancelled : Handler

pub data Move : Type 0 where
  arrives : Arrival → Move
  handles : ℕ → Handler → Move  -- of the connection with the number
  works : ℕ → Clock → Move
  flushes : Move

module _ {A : Type 0} where
  abbrev pub status_at : ℕ → List (Status A) → Option (Status A)
  status_at k [] = none
  status_at zero (s ∷ ss) = some s
  status_at (suc k) (s ∷ ss) = status_at k ss

  abbrev pub set_at : ℕ → Status A → List (Status A) → List (Status A)
  set_at k now [] = []
  set_at zero now (s ∷ ss) = now ∷ ss
  set_at (suc k) now (s ∷ ss) = s ∷ set_at k now ss

module _ {A : Type 0} (E : EventQueue (TimedEvent A)) where
  pub record Gateway : Type 0 where
    pub pool : Pool E
    pub policy : BackpressurePolicy
    pub server : Accept
    pub connections : List (Status A)

  -- What main builds from the queue, with the clock's reading for the batcher.
  abbrev pub opened : E.Queue → BackpressurePolicy → ℕ → ℕ → ℕ → Gateway
  opened queue policy batch_size batch_age now = record {
    pool = record {
      queue = queue;
      stats = no_stats;
      batcher = Batcher.make batch_size batch_age now;
      delivered = [];
      workers = λ i. popping;
      stopped = false;
    };
    policy = policy;
    server = accepting;
    connections = [];
  }

  -- The connection whose status is given, as its handlers see it.
  abbrev pub connection : Gateway → Status A → Connection E
  connection g s = record {
    queue = g.pool.queue;
    policy = g.policy;
    stats = g.pool.stats;
    status = s;
  }

  abbrev pub accept_connection : Gateway → Gateway
  accept_connection g = record g {
    connections = g.connections ++ (Connection.start E (connection g reading)).status ∷ [];
  }

  -- The handlers of the server.
  unfoldable pub serve : Accept → Arrival → Gateway → Gateway
  serve accepting accepted g = accept_connection (record g { server = accepting })
  serve accepting aborted g = record g { server = ended }
  serve accepting failed g = record g { server = backing_off }
  serve backing_off retried g = record g { server = accepting }
  serve backing_off cancelled g = record g { server = ended }
  serve s e g = g

  abbrev pub completion : Handler → Completion E
  completion (line_read line now) = reads line now
  completion retry_fired = fires
  completion read_failed = read_fails
  completion retry_cancelled = timer_fails

  -- The flush thread, and the last flush of main.
  unfoldable pub flush_pool : Pool E → Pool E
  flush_pool p =
      let (batch, b) = flush p.batcher in
      record p { batcher = b; delivered = p.delivered ++ out batch }

  module _ (parse_event : Text → Option A) where
    -- A handler of connection `k`, which stands at the status.
    unfoldable pub handle : ℕ → Handler → Option (Status A) → Gateway → Gateway
    handle k h none g = g
    handle k h (some s) g =
        let c = respond E parse_event s (completion h) (connection g s) in
        record g {
          pool = record g.pool { queue = c.queue; stats = c.stats };
          connections = set_at k c.status g.connections;
        }

    unfoldable pub move : Gateway → Move → Gateway
    move g (arrives e) = serve g.server e g
    move g (handles k h) = handle k h (status_at k g.connections) g
    move g (works i c) = record g { pool = turn E i c g.pool }
    move g flushes = record g { pool = flush_pool g.pool }

    unfoldable pub run : Gateway → List Move → Gateway
    run g [] = g
    run g (m ∷ ms) = run (move g m) ms

  -- The end of main: the flush thread is gone, the pool is stopped, its workers make the turns that they
  -- still make, and the batcher is flushed.
  unfoldable pub shut_down : Pool E → List (ℕ × Clock) → Pool E
  shut_down p ts = flush_pool (run_turns E (stop E p) ts)
