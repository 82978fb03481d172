-- ===== src/HttpSink/Sink.antt =====
-- HttpSink::consume, run and stop (gateway/src/http_sink.cpp). The callers of consume() and stop() and
-- the sink's threads are interleaved: a `Move` is a call of consume(), the part of stop() before the
-- joins, or one half of a round of run(), which pops a batch or sees it through. The counters are
-- atomic, so what the other threads do meanwhile does not touch a thread's own batch. The answers of
-- the network, the jitter and the clock, in nanoseconds, are arguments of the moves.
pub mod Account
pub mod Drain
pub mod Shutdown
mod Tests
use edge_flow.Prelude.{ℕ, ◌+◌, ◌*◌, Bool, true, false, List, [], ◌∷◌, ◌&&◌, leb, if◌then◌else◌}
use edge_flow.Prelude.Int.{ℤ, pos, negsuc}
use edge_flow.Prelude.Except.{Text, Except, ok, ◌>>=◌}
use edge_flow.HttpSink.Url.{Target, parse_url}
use edge_flow.Queue.Types.{
  BackpressurePolicy, PushResult, accepted, dropped_oldest, rejected_backpressure, Popped, item,
  closed, waits,
}
use edge_flow.Queue.Bounded
use edge_flow.Queue.Bounded.{BoundedQueue}
use edge_flow.Stats.{
  Stats, record_batch_sent, record_batch_dropped_outbound, record_batch_dropped_exhausted,
}
use edge_flow.Sinks.{body_from}
use edge_flow.HttpSink.Keys.{Keys, next_idempotency_key}
use edge_flow.HttpSink.Send.{PersistentConnection, no_connection, Answers}
use edge_flow.HttpSink.Retry.{Sent, send_with_retries}
use edge_flow.Workers.Family.{update}

pub record OutboundBatch : Type 0 where
  pub body : Text
  pub idempotency_key : Text

-- Where a thread stands in run().
pub data Thread : Type 0 where
  popping : Thread  -- in `outbound_.pop()`
  holding : OutboundBatch → Thread  -- with a batch that it popped
  ended : Thread  -- the loop has ended

pub record Options : Type 0 where
  pub url : Text
  pub outbound_capacity : ℕ
  pub concurrency : ℕ
  pub backpressure : BackpressurePolicy
  pub max_retries : ℕ
  pub backoff_base : ℤ  -- in milliseconds, as the next
  pub timeout : ℤ

pub record HttpSink : Type 0 where
  pub options : Options
  pub target : Target
  pub stats : Stats
  pub outbound : BoundedQueue OutboundBatch
  pub keys : Keys
  pub draining : Bool
  pub drain_deadline : ℕ
  pub stopped : Bool
  pub threads : ℕ → Thread
  pub connections : ℕ → PersistentConnection

-- What the constructor builds, with the random prefix of the keys and the counters that the sink
-- shares. The threads that it spawns are those below `concurrency`, each at its first pop.
abbrev pub built : Options → Text → Stats → Target → BoundedQueue OutboundBatch → HttpSink
built options key_prefix stats target outbound = record {
  options = options;
  target = target;
  stats = stats;
  outbound = outbound;
  keys = record { key_prefix = key_prefix; key_counter = 0 };
  draining = false;
  drain_deadline = 0;
  stopped = false;
  threads = λ i. popping;
  connections = λ i. no_connection;
}

-- The constructor.
unfoldable pub open_http_sink : Options → Text → Stats → Except HttpSink
open_http_sink options key_prefix stats = parse_url options.url >>= λ target.
    Bounded.make options.outbound_capacity options.backpressure >>= λ outbound.
    ok (built options key_prefix stats target outbound)

-- What one round of run() reads from outside.
pub record Round : Type 0 where
  pub now : ℕ
  pub answers : ℕ → Answers
  pub jitter : ℕ → ℕ

pub data Move (A : Type 0) : Type 0 where
  consumes : List A → Move A
  turns : ℕ → Round → Move A
  stops : ℕ → Move A

-- 5 seconds.
abbrev pub drain_time : ℕ
drain_time = 5000000000

-- A batch that the queue did not take, and one that it put out, count alike.
unfoldable pub count_push : PushResult → Stats → Stats
count_push accepted s = s
count_push dropped_oldest s = record_batch_dropped_outbound s
count_push rejected_backpressure s = record_batch_dropped_outbound s

-- The end of consume(), from the push on.
unfoldable pub enqueue : OutboundBatch → HttpSink → HttpSink
enqueue batch s =
    let (result, q) = Bounded.push batch s.outbound in
    record s { outbound = q; stats = count_push result s.stats }

module _ {A : Type 0} (serialize : A → Text) where
  unfoldable pub consume : List A → HttpSink → HttpSink
  consume [] s = s
  consume (e ∷ es) s =
      let (key, keys) = next_idempotency_key s.keys in
      enqueue (record { body = body_from serialize [] (e ∷ es); idempotency_key = key })
        (record s { keys = keys })

abbrev pub popped_thread : Popped OutboundBatch → Thread
popped_thread (item b) = holding b
popped_thread closed = ended
popped_thread waits = popping

-- What a batch's way through the network leaves.
unfoldable pub settle : Sent → ℕ → HttpSink → HttpSink
settle r i s = record s {
  stats = if r.delivered then record_batch_sent r.stats else record_batch_dropped_exhausted r.stats;
  connections = update s.connections i r.connection;
}

-- A backoff from 0 on. The random part of a wait is undefined for one below.
abbrev pub natural : ℤ → ℕ
natural (pos n) = n
natural (negsuc n) = 0

-- Past the deadline a batch that is still there is counted as dropped.
unfoldable pub see_through : ℕ → Round → HttpSink → HttpSink
see_through i c s =
    if s.draining && leb s.drain_deadline c.now
    then record s { stats = record_batch_dropped_exhausted s.stats }
    else settle
        (send_with_retries s.target c.answers c.jitter s.options.max_retries
          (natural s.options.backoff_base) (s.connections i) s.stats)
        i s

-- Half a round of run(), by thread `i`, which stands at the third argument.
unfoldable pub work : ℕ → Round → Thread → HttpSink → Thread × HttpSink
work i c popping s =
    let (got, q) = Bounded.pop s.outbound in (popped_thread got, record s { outbound = q })
work i c (holding b) s = (popping, see_through i c s)
work i c ended s = (ended, s)

unfoldable pub turn : ℕ → Round → HttpSink → HttpSink
turn i c s = let (t, s') = work i c (s.threads i) s in record s' { threads = update s.threads i t }

-- stop(), up to the joins: a second call returns at once.
unfoldable pub stop : ℕ → HttpSink → HttpSink
stop now s = if s.stopped then s else record s {
  stopped = true;
  drain_deadline = now + drain_time;
  draining = true;
  outbound = Bounded.shutdown s.outbound;
}

module _ {A : Type 0} (serialize : A → Text) where
  unfoldable pub move : HttpSink → Move A → HttpSink
  move s (consumes batch) = consume serialize batch s
  move s (turns i c) = turn i c s
  move s (stops now) = stop now s

  unfoldable pub run : HttpSink → List (Move A) → HttpSink
  run s [] = s
  run s (m ∷ ms) = run (move s m) ms
