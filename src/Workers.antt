-- ===== src/Workers.antt =====
-- core/include/edgeflow/worker_pool.hpp over any event queue, with core/include/edgeflow/timed_event.hpp.
-- The threads of the pool, the producer that pushes and the caller of stop() are interleaved: a
-- `Move` is one call that a thread makes on the queue, the statistics or the batcher, each of which
-- is atomic by its own lock. A move carries the readings of the clock that the call makes.
pub mod Family
pub mod Conserve
pub mod Drain
mod Tests
use edge_flow.Prelude.{
  ℕ, Bool, true, false, List, [], ◌∷◌, ◌++◌, Option, none, some, if◌then◌else◌, ltb,
}
use edge_flow.Prelude.Int.{sub_ℕ}
use edge_flow.Queue.Types.{Popped, item, closed, waits}
use edge_flow.Queue.Contract.{EventQueue}
use edge_flow.Stats.{Stats, record_queue_wait}
use edge_flow.Batcher.{Batcher, add_event}
use edge_flow.Batcher.Order.{out}
use Family.{update}

-- An event with the time of its first push, in nanoseconds.
pub record TimedEvent (A : Type 0) : Type 0 where
  pub event : A
  pub enqueued_at : ℕ

-- Where a worker stands in worker_loop().
pub data Worker (A : Type 0) : Type 0 where
  popping : Worker A  -- in `queue_.pop()`
  recording : TimedEvent A → Worker A  -- before `stats_.record_queue_wait(…)`
  adding : A → Worker A  -- before `batcher_.add_event(…)`
  finished : Worker A  -- the loop has ended

-- The readings of the steady clock in one round of the loop: for the wait, and the batcher's two.
pub record Clock : Type 0 where
  pub popped : ℕ
  pub began : ℕ
  pub checked : ℕ

pub data Move (A : Type 0) : Type 0 where
  turns : ℕ → Clock → Move A
  arrives : TimedEvent A → Move A
  stops : Move A

module _ {A : Type 0} (E : EventQueue (TimedEvent A)) where
  -- What the threads share. `delivered` is what the batcher's callback was handed so far.
  pub record Pool : Type 0 where
    pub queue : E.Queue
    pub stats : Stats
    pub batcher : Batcher A
    pub delivered : List A
    pub workers : ℕ → Worker A
    pub stopped : Bool

  abbrev pub popped_worker : Popped (TimedEvent A) → Worker A
  popped_worker (item t) = recording t
  popped_worker closed = finished
  popped_worker waits = popping

  -- One call of worker_loop(), by a worker that stands at `w`.
  unfoldable pub work : Worker A → Clock → Pool → Worker A × Pool
  work popping c p = let (got, q) = E.pop p.queue in (popped_worker got, record p { queue = q })
  work (recording t) c p = (
    adding t.event,
    record p { stats = record_queue_wait (sub_ℕ c.popped t.enqueued_at) p.stats },
  )
  work (adding a) c p =
      let (batch, b) = add_event a c.began c.checked p.batcher in
      (popping, record p { batcher = b; delivered = p.delivered ++ out batch })
  work finished c p = (finished, p)

  unfoldable pub turn : ℕ → Clock → Pool → Pool
  turn i c p = let (w, p') = work (p.workers i) c p in record p' { workers = update p.workers i w }

  -- stop(), up to the joins: a second call returns at once.
  unfoldable pub stop : Pool → Pool
  stop p = if p.stopped then p else record p { stopped = true; queue = E.shutdown p.queue }

  unfoldable pub move : Pool → Move A → Pool
  move p (turns i c) = turn i c p
  move p (arrives t) = record p { queue = (E.push t p.queue).1 }
  move p stops = stop p

  unfoldable pub run : Pool → List (Move A) → Pool
  run p [] = p
  run p (m ∷ ms) = run (move p m) ms
