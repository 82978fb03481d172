-- ===== src/Queue/Types.antt =====
-- core/include/edgeflow/queue_types.hpp, and what a blocking `pop` can come to.

-- What a queue does when an item arrives and the queue is full.
pub data BackpressurePolicy : Type 0 where
  block drop_oldest drop_newest : BackpressurePolicy

-- The outcome of a push.
pub data PushResult : Type 0 where
  accepted dropped_oldest rejected_backpressure : PushResult

-- `item` and `closed` are the two returns of `pop`, an item and std::nullopt; `waits` is a call
-- that stays blocked in the state it was made in.
pub data Popped {ℓ} (A : Type ℓ) : Type ℓ where
  item : A → Popped A
  closed : Popped A
  waits : Popped A
