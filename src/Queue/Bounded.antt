-- ===== src/Queue/Bounded.antt =====
-- core/include/edgeflow/bounded_queue.hpp. Each operation holds the one mutex from start to end, so
-- it is one step on the state; the condition variable shows as the `waits` of `pop`.
pub mod Laws
use edge_flow.Prelude.{
  ℕ, Bool, true, false, List, [], ◌∷◌, ◌++◌, length, ltb, ◌==◌, if◌then◌else◌, rest_of, Option,
}
use edge_flow.Prelude.Except.{Except, ok, throw, invalid_argument}
use edge_flow.Prelude.Text.{codes}
use edge_flow.Queue.Types.{
  BackpressurePolicy, block, drop_oldest, drop_newest, PushResult, accepted, dropped_oldest,
  rejected_backpressure, Popped, item, closed, waits,
}

pub record BoundedQueue {ℓ} (A : Type ℓ) : Type ℓ where
  pub items : List A
  pub capacity : ℕ
  pub policy : BackpressurePolicy
  pub shutting_down : Bool

-- `policy_ == BackpressurePolicy::DropOldest`
abbrev pub is_drop_oldest : BackpressurePolicy → Bool
is_drop_oldest drop_oldest = true
is_drop_oldest _ = false

module _ {ℓ} {A : Type ℓ} where
  -- The constructor.
  unfoldable pub make : ℕ → BackpressurePolicy → Except (BoundedQueue A)
  make capacity policy =
      if capacity == 0
      then throw (invalid_argument (codes "capacity must be greater than 0"))
      else ok (record { items = []; capacity = capacity; policy = policy; shutting_down = false })

  unfoldable pub push : A → BoundedQueue A → PushResult × BoundedQueue A
  push a q =
      if ltb (length q.items) q.capacity
      then (accepted, record q { items = q.items ++ a ∷ [] })
      else if is_drop_oldest q.policy
      then (dropped_oldest, record q { items = rest_of q.items ++ a ∷ [] })
      else (rejected_backpressure, q)

  pop_items : List A → BoundedQueue A → Popped A × BoundedQueue A
  pop_items [] q = (if q.shutting_down then closed else waits, q)
  pop_items (a ∷ rest) q = (item a, record q { items = rest })

  unfoldable pub pop : BoundedQueue A → Popped A × BoundedQueue A
  unfolding pop_items
  pop q = pop_items q.items q

  unfoldable pub shutdown : BoundedQueue A → BoundedQueue A
  shutdown q = record q { shutting_down = true }

  unfoldable pub size : BoundedQueue A → ℕ
  size q = length q.items
