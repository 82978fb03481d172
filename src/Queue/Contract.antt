-- ===== src/Queue/Contract.antt =====
-- core/include/edgeflow/queue_concept.hpp: the concept EventQueue as a record of operations, with
-- what its comment and the class comments of the queues promise, as laws over an abstract view.
pub mod History
use edge_flow.Prelude.{
  ℕ, suc, ◌≤◌, ◌≡◌, refl, Bool, true, false, List, [], ◌∷◌, ◌++◌, arith, length, ltb, if◌then◌else◌,
  rest_of,
}
use edge_flow.Queue.Types.{
  BackpressurePolicy, block, drop_oldest, drop_newest, PushResult, accepted, dropped_oldest,
  rejected_backpressure, Popped, item, closed, waits,
}

-- What a client can know of a queue: the items, oldest first, and the settings.
pub record View {ℓ} (A : Type ℓ) : Type ℓ where
  pub items : List A
  pub capacity : ℕ
  pub policy : BackpressurePolicy
  pub shut : Bool

module _ {ℓ} {A : Type ℓ} where
  -- What a full queue does with a new item.
  abbrev pub offer_full : BackpressurePolicy → A → View A → PushResult × View A
  offer_full block a v = (rejected_backpressure, v)
  offer_full drop_oldest a v = (dropped_oldest, record v { items = rest_of v.items ++ a ∷ [] })
  offer_full drop_newest a v = (rejected_backpressure, v)

  abbrev pub offer : A → View A → PushResult × View A
  offer a v =
      if ltb (length v.items) v.capacity
      then (accepted, record v { items = v.items ++ a ∷ [] })
      else offer_full v.policy a v

  abbrev pub poll_items : List A → View A → Popped A × View A
  poll_items [] v = (if v.shut then closed else waits, v)
  poll_items (a ∷ rest) v = (item a, record v { items = rest })

  abbrev pub poll : View A → Popped A × View A
  poll v = poll_items v.items v

  abbrev pub close : View A → View A
  close v = record v { shut = true }

-- `IsReady n q`: the representation is sound, and stays so for `n` more pushes.
pub record EventQueue (A : Type 0) : Type 1 where
  pub Queue : Type 0
  pub IsReady : ℕ → Queue → Type 0
  pub view : Queue → View A
  pub push : A → Queue → PushResult × Queue
  pub pop : Queue → Popped A × Queue
  pub shutdown : Queue → Queue
  pub size : Queue → ℕ
  pub capacity : Queue → ℕ
  pub push-IsReady : (n : ℕ) (a : A) (q : Queue) → IsReady (suc n) q → IsReady n (push a q).1
  pub pop-IsReady : (n : ℕ) (q : Queue) → IsReady n q → IsReady n (pop q).1
  pub shutdown-IsReady : (n : ℕ) (q : Queue) → IsReady n q → IsReady n (shutdown q)
  pub push_lem :
      (n : ℕ) (a : A) (q : Queue)
      → IsReady (suc n) q
      → ((push a q).0 ≡ (offer a (view q)).0) × (view (push a q).1 ≡ (offer a (view q)).1)
  pub pop_lem :
      (n : ℕ) (q : Queue)
      → IsReady n q
      → ((pop q).0 ≡ (poll (view q)).0) × (view (pop q).1 ≡ (poll (view q)).1)
  pub shutdown_lem : (n : ℕ) (q : Queue) → IsReady n q → view (shutdown q) ≡ close (view q)
  pub size_lem : (n : ℕ) (q : Queue) → IsReady n q → size q ≡ length (view q).items
  pub capacity_lem : (n : ℕ) (q : Queue) → IsReady n q → capacity q ≡ (view q).capacity
  pub positive : (n : ℕ) (q : Queue) → IsReady n q → 1 ≤ (view q).capacity
  pub fits : (n : ℕ) (q : Queue) → IsReady n q → length (view q).items ≤ (view q).capacity
