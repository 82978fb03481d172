-- ===== src/Queue/Bounded/Laws.antt =====
-- BoundedQueue keeps the contract of the event queues.
use edge_flow.Prelude.{
  ℕ, ◌≤◌, ◌<◌, ◌≡◌, refl, [], ◌∷◌, arith, length, length-append, rest_of, length-rest_of,
}
use edge_flow.Prelude.{false}
use edge_flow.Prelude.Except.{ok}
use edge_flow.Queue.Types.{BackpressurePolicy}
use edge_flow.Queue.Contract.{View, EventQueue, offer, poll, close}
use edge_flow.Queue.Bounded.{BoundedQueue, push, pop, make, shutdown, size}

-- What the constructor establishes and every operation keeps.
pub record IsValid {ℓ} {A : Type ℓ} (q : BoundedQueue A) : Type 0 where
  pub positive : 0 < q.capacity
  pub within : length q.items ≤ q.capacity

module _ {ℓ} {A : Type ℓ} where
  abbrev pub view : BoundedQueue A → View A
  view q = record {
    items = q.items;
    capacity = q.capacity;
    policy = q.policy;
    shut = q.shutting_down;
  }

  pub push-IsValid : (a : A) (q : BoundedQueue A) → IsValid q → IsValid (push a q).1
  unfolding push
  push-IsValid a q v = ground (
    arith,
    length-append q.items (a ∷ []),
    length-append (rest_of q.items) (a ∷ []),
    length-rest_of q.items,
  )

  pub pop-IsValid : (q : BoundedQueue A) → IsValid q → IsValid (pop q).1
  unfolding pop
  pop-IsValid q v = ground arith

  pub push_lem :
      (a : A) (q : BoundedQueue A)
      → ((push a q).0 ≡ (offer a (view q)).0) × (view (push a q).1 ≡ (offer a (view q)).1)
  unfolding push
  push_lem a q = ground arith

  pub pop_lem :
      (q : BoundedQueue A) → ((pop q).0 ≡ (poll (view q)).0) × (view (pop q).1 ≡ (poll (view q)).1)
  unfolding pop
  pop_lem q = ground arith

  pub shutdown-IsValid : (q : BoundedQueue A) → IsValid q → IsValid (shutdown q)
  unfolding shutdown
  shutdown-IsValid q v = omega arith

  pub shutdown_lem : (q : BoundedQueue A) → view (shutdown q) ≡ close (view q)
  unfolding shutdown
  shutdown_lem q = refl

  pub size_lem : (q : BoundedQueue A) → size q ≡ length (view q).items
  unfolding size
  size_lem q = refl

  -- A queue that the constructor returns is valid, empty and open, with the capacity and the policy asked
  -- for.
  pub make-IsValid :
      (c : ℕ) (p : BackpressurePolicy) {q : BoundedQueue A}
      → make c p ≡ ok q
      → IsValid q × (view q ≡ record { items = []; capacity = c; policy = p; shut = false })
  unfolding make
  make-IsValid c p e = ground arith

-- The mutex queue as an event queue: it is ready for any number of pushes.
abbrev pub bounded_queue : (A : Type 0) → EventQueue A
bounded_queue A = record {
  Queue = BoundedQueue A;
  IsReady = λ n q. IsValid q;
  view = view;
  push = push;
  pop = pop;
  shutdown = shutdown;
  size = size;
  capacity = λ q. q.capacity;
  push-IsReady = λ n. push-IsValid;
  pop-IsReady = λ n. pop-IsValid;
  shutdown-IsReady = λ n. shutdown-IsValid;
  push_lem = λ n a q v. push_lem a q;
  pop_lem = λ n q v. pop_lem q;
  shutdown_lem = λ n q v. shutdown_lem q;
  size_lem = λ n q v. size_lem q;
  capacity_lem = λ n q v. refl;
  positive = λ n q v. v.positive;
  fits = λ n q v. v.within;
}
