-- ===== src/Queue/Tests.antt =====
-- The queues at concrete inputs.
use edge_flow.Prelude.{
  ℕ, ◌≤◌, ◌<◌, ◌≡◌, refl, List, [], ◌∷◌, ◌++◌, arith, false, some, ◌^◌, ◌⊎◌, ◌-◌,
}
use edge_flow.Prelude.Except.{ok, throw, Exception}
use edge_flow.Queue.Types.{drop_oldest, accepted}
use edge_flow.Queue.Contract.{offer, poll}
use edge_flow.Queue.Contract.History.{Call, pushes, pops, shuts, run, entered, left, run_order}
use edge_flow.Queue.Bounded.{BoundedQueue}
use edge_flow.Queue.Bounded.Laws.{bounded_queue, IsValid}
use edge_flow.Queue.LockFree.{
  Ring, max_capacity, fresh, make, solo, tick, try_push, validated_capacity,
}
use edge_flow.Queue.LockFree.Capacity.{IsRingSize, validated_capacity_lem}
use edge_flow.Queue.LockFree.Invariant.{IsReady, view}
use edge_flow.Queue.LockFree.Refine.{make-IsReady, push_total, push_total_lem}
use edge_flow.Queue.LockFree.Calls.{push, pop, notify_one_waiter}
use edge_flow.Queue.LockFree.Calls.Offers
use edge_flow.Queue.LockFree.Calls.Offers.{push-Serves}
use edge_flow.Queue.LockFree.Calls.Polls
use edge_flow.Queue.LockFree.Calls.Polls.{pop-Serves}

abbrev two_of_two : BoundedQueue ℕ
two_of_two = record {
  items = 7 ∷ 8 ∷ [];
  capacity = 2;
  policy = drop_oldest;
  shutting_down = false;
}

two_of_two-IsValid : IsValid two_of_two
two_of_two-IsValid = omega arith

abbrev script : List (Call ℕ)
script = pushes 9 ∷ pops ∷ shuts ∷ pops ∷ pops ∷ []

run_order_example :
    7 ∷ 8 ∷ entered (bounded_queue ℕ) two_of_two script
    ≡ left (bounded_queue ℕ) two_of_two script ++ (run (bounded_queue ℕ) two_of_two script).items
run_order_example = run_order (bounded_queue ℕ) two_of_two script two_of_two-IsValid

-- A ring of two slots from the constructor, asked for one.
abbrev small_ring : Ring ℕ
small_ring = fresh 0 drop_oldest 2

made_ready :
    IsReady (2 ^ 62) small_ring
    × IsRingSize 1 2
    × (view small_ring ≡ record { items = []; capacity = 2; policy = drop_oldest; shut = false })
unfolding make validated_capacity
made_ready = make-IsReady 0 1 drop_oldest refl

three_pushes : push 1 small_ring ≡ some (accepted, false, (try_push 1 small_ring).1)
unfolding push try_push solo tick notify_one_waiter
three_pushes = refl

abbrev start : IsReady (2 ^ 62) small_ring
start = made_ready.0

-- The ring with 1 and 2 in its two slots.
abbrev full_ring : Ring ℕ
full_ring = (push_total 2 (push_total 1 small_ring).1).1

full_ring-IsReady : IsReady (2 ^ 62 - 2) full_ring
full_ring-IsReady =
    (push_total_lem (2 ^ 62 - 2) 2 (push_total 1 small_ring).1
      (push_total_lem (2 ^ 62 - 1) 1 small_ring start).0).0

push-Serves_example : Offers.Serves (2 ^ 62 - 3) (offer 3 (view full_ring)) (push 3 full_ring)
push-Serves_example = push-Serves 3 (2 ^ 62 - 3) full_ring full_ring-IsReady

pop-Serves_example : Polls.Serves (2 ^ 62 - 2) (poll (view full_ring)) (pop full_ring)
pop-Serves_example = pop-Serves full_ring full_ring-IsReady

abbrev five : ℕ
five = 5

validated_capacity_lem_example :
    ((r : ℕ) × (validated_capacity five ≡ ok r)
      × (0 < five)
      × (five ≤ max_capacity)
      × IsRingSize five r)
    ⊎ ((e : Exception) × (validated_capacity five ≡ throw e) × ((five ≡ 0) ⊎ (max_capacity < five)))
validated_capacity_lem_example = validated_capacity_lem five
