-- ===== src/Queue/LockFree/Refine.antt =====
-- The lock-free queue, used by one thread at a time, as an event queue.
use mathlib.Core.Path.{subst}
use native.Mathlib.Nat.{mod-eq_of_lt}
use edge_flow.Prelude.{ℕ, suc, ◌+◌, ◌-◌, ◌^◌, ◌≡◌, refl, sym, [], arith, length, false, some, none}
use edge_flow.Prelude.Except.{ok, >>=-eq-ok}
use edge_flow.Queue.Types.{BackpressurePolicy, PushResult, rejected_backpressure, Popped, waits}
use edge_flow.Queue.Contract.{EventQueue, offer, poll, close}
use edge_flow.Queue.LockFree.{Ring, fresh, make, validated_capacity, capacity, size}
use edge_flow.Queue.LockFree.Capacity.{IsRingSize, IsRingSize-le, validated_capacity-IsRingSize}
use edge_flow.Queue.LockFree.Invariant.{IsReady, IsReady-flags, contents, view, length-window}
use edge_flow.Queue.LockFree.Calls.{push, pop, shutdown}
use edge_flow.Queue.LockFree.Calls.Offers.{push-Serves}
use edge_flow.Queue.LockFree.Calls.Polls.{pop-Serves}

module _ {A : Type 0} where
  -- The total operations: on a ring that is ready the fall-back values are never taken.
  unfoldable pub push_total : A → Ring A → PushResult × Ring A
  push_total a r = elim (push a r) [
    | none ↦ (rejected_backpressure, r)
    | some (result, notified, r') ↦ (result, r')
  ]

  unfoldable pub pop_total : Ring A → Popped A × Ring A
  pop_total r = elim (pop r) [ none ↦ (waits, r) | some (result, r') ↦ (result, r') ]

  pub push_total_lem :
      (n : ℕ) (a : A) (r : Ring A)
      → IsReady (suc n) r
      → IsReady n (push_total a r).1
        × ((push_total a r).0 ≡ (offer a (view r)).0)
        × (view (push_total a r).1 ≡ (offer a (view r)).1)
  unfolding push_total
  push_total_lem n a r ready =
      let (notified, r', e, then_ready, seen) = push-Serves a n r ready in
      rw (e, push_total) (then_ready, refl, seen)

  pub pop_total_lem :
      (n : ℕ) (r : Ring A)
      → IsReady n r
      → IsReady n (pop_total r).1
        × ((pop_total r).0 ≡ (poll (view r)).0)
        × (view (pop_total r).1 ≡ (poll (view r)).1)
  unfolding pop_total
  pop_total_lem n r ready =
      let (r', e, then_ready, seen) = pop-Serves r ready in
      rw (e, pop_total) (then_ready, refl, seen)

  pub held : (r : Ring A) → length (contents r) ≡ r.enqueue_pos - r.dequeue_pos
  held r = length-window r.storage (r.mask + 1) r.dequeue_pos (r.enqueue_pos - r.dequeue_pos)

  pub size_lem : (n : ℕ) (r : Ring A) → IsReady n r → size r ≡ length (contents r)
  unfolding size
  size_lem n r ready = ground (arith, held r)

  pub capacity_lem : (n : ℕ) (r : Ring A) → IsReady n r → capacity r ≡ r.mask + 1
  unfolding capacity
  capacity_lem n r ready = omega arith

  pub shutdown_lem :
      (n : ℕ) (r : Ring A)
      → IsReady n r
      → IsReady n (shutdown r) × (view (shutdown r) ≡ close (view r))
  unfolding shutdown
  shutdown_lem n r ready = (IsReady-flags _ _ ready, refl)

-- The lock-free queue under the contract of the mutex queue: with calls one at a time the two
-- differ in their capacity alone.
abbrev pub lock_free_queue : (A : Type 0) → EventQueue A
lock_free_queue A = record {
  Queue = Ring A;
  IsReady = IsReady;
  view = view;
  push = push_total;
  pop = pop_total;
  shutdown = shutdown;
  size = size;
  capacity = capacity;
  push-IsReady = λ n a r ready. (push_total_lem n a r ready).0;
  pop-IsReady = λ n r ready. (pop_total_lem n r ready).0;
  shutdown-IsReady = λ n r ready. (shutdown_lem n r ready).0;
  push_lem = λ n a r ready. ((push_total_lem n a r ready).1, (push_total_lem n a r ready).2);
  pop_lem = λ n r ready. ((pop_total_lem n r ready).1, (pop_total_lem n r ready).2);
  shutdown_lem = λ n r ready. (shutdown_lem n r ready).1;
  size_lem = size_lem;
  capacity_lem = capacity_lem;
  positive = λ n r ready. omega arith;
  fits = λ n r ready. omega (arith, held r);
}

fresh-IsReady :
    {A : Type 0} (fill : A) (b : BackpressurePolicy) (c slots : ℕ)
    → IsRingSize c slots
    → IsReady (2 ^ 62) (fresh fill b slots)
      × IsRingSize c (slots - 1 + 1)
      × (view (fresh fill b slots)
          ≡ record { items = []; capacity = slots - 1 + 1; policy = b; shut = false })
fresh-IsReady fill b c slots good =
    let whole : slots - 1 + 1 ≡ slots = omega (arith, good.floor) in
    (
      record {
        two_slots = omega (arith, good.floor);
        small = omega (arith, IsRingSize-le good);
        ordered = omega arith;
        within = omega arith;
        far = omega arith;
        filled = λ p lo hi. absurd (omega arith);
        free = λ p lo hi. mod-eq_of_lt {n = p} {m = slots - 1 + 1} (omega arith);
      },
      subst (IsRingSize c) (sym whole) good,
      refl,
    )

-- A ring that the constructor returns has the capacity asked for rounded up, is empty and open with the
-- policy asked for, and is ready for 2^62 pushes.
pub make-IsReady :
    {A : Type 0} (fill : A) (c : ℕ) (b : BackpressurePolicy) {r : Ring A}
    → make fill c b ≡ ok r
    → IsReady (2 ^ 62) r
      × IsRingSize c (r.mask + 1)
      × (view r ≡ record { items = []; capacity = r.mask + 1; policy = b; shut = false })
unfolding make
make-IsReady {A} fill c b {r} e =
    let (slots, returned, built) = >>=-eq-ok (validated_capacity c) _ e in
    let same : fresh fill b slots ≡ r = cc built in
    subst
      (λ (q : Ring A).
        IsReady (2 ^ 62) q
        × IsRingSize c (q.mask + 1)
        × (view q ≡ record { items = []; capacity = q.mask + 1; policy = b; shut = false }))
      same (fresh-IsReady fill b c slots (validated_capacity-IsRingSize c returned))
