-- ===== src/Queue/LockFree/Calls.antt =====
-- core/include/edgeflow/lock_free_bounded_queue.hpp: `push` and the blocking `pop`, made of
-- `try_push` and `try_pop`. `none`: the call is still spinning on a cursor.
pub mod Offers
pub mod Polls
use edge_flow.Prelude.{
  ℕ, zero, suc, ◌+◌, ◌-◌, ◌^◌, Bool, true, false, Option, none, some, ◌==◌, if◌then◌else◌,
}
use edge_flow.Queue.Types.{
  PushResult, accepted, dropped_oldest, rejected_backpressure, Popped, item, closed, waits,
}
use edge_flow.Queue.Bounded.{is_drop_oldest}
use edge_flow.Queue.LockFree.{Ring, u64, spin_attempts, try_push, try_pop}

module _ {ℓ} {A : Type ℓ} where
  -- Whether a sleeping consumer is notified.
  unfoldable pub notify_one_waiter : Ring A → Bool
  notify_one_waiter r = if r.waiters == 0 then false else true

  after_retry : Option Bool × Ring A → Option (PushResult × Bool × Ring A)
  after_retry (none, r) = none
  after_retry (some true, r) = some (dropped_oldest, notify_one_waiter r, r)
  after_retry (some false, r) = some (rejected_backpressure, false, r)

  after_discard : A → Option (Option A) × Ring A → Option (PushResult × Bool × Ring A)
  after_discard a (none, r) = none
  after_discard a (some none, r) = some (rejected_backpressure, false, r)
  after_discard a (some (some old), r) = after_retry (try_push a r)

  after_push : A → Option Bool × Ring A → Option (PushResult × Bool × Ring A)
  after_push a (none, r) = none
  after_push a (some true, r) = some (accepted, notify_one_waiter r, r)
  after_push a (some false, r) =
      if is_drop_oldest r.policy
      then after_discard a (try_pop r)
      else some (rejected_backpressure, false, r)

  unfoldable pub push : A → Ring A → Option (PushResult × Bool × Ring A)
  unfolding after_push after_discard after_retry
  push a r = after_push a (try_push a r)

  -- `return try_pop();`
  last_attempt : Option (Option A) × Ring A → Option (Popped A × Ring A)
  last_attempt (none, r) = none
  last_attempt (some none, r) = some (closed, r)
  last_attempt (some (some a), r) = some (item a, r)

  unfoldable pub add_waiter : Ring A → Ring A
  add_waiter r = record r { waiters = u64 (r.waiters + 1) }

  unfoldable pub drop_waiter : Ring A → Ring A
  drop_waiter r = record r { waiters = u64 (r.waiters + 2 ^ 64 - 1) }

  after_recheck : Option (Option A) × Ring A → Option (Popped A × Ring A)
  after_recheck (none, r) = none
  after_recheck (some (some a), r) = some (item a, drop_waiter r)
  after_recheck (some none, r) =
      if r.shutting_down then last_attempt (try_pop (drop_waiter r)) else some (waits, r)

  -- One round of phase 2, up to the wait on the condition variable.
  unfoldable pub park : Ring A → Option (Popped A × Ring A)
  unfolding after_recheck last_attempt
  park r = after_recheck (try_pop (add_waiter r))

  -- The next round, after a wake-up.
  unfoldable pub woken : Ring A → Option (Popped A × Ring A)
  woken r = park (drop_waiter r)

  after_spin :
      (Ring A → Option (Popped A × Ring A))
      → Option (Option A) × Ring A
      → Option (Popped A × Ring A)
  after_spin next (none, r) = none
  after_spin next (some (some a), r) = some (item a, r)
  after_spin next (some none, r) = if r.shutting_down then last_attempt (try_pop r) else next r

  -- Phase 1, `n` attempts of it, then phase 2.
  unfoldable pub spin : ℕ → Ring A → Option (Popped A × Ring A)
  unfolding after_spin last_attempt
  spin zero r = park r
  spin (suc n) r = after_spin (spin n) (try_pop r)

  unfoldable pub pop : Ring A → Option (Popped A × Ring A)
  pop r = spin spin_attempts r

  unfoldable pub shutdown : Ring A → Ring A
  shutdown r = record r { shutting_down = true }
