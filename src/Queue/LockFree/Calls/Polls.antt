-- ===== src/Queue/LockFree/Calls/Polls.antt =====
-- `LockFreeBoundedQueue::pop` of one thread at a time against the contract of the event queues.
use edge_flow.Prelude.{
  ℕ, zero, suc, ◌≡◌, refl, sym, ap, inl, inr, List, [], ◌∷◌, arith, Option, some, none,
  if◌then◌else◌, Bool-cases,
}
use edge_flow.Queue.Types.{Popped, item, closed, waits}
use edge_flow.Queue.Contract.{View, poll, poll_items}
use edge_flow.Queue.LockFree.{Ring, try_pop, spin_attempts}
use edge_flow.Queue.LockFree.Invariant.{IsReady, IsReady-flags, contents, view}
use edge_flow.Queue.LockFree.Pop.{try_pop-Pops}
use edge_flow.Queue.LockFree.Calls.{
  pop, spin, park, woken, after_spin, after_recheck, last_attempt, add_waiter, drop_waiter,
}

-- The call returns, or goes to sleep, as the contract says, and leaves a ring that is ready and has
-- the view that the contract says.
abbrev pub Serves : {A : Type 0} → ℕ → Popped A × View A → Option (Popped A × Ring A) → Type 0
Serves {A} n expected result =
    (r : Ring A) × (result ≡ some (expected.0, r)) × IsReady n r × (view r ≡ expected.1)

module _ {A : Type 0} where
  poll-empty :
      (r : Ring A)
      → contents r ≡ []
      → poll (view r) ≡ (if r.shutting_down then closed else waits, view r)
  poll-empty r gone = ap (λ (xs : List A). poll_items xs (view r)) gone

  poll-item :
      (r : Ring A) {a : A} {rest : List A}
      → contents r ≡ a ∷ rest
      → poll (view r) ≡ (item a, record (view r) { items = rest })
  poll-item r oldest = ap (λ (xs : List A). poll_items xs (view r)) oldest

  module _ {n : ℕ} (r : Ring A) (ready : IsReady n r) where
    last_attempt-empty : contents r ≡ [] → last_attempt (try_pop r) ≡ some (closed, r)
    unfolding last_attempt
    last_attempt-empty gone = elim (try_pop-Pops ready) [
      | inl (_, e) ↦ rw (e, last_attempt)
      | inr (oldest, _, _, _) ↦ cc
    ]

  module _ {n : ℕ} (r : Ring A) (w : ℕ) (ready : IsReady n r) where
    recheck-empty :
        contents r ≡ []
        → try_pop (record r { waiters = w }) ≡ (some none, record r { waiters = w })
        → Serves n
            (if r.shutting_down then closed else waits, view r)
            (after_recheck (try_pop (record r { waiters = w })))
    unfolding after_recheck drop_waiter
    recheck-empty gone e = elim (Bool-cases r.shutting_down) [
      | inl shut ↦
          let left = drop_waiter (record r { waiters = w }) in
          let left_ready = IsReady-flags r.shutting_down left.waiters ready in
          (left, ground (arith, e, last_attempt-empty left left_ready gone), left_ready, refl)
      | inr running ↦
          (record r { waiters = w }, ground (arith, e), IsReady-flags r.shutting_down w ready, refl)
    ]

    recheck-Serves : Serves n (poll (view r)) (after_recheck (try_pop (record r { waiters = w })))
    unfolding after_recheck drop_waiter
    recheck-Serves = elim (try_pop-Pops (IsReady-flags r.shutting_down w ready)) [
      | inl (gone, e) ↦ rw (poll-empty r gone) (recheck-empty gone e)
      | inr (oldest, e, then_ready, seen) ↦
          rw (poll-item r oldest, e, after_recheck) (_, refl, IsReady-flags _ _ then_ready, seen)
    ]

  module _ {n : ℕ} where
    park-Serves : (r : Ring A) → IsReady n r → Serves n (poll (view r)) (park r)
    unfolding park add_waiter
    park-Serves r ready = recheck-Serves r _ ready

    spin-Serves : (k : ℕ) (r : Ring A) → IsReady n r → Serves n (poll (view r)) (spin k r)
    unfolding spin
    spin-Serves zero r ready = park-Serves r ready
    spin-Serves (suc k) r ready = elim (try_pop-Pops ready) [
      | inl (gone, e) ↦
          rw (e, after_spin)
            (elim (Bool-cases r.shutting_down) [
              | inl shut ↦ (
                r,
                ground (arith, last_attempt-empty r ready gone, poll-empty r gone),
                ready,
                sym (ap (λ (p : Popped A × View A). p.1) (poll-empty r gone)),
              )
              | inr running ↦
                  let (left, returned, left_ready, seen) = spin-Serves k r ready in
                  (left, ground (arith, returned), left_ready, seen)
            ])
      | inr (oldest, e, then_ready, seen) ↦
          rw (poll-item r oldest, e, after_spin) (_, refl, then_ready, seen)
    ]

    -- On a ring that is ready, `pop` takes the oldest item, returns std::nullopt on an empty ring
    -- that is shut down, and goes to sleep on an empty ring that is not; it leaves a ready ring with the
    -- items that the contract says.
    pub pop-Serves : (r : Ring A) → IsReady n r → Serves n (poll (view r)) (pop r)
    unfolding pop
    pop-Serves r ready = spin-Serves spin_attempts r ready

    -- On a ring that is ready, the next round of a thread that was woken takes the oldest item, returns
    -- std::nullopt on an empty ring that is shut down, and goes to sleep again on an empty ring that is
    -- not; it leaves a ready ring with the items that the contract says.
    pub woken-Serves : (r : Ring A) → IsReady n r → Serves n (poll (view r)) (woken r)
    unfolding woken drop_waiter
    woken-Serves r ready = park-Serves _ (IsReady-flags _ _ ready)
