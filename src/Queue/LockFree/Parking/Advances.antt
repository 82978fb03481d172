-- ===== src/Queue/LockFree/Parking/Advances.antt =====
-- The next access of a thread, frame by frame: `push`, `pop` and `shutdown` of
-- core/include/edgeflow/lock_free_bounded_queue.hpp.
use edge_flow.Prelude.{
  ℕ, zero, suc, ◌+◌, ◌-◌, ◌^◌, ◌≤◌, ◌<◌, ◌≡◌, refl, ap, inl, inr, Bool, true, false, arith, Option,
  none, some, Bool-cases, if◌then◌else◌, ◌==◌,
}
use edge_flow.Queue.Types.{PushResult}
use edge_flow.Queue.LockFree.{u64, Pc}
use edge_flow.Queue.LockFree.Invariant.{update_self}
use edge_flow.Queue.LockFree.Calls.{add_waiter, drop_waiter}
use edge_flow.Queue.LockFree.Threads.{pops, is_done}
use edge_flow.Queue.LockFree.Parking.{
  Frame, returned, pushing, discarding, pushing_again, notifying, waking, spinning, checking,
  last_try, locking, registering, rechecking, draining, dozing, asleep, woken, deregistering,
  leaving, final_try, flagging, alerting, push_result, pop_result, Shared, moved, begin_try,
  after_check, after_drain, advance, notify,
}
use edge_flow.Queue.LockFree.Parking.Sums.{sum_le, term_le}
use edge_flow.Queue.LockFree.Parking.Invariant.{
  holds, place, outside, counted, is_alerting, is_sleepy, Safe, same_flags,
}
use edge_flow.Queue.LockFree.Parking.Hops.{hop-Safe}
use edge_flow.Queue.LockFree.Parking.Plain.{stroll-Safe, let_go-Safe}
use edge_flow.Queue.LockFree.Parking.Ends.{in_try-Safe}
use edge_flow.Queue.LockFree.Parking.Wakes.{weaken-Safe, at_rest, take_lock-Safe}
use edge_flow.Queue.LockFree.Parking.Alerts.{notify-Safe, notify_all-Safe}

module _ {A : Type 0} where
  counted_le : (f : Frame A) → counted f ≤ 1
  counted_le asleep = omega arith
  counted_le f = omega arith

  sleepy-counted : (f : Frame A) (pc : Pc A) → is_sleepy f pc ≡ true → counted f ≡ 1
  sleepy-counted rechecking pc e = refl
  sleepy-counted (draining o) pc e = refl
  sleepy-counted dozing pc e = refl
  sleepy-counted asleep pc e = refl
  sleepy-counted f pc e = cc

  module _ {m n : ℕ} {q : Shared A} (v : Safe (suc m) 0 n q) (i : ℕ) (near : i < n) where
    abbrev rests :
        {f : Frame A} → q.frames i ≡ f → place f ≡ outside → is_done (q.system.threads i) ≡ true
    rests at_frame e = at_rest v i near at_frame e

    -- A push that sees no consumer registered leaves none that is going to wait.
    notifying-Safe :
        (result : PushResult)
        → q.frames i ≡ notifying result
        → Safe m 0 n (
            moved q i q.system
              (if q.system.ring.waiters == 0 then returned (push_result result) else waking result)
              q.owner)
    notifying-Safe result e = elim (Bool-cases (q.system.ring.waiters == 0)) [
      | inl alone ↦
          let empty : q.system.ring.waiters ≡ 0 = ground arith in
          rw alone (
            hop-Safe v i near e refl (rests e refl) 0 none (returned (push_result result)) q.owner
              q.system.ring.waiters q.system.ring.shutting_down (rests e refl) (λ h. cc)
              (omega arith) (λ h. cc) (λ j ne h. h) (λ h. cc)
              (λ k lt h. omega (
                arith,
                empty,
                v.registered,
                sleepy-counted (q.frames k) (q.system.threads k) h,
                term_le n (λ j. counted (q.frames j)) k lt,
              ))
              (same_flags v i near (returned (push_result result)) (λ h. cc) (ap is_alerting e)))
      | inr some_wait ↦ rw some_wait (
          stroll-Safe v i near e refl (rests e refl) none (waking result) (rests e refl) refl
            (λ h. cc))
    ]

    checking-Safe :
        (k : ℕ) (flag : Bool)
        → q.frames i ≡ checking k
        → let (op, f) = after_check flag k in
          Safe m 0 n (moved q i (begin_try i op q.system) f q.owner)
    unfolding after_check
    checking-Safe k true e =
        stroll-Safe v i near e refl (rests e refl) (some pops) last_try refl refl (λ h. cc)
    checking-Safe zero false e =
        stroll-Safe v i near e refl (rests e refl) none locking (rests e refl) refl (λ h. cc)
    checking-Safe (suc k) false e =
        stroll-Safe v i near e refl (rests e refl) (some pops) (spinning k) refl refl (λ h. cc)

    registering-Safe :
        q.frames i ≡ registering
        → Safe m 0 n (
            moved q i
              (begin_try i (some pops) (record q.system { ring = add_waiter q.system.ring }))
              rechecking
              q.owner)
    unfolding add_waiter
    registering-Safe e =
        hop-Safe v i near e refl (rests e refl) 0 (some pops) rechecking q.owner
          (u64 (q.system.ring.waiters + 1)) q.system.ring.shutting_down refl (λ h. cc)
          (omega (
            arith,
            v.registered,
            v.few,
            sum_le n (λ j. counted (q.frames j)) (λ j. counted_le (q.frames j)),
          ))
          (λ h. v.locked i (ap holds e)) (λ j ne h. h) (λ h. cc) (λ k lt h. omega arith)
          (same_flags v i near rechecking (λ h. cc) (ap is_alerting e))

    draining-Safe :
        (o : Option A) (flag : Bool)
        → q.system.ring.shutting_down ≡ flag
        → q.frames i ≡ draining o
        → Safe m 0 n (moved q i q.system (after_drain flag o) q.owner)
    unfolding after_drain
    draining-Safe none false down e =
        hop-Safe v i near e refl (rests e refl) 0 none dozing q.owner q.system.ring.waiters
          q.system.ring.shutting_down (rests e refl) (λ h. cc) (omega arith)
          (λ h. v.locked i (ap holds e)) (λ j ne h. h) (λ h. refl) (λ k lt h. omega arith)
          (λ flag. cc (flag, down))
    draining-Safe none true down e =
        stroll-Safe v i near e refl (rests e refl) none (leaving none) (rests e refl) refl
          (λ h. refl)
    draining-Safe (some a) false down e =
        stroll-Safe v i near e refl (rests e refl) none (leaving (some a)) (rests e refl) refl
          (λ h. refl)
    draining-Safe (some a) true down e =
        stroll-Safe v i near e refl (rests e refl) none (leaving (some a)) (rests e refl) refl
          (λ h. refl)

    -- A registered thread takes its count back.
    taken_back :
        {f : Frame A}
        → q.frames i ≡ f
        → counted f ≡ 1
        → u64 (q.system.ring.waiters + 2 ^ 64 - 1) + 1 ≡ q.system.ring.waiters
    taken_back e one = omega (
      arith,
      v.registered,
      v.few,
      ap counted e,
      one,
      sum_le n (λ j. counted (q.frames j)) (λ j. counted_le (q.frames j)),
      term_le n (λ j. counted (q.frames j)) i near,
    )

    deregistering-Safe :
        q.frames i ≡ deregistering
        → Safe m 0 n
            (moved q i (record q.system { ring = drop_waiter q.system.ring }) registering q.owner)
    unfolding drop_waiter
    deregistering-Safe e =
        hop-Safe v i near e refl (rests e refl) 0 none registering q.owner
          (u64 (q.system.ring.waiters + 2 ^ 64 - 1)) q.system.ring.shutting_down (rests e refl)
          (λ h. cc) (omega (arith, taken_back e refl)) (λ h. v.locked i (ap holds e)) (λ j ne h. h)
          (λ h. cc) (λ k lt h. omega arith)
          (same_flags v i near registering (λ h. cc) (ap is_alerting e))

    leave_item-Safe :
        (a : A)
        → q.frames i ≡ leaving (some a)
        → Safe m 0 n (
            moved q i
              (record q.system { ring = drop_waiter q.system.ring })
              (returned (pop_result (some a)))
              none)
    unfolding drop_waiter
    leave_item-Safe a e =
        hop-Safe v i near e refl (rests e refl) 0 none (returned (pop_result (some a))) none
          (u64 (q.system.ring.waiters + 2 ^ 64 - 1)) q.system.ring.shutting_down (rests e refl)
          (λ h. cc) (omega (arith, taken_back e refl)) (λ h. cc)
          (λ j ne h. absurd (ne (cc (h, v.locked i (ap holds e))))) (λ h. cc)
          (λ k lt h. omega arith)
          (same_flags v i near (returned (pop_result (some a))) (λ h. cc) (ap is_alerting e))

    leave_empty-Safe :
        q.frames i ≡ leaving none
        → Safe m 0 n (
            moved q i
              (begin_try i (some pops) (record q.system { ring = drop_waiter q.system.ring }))
              final_try
              q.owner)
    unfolding drop_waiter
    leave_empty-Safe e =
        hop-Safe v i near e refl (rests e refl) 0 (some pops) final_try q.owner
          (u64 (q.system.ring.waiters + 2 ^ 64 - 1)) q.system.ring.shutting_down refl (λ h. cc)
          (omega (arith, taken_back e refl)) (λ h. v.locked i (ap holds e)) (λ j ne h. h) (λ h. cc)
          (λ k lt h. omega arith) (same_flags v i near final_try (λ h. cc) (ap is_alerting e))

    flagging-Safe :
        q.frames i ≡ flagging
        → Safe m 0 n (
            moved q i
              (record q.system { ring = record q.system.ring { shutting_down = true } })
              alerting
              q.owner)
    flagging-Safe e =
        hop-Safe v i near e refl (rests e refl) 0 none alerting q.owner q.system.ring.waiters true
          (rests e refl) (λ h. cc) (omega arith) (λ h. cc) (λ j ne h. h) (λ h. cc)
          (λ k lt h. omega arith)
          (λ flag k lt h. (i, near, ap is_alerting (update_self q.frames i alerting)))

    pub advance-Safe :
        (weak : Bool) (choice : ℕ) (f : Frame A)
        → q.frames i ≡ f
        → Safe m 0 n (advance n weak choice i f q)
    unfolding advance notify
    advance-Safe weak choice (returned r) e = weaken-Safe v
    advance-Safe weak choice (pushing a) e = in_try-Safe v i near e refl weak
    advance-Safe weak choice (discarding a) e = in_try-Safe v i near e refl weak
    advance-Safe weak choice (pushing_again a) e = in_try-Safe v i near e refl weak
    advance-Safe weak choice (notifying result) e = notifying-Safe result e
    advance-Safe weak choice (waking result) e = notify-Safe v i near choice result q.owner refl e
    advance-Safe weak choice (spinning k) e = in_try-Safe v i near e refl weak
    advance-Safe weak choice (checking k) e = checking-Safe k q.system.ring.shutting_down e
    advance-Safe weak choice last_try e = in_try-Safe v i near e refl weak
    advance-Safe weak choice locking e =
        take_lock-Safe v i near e registering q.owner refl refl refl refl
    advance-Safe weak choice registering e = registering-Safe e
    advance-Safe weak choice rechecking e = in_try-Safe v i near e refl weak
    advance-Safe weak choice (draining o) e = draining-Safe o q.system.ring.shutting_down refl e
    advance-Safe weak choice dozing e =
        let_go-Safe v i near e refl (rests e refl) none asleep (rests e refl) refl refl refl
    advance-Safe weak choice asleep e = weaken-Safe v
    advance-Safe weak choice woken e =
        take_lock-Safe v i near e deregistering q.owner refl refl refl refl
    advance-Safe weak choice deregistering e = deregistering-Safe e
    advance-Safe weak choice (leaving (some a)) e = leave_item-Safe a e
    advance-Safe weak choice (leaving none) e = leave_empty-Safe e
    advance-Safe weak choice final_try e = in_try-Safe v i near e refl weak
    advance-Safe weak choice flagging e = flagging-Safe e
    advance-Safe weak choice alerting e = notify_all-Safe v i near e
