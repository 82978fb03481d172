-- ===== src/Queue/LockFree/Parking/Moves.antt =====
-- The moves of the threads and runs of them, where thread 0 alone calls `push`.
use edge_flow.Prelude.{
  ℕ, zero, suc, ◌≤◌, ◌<◌, ◌≡◌, refl, ap, inl, inr, arith, none, some, Bool-cases, List, [], ◌∷◌,
  All, length, ltb, ltb→lt,
}
use edge_flow.Queue.LockFree.Threads.{pushes, pops}
use edge_flow.Queue.LockFree.Parking.{
  Frame, returned, pushing, spinning, asleep, flagging, Call, push, pop, shutdown, Move, begins,
  advances, starts_up, Shared, begin_call, start_up, step, run,
}
use edge_flow.Queue.LockFree.Parking.Invariant.{is_alerting, Safe, same_flags}
use edge_flow.Queue.LockFree.Parking.Hops.{hop-Safe}
use edge_flow.Queue.LockFree.Parking.Plain.{stroll-Safe}
use edge_flow.Queue.LockFree.Parking.Wakes.{weaken-Safe, wake-Safe, at_rest}
use edge_flow.Queue.LockFree.Parking.Advances.{advance-Safe}

module _ {A : Type 0} where
  -- Calls of `push` come from thread 0.
  abbrev pub IsFeed : Move A → Type 0
  IsFeed (begins i (push a)) = i ≡ 0
  IsFeed _ = Unit

  module _ {m n : ℕ} {q : Shared A} (v : Safe (suc m) 0 n q) (i : ℕ) (near : i < n) where
    begin_call-Safe :
        (attempts : ℕ) (call : Call A) (f : Frame A)
        → IsFeed (begins i call)
        → q.frames i ≡ f
        → Safe m 0 n (begin_call attempts i call f q)
    unfolding begin_call
    begin_call-Safe attempts (push a) (returned r) feed e =
        hop-Safe v i near e refl (at_rest v i near e refl) 0 (some (pushes a)) (pushing a) q.owner
          q.system.ring.waiters q.system.ring.shutting_down refl (λ h. feed) (omega arith) (λ h. cc)
          (λ j ne h. h) (λ h. cc) (λ k lt h. omega arith)
          (same_flags v i near (pushing a) (λ h. cc) (ap is_alerting e))
    begin_call-Safe attempts pop (returned r) feed e =
        stroll-Safe v i near e refl (at_rest v i near e refl) (some pops) (spinning attempts) refl
          refl (λ h. cc)
    begin_call-Safe attempts shutdown (returned r) feed e =
        stroll-Safe v i near e refl (at_rest v i near e refl) none flagging
          (at_rest v i near e refl) refl (λ h. cc)
    begin_call-Safe attempts call f feed e = weaken-Safe v

    start_up-Safe : (f : Frame A) → q.frames i ≡ f → Safe m 0 n (start_up i f q)
    unfolding start_up
    start_up-Safe asleep e = weaken-Safe (wake-Safe v 0 i near e (omega arith))
    start_up-Safe f e = weaken-Safe v

  step-Safe :
      {m n : ℕ} {q : Shared A} (attempts : ℕ)
      → Safe (suc m) 0 n q
      → (move : Move A) → IsFeed move
      → Safe m 0 n (step n attempts q move)
  unfolding step
  step-Safe {n = n} {q = q} attempts v (begins i call) feed = elim (Bool-cases (ltb i n)) [
    | inl near ↦
        rw near (begin_call-Safe v i (ltb→lt i n near) attempts call (q.frames i) feed refl)
    | inr far ↦ rw far (weaken-Safe v)
  ]
  step-Safe {n = n} {q = q} attempts v (advances i weak choice) feed = elim (Bool-cases (ltb i n)) [
    | inl near ↦ rw near (advance-Safe v i (ltb→lt i n near) weak choice (q.frames i) refl)
    | inr far ↦ rw far (weaken-Safe v)
  ]
  step-Safe {n = n} {q = q} attempts v (starts_up i) feed = elim (Bool-cases (ltb i n)) [
    | inl near ↦ rw near (start_up-Safe v i (ltb→lt i n near) (q.frames i) refl)
    | inr far ↦ rw far (weaken-Safe v)
  ]

  pub run-Safe :
      {n : ℕ} (k attempts : ℕ) (q : Shared A) (moves : List (Move A))
      → length moves ≤ k
      → Safe k 0 n q
      → All IsFeed moves
      → (m : ℕ) × Safe m 0 n (run n attempts q moves)
  unfolding run
  run-Safe k attempts q [] few v feeds = (k, v)
  run-Safe zero attempts q (move ∷ moves) few v feeds = absurd (omega arith)
  run-Safe {n = n} (suc k) attempts q (move ∷ moves) few v feeds =
      run-Safe k attempts (step n attempts q move) moves (omega arith)
        (step-Safe attempts v move feeds.0) feeds.1
