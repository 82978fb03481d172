-- ===== src/Queue/LockFree/Parking/Awake.antt =====
-- Runs of push, pop and shutdown, with parking, from a ring just made.
use mathlib.Core.Path.{subst}
use edge_flow.Prelude.{
  ℕ, ◌^◌, ◌≤◌, ◌<◌, ◌≡◌, refl, sym, ap, ◌∙◌, ◌⊎◌, inl, inr, true, false, List, [], arith, none, All,
  length, Bool-cases,
}
use edge_flow.Prelude.Except.{ok, >>=-eq-ok}
use edge_flow.Queue.Types.{BackpressurePolicy}
use edge_flow.Queue.LockFree.{Ring, fresh, make, validated_capacity, Pc}
use edge_flow.Queue.LockFree.Capacity.{validated_capacity-IsRingSize}
use edge_flow.Queue.LockFree.Invariant.{contents, contents_drained}
use edge_flow.Queue.LockFree.Threads.Invariant.{Inv}
use edge_flow.Queue.LockFree.Threads.Run.{opened, opened-Inv}
use edge_flow.Queue.LockFree.Parking.{
  Frame, returned, nothing, asleep, Shared, Move, run, is_returned,
}
use edge_flow.Queue.LockFree.Parking.Sums.{sum, sum_zero}
use edge_flow.Queue.LockFree.Parking.Invariant.{
  Safe, weight, weights, is_alerting, is_sleepy, is_waiting,
}
use edge_flow.Queue.LockFree.Parking.Moves.{IsFeed, run-Safe}

module _ {A : Type 0} where
  -- A ring just made, with threads that are in no call.
  abbrev pub unused : A → Ring A → Shared A
  unused fill r = record { system = opened fill r; frames = λ i. returned nothing; owner = none }

  unused-Safe :
      (n : ℕ) (fill : A) (r : Ring A)
      → n < 2 ^ 63
      → r.waiters ≡ 0
      → Inv (2 ^ 62) (opened fill r)
      → Safe (2 ^ 62) 0 n (unused fill r)
  unused-Safe n fill r few alone inv = record {
    inv = inv;
    fitting = λ i. refl;
    alone = λ i h. cc;
    latest = λ i p h. cc;
    registered = alone ∙ sym (sum_zero n (λ j. 0) (λ j lt. refl));
    few = few;
    locked = λ i h. cc;
    covered = λ i lt h. cc;
    flagged = λ flag i lt h. cc;
  }

  made-Safe :
      (n : ℕ) (fill : A) (c : ℕ) (policy : BackpressurePolicy) {r : Ring A}
      → n < 2 ^ 63
      → make fill c policy ≡ ok r
      → Safe (2 ^ 62) 0 n (unused fill r)
  unfolding make
  made-Safe n fill c policy few made =
      let (size, valid, same) = >>=-eq-ok (validated_capacity c) _ made in
      subst (λ r. Safe (2 ^ 62) 0 n (unused fill r)) (cc same)
        (unused-Safe n fill (fresh fill policy size) few refl
          (opened-Inv fill policy c size (validated_capacity-IsRingSize c valid)))

  -- Every thread has returned from its calls or waits on not_empty_.
  abbrev pub IsSettled : ℕ → Shared A → Type 0
  IsSettled n q = (i : ℕ) → i < n → (is_returned (q.frames i) ≡ true) ⊎ (q.frames i ≡ asleep)

  settled-weight :
      (f : Frame A) (pc : Pc A)
      → (is_returned f ≡ true) ⊎ (f ≡ asleep)
      → (weight f pc ≡ 0) × (is_alerting f ≡ false)
  settled-weight (returned r) pc h = (refl, refl)
  settled-weight asleep pc h = (refl, refl)
  settled-weight f pc (inl e) = cc
  settled-weight f pc (inr e) = cc

  settled-empty :
      {m n : ℕ} {q : Shared A}
      → Safe m 0 n q
      → IsSettled n q
      → (i : ℕ) → i < n
      → q.frames i ≡ asleep
      → (contents q.system.ring ≡ []) × (q.system.ring.shutting_down ≡ false)
  settled-empty {n = n} {q = q} v settled i near sleeps =
      let light : sum n (weights q.frames q.system.threads) ≡ 0 =
        sum_zero n (weights q.frames q.system.threads)
          (λ j lt. (settled-weight (q.frames j) (q.system.threads j) (settled j lt)).0) in
      (
        contents_drained q.system.ring (
            omega (
              arith,
              light,
              v.covered i near (ap (λ (f : Frame A). is_sleepy f (q.system.threads i)) sleeps),
            )),
        elim (Bool-cases q.system.ring.shutting_down) [
          | inl flag ↦
              let (k, below, alerts) = v.flagged flag i near (ap is_waiting sleeps) in
              cc (alerts, (settled-weight (q.frames k) (q.system.threads k) (settled k below)).1)
          | inr up ↦ up
        ],
      )

  -- Up to 2^62 moves of fewer than 2^63 threads, of which thread 0 alone calls `push`, on a ring that
  -- the constructor returned, with consumers that park and are notified in any order, spurious
  -- failures and wake-ups included: when each thread has returned from its calls or waits on
  -- not_empty_, and one waits, then the ring holds no item and is not shut down. So no item and no
  -- shutdown is left to a consumer that sleeps.
  pub run-IsSettled :
      (n attempts : ℕ) (fill : A) (c : ℕ) (policy : BackpressurePolicy) {r : Ring A}
      → n < 2 ^ 63
      → make fill c policy ≡ ok r
      → (moves : List (Move A)) → length moves ≤ 2 ^ 62
      → All IsFeed moves
      → IsSettled n (run n attempts (unused fill r) moves)
      → (i : ℕ) → i < n
      → (run n attempts (unused fill r) moves).frames i ≡ asleep
      → let ring = (run n attempts (unused fill r) moves).system.ring in
        (contents ring ≡ []) × (ring.shutting_down ≡ false)
  run-IsSettled n attempts fill c policy {r = r} few made moves short feeds settled i near sleeps =
      let start : Safe (2 ^ 62) 0 n (unused fill r) = made-Safe n fill c policy few made in
      let (m, v) = run-Safe (2 ^ 62) attempts (unused fill r) moves short start feeds in
      settled-empty v settled i near sleeps
