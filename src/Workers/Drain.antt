-- ===== src/Workers/Drain.antt =====
-- Shutdown of the pool: how many calls the workers still make, and what is left when they are done.
use edge_flow.Prelude.{
  ℕ, ◌+◌, ◌*◌, ◌≤◌, ◌<◌, ◌≡◌, refl, ap, ◌≢◌, true, List, [], ◌∷◌, arith, length,
}
use edge_flow.Queue.Types.{Popped}
use edge_flow.Queue.Contract.{EventQueue, View, poll_items}
use edge_flow.Workers.{
  TimedEvent, Worker, popping, recording, adding, finished, Clock, Pool, popped_worker, work, turn,
}
use edge_flow.Workers.Family.{total, total-update, total_zero}

-- The calls that a worker makes before it next pops, and the one that ends its loop.
abbrev pub calls_left : {A : Type 0} → Worker A → ℕ
calls_left popping = 1
calls_left (recording t) = 3
calls_left (adding a) = 2
calls_left finished = 0

module _ {A : Type 0} (E : EventQueue (TimedEvent A)) where
  abbrev pub queued : Pool E → List (TimedEvent A)
  queued p = (E.view p.queue).items

  -- The calls that `n` workers still make when the queue is shut: three for an item, and their own.
  abbrev pub left_to_do : ℕ → Pool E → ℕ
  left_to_do n p = 3 * length (queued p) + total calls_left n p.workers

  poll-calls :
      (xs : List (TimedEvent A)) (v : View (TimedEvent A))
      → v.shut ≡ true
      → v.items ≡ xs
      → 3 * length (poll_items xs v).1.items + calls_left (popped_worker E (poll_items xs v).0) + 1
        ≡ 3 * length xs + 1
  poll-calls [] v shut e = ground (arith, ap length e)
  poll-calls (t ∷ xs) v shut e = omega arith

  work-calls :
      (w : Worker A) (c : Clock) (p : Pool E) (k : ℕ)
      → E.IsReady k p.queue
      → (E.view p.queue).shut ≡ true
      → w ≢ finished
      → let (w', p') = work E w c p in
        3 * length (queued p') + calls_left w' + 1 ≡ 3 * length (queued p) + calls_left w
  unfolding work
  work-calls popping c p k r shut ne =
      let law = E.pop_lem k p.queue r in
      omega (
        arith,
        ap (λ (v : View (TimedEvent A)). length v.items) law.1,
        ap (λ (got : Popped (TimedEvent A)). calls_left (popped_worker E got)) law.0,
        poll-calls (queued p) (E.view p.queue) shut refl,
      )
  work-calls (recording t) c p k r shut ne = omega arith
  work-calls (adding a) c p k r shut ne = omega arith
  work-calls finished c p k r shut ne = absurd (ne refl)

  -- A worker's call never opens the queue again, and keeps it ready.
  work-shut :
      (w : Worker A) (c : Clock) (p : Pool E) (k : ℕ)
      → E.IsReady k p.queue
      → (E.view p.queue).shut ≡ true
      → E.IsReady k (work E w c p).1.queue × ((E.view (work E w c p).1.queue).shut ≡ true)
  unfolding work
  work-shut popping c p k r shut = (
    E.pop-IsReady k p.queue r,
    rw ((E.pop_lem k p.queue r).1) (poll-shut (queued p) (E.view p.queue) shut),
  )
    where
      poll-shut :
          (xs : List (TimedEvent A)) (v : View (TimedEvent A))
          → v.shut ≡ true
          → (poll_items xs v).1.shut ≡ true
      poll-shut [] v e = e
      poll-shut (t ∷ xs) v e = e
  work-shut (recording t) c p k r shut = (r, shut)
  work-shut (adding a) c p k r shut = (r, shut)
  work-shut finished c p k r shut = (r, shut)

  -- While the queue is shut, a call of a worker whose loop has not ended leaves one call less to do.
  turn-left_to_do :
      (n i : ℕ) (c : Clock) (p : Pool E) (k : ℕ)
      → i < n
      → E.IsReady k p.queue
      → (E.view p.queue).shut ≡ true
      → p.workers i ≢ finished
      → left_to_do n (turn E i c p) + 1 ≡ left_to_do n p
  unfolding turn
  turn-left_to_do n i c p k lt r shut ne = omega (
    arith,
    work-calls (p.workers i) c p k r shut ne,
    total-update calls_left n p.workers i (work E (p.workers i) c p).0 lt,
  )

  pub turn-shut :
      (i : ℕ) (c : Clock) (p : Pool E) (k : ℕ)
      → E.IsReady k p.queue
      → (E.view p.queue).shut ≡ true
      → E.IsReady k (turn E i c p).queue × ((E.view (turn E i c p).queue).shut ≡ true)
  unfolding turn
  turn-shut i c p k r shut = work-shut (p.workers i) c p k r shut

  unfoldable pub run_turns : Pool E → List (ℕ × Clock) → Pool E
  run_turns p [] = p
  run_turns p ((i, c) ∷ ts) = run_turns (turn E i c p) ts

  -- Every turn is that of a worker, of `n`, whose loop has not ended by then.
  unfoldable pub Runs : ℕ → Pool E → List (ℕ × Clock) → Type 0
  Runs n p [] = Unit
  Runs n p ((i, c) ∷ ts) = (i < n) × (p.workers i ≢ finished) × Runs n (turn E i c p) ts

  pub turns-left_to_do :
      (n : ℕ) (p : Pool E) (ts : List (ℕ × Clock)) (k : ℕ)
      → Runs n p ts
      → E.IsReady k p.queue
      → (E.view p.queue).shut ≡ true
      → left_to_do n (run_turns p ts) + length ts ≡ left_to_do n p
  unfolding run_turns Runs
  turns-left_to_do n p [] k a r shut = omega arith
  turns-left_to_do n p ((i, c) ∷ ts) k a r shut =
      let after = turn-shut i c p k r shut in
      omega (
        arith,
        turn-left_to_do n i c p k a.0 r shut a.1,
        turns-left_to_do n (turn E i c p) ts k a.2 after.0 after.1,
      )

  calls_left_zero : (x : Worker A) → calls_left x ≡ 0 → x ≡ finished
  calls_left_zero popping e = absurd (omega arith)
  calls_left_zero (recording t) e = absurd (omega arith)
  calls_left_zero (adding a) e = absurd (omega arith)
  calls_left_zero finished e = refl

  pub no_items : {B : Type 0} (xs : List B) → length xs ≡ 0 → xs ≡ []
  no_items [] e = refl
  no_items (x ∷ xs) e = absurd (omega arith)

  -- Once a queue that is ready is shut, the turns of workers that have not ended number `left_to_do` at
  -- most, whichever workers they are.
  pub stop_bounded :
      (n : ℕ) (p : Pool E) (ts : List (ℕ × Clock)) (k : ℕ)
      → Runs n p ts
      → E.IsReady k p.queue
      → (E.view p.queue).shut ≡ true
      → length ts ≤ left_to_do n p
  stop_bounded n p ts k a r shut = omega (arith, turns-left_to_do n p ts k a r shut)

  -- Once a queue that is ready is shut, after `left_to_do` turns of workers that have not ended, whichever
  -- they are, the queue is empty and the loop of each of the `n` workers has ended.
  pub stop_drains :
      (n : ℕ) (p : Pool E) (ts : List (ℕ × Clock)) (k i : ℕ)
      → Runs n p ts
      → E.IsReady k p.queue
      → (E.view p.queue).shut ≡ true
      → length ts ≡ left_to_do n p
      → i < n
      → (queued (run_turns p ts) ≡ []) × ((run_turns p ts).workers i ≡ finished)
  stop_drains n p ts k i a r shut all lt =
      let spent = turns-left_to_do n p ts k a r shut in
      (
        no_items _ (omega (arith, spent)),
        calls_left_zero _
            (total_zero calls_left n (run_turns p ts).workers i (omega (arith, spent)) lt),
      )
