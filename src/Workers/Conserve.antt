-- ===== src/Workers/Conserve.antt =====
-- The pool's threads lose, invent and repeat no event, in whatever order their calls come.
use edge_flow.Prelude.{
  ℕ, suc, ◌+◌, ◌<◌, ◌≡◌, refl, ap, List, [], ◌∷◌, ◌++◌, arith, Bool-cases, inl, inr,
}
use edge_flow.Queue.Contract.{EventQueue, View, poll_items}
use edge_flow.Queue.Contract.History.{push_order, let_in, put_out}
use edge_flow.Batcher.{add_event}
use edge_flow.Batcher.Order.{out, add_event_order}
use edge_flow.Workers.{
  TimedEvent, Worker, popping, recording, adding, finished, Clock, Pool, popped_worker, work, turn,
  Move, turns, arrives, stops, move, run, stop,
}
use edge_flow.Workers.Family.{total, total-update}

-- What the events of a list come to, for any weight of single events. Two lists with equal weights
-- for every weight hold the same events, each as often.
abbrev pub weigh {ℓ} : {A : Type ℓ} → (A → ℕ) → List A → ℕ
weigh w [] = 0
weigh w (a ∷ xs) = w a + weigh w xs

pub weigh-append {ℓ} :
    {A : Type ℓ} (w : A → ℕ) (xs ys : List A) → weigh w (xs ++ ys) ≡ weigh w xs + weigh w ys
weigh-append w [] ys = omega arith
weigh-append w (x ∷ xs) ys = omega (arith, weigh-append w xs ys)

abbrev pub arrivals : {A : Type 0} → List (Move A) → ℕ
arrivals [] = 0
arrivals (arrives t ∷ ms) = suc (arrivals ms)
arrivals (turns i c ∷ ms) = arrivals ms
arrivals (stops ∷ ms) = arrivals ms

-- Every turn is one of the `n` workers'.
abbrev pub IsSchedule : {A : Type 0} → ℕ → List (Move A) → Type 0
IsSchedule n [] = Unit
IsSchedule n (turns i c ∷ ms) = (i < n) × IsSchedule n ms
IsSchedule n (arrives t ∷ ms) = IsSchedule n ms
IsSchedule n (stops ∷ ms) = IsSchedule n ms

module _ {A : Type 0} (w : A → ℕ) where
  -- The event that a worker holds.
  abbrev pub hand : Worker A → ℕ
  hand (recording t) = w t.event
  hand (adding a) = w a
  hand _ = 0

  abbrev pub timed : TimedEvent A → ℕ
  timed t = w t.event

module _ {A : Type 0} (E : EventQueue (TimedEvent A)) (w : A → ℕ) where
  -- All events in the pool: delivered, buffered, in the hands of `n` workers, and queued.
  abbrev pub worth : ℕ → Pool E → ℕ
  worth n p =
      weigh w p.delivered
      + weigh w p.batcher.buffer
      + total (hand w) n p.workers
      + weigh (timed w) (E.view p.queue).items

  poll-worth :
      (xs : List (TimedEvent A)) (v : View (TimedEvent A))
      → v.items ≡ xs
      → hand w (popped_worker E (poll_items xs v).0) + weigh (timed w) (poll_items xs v).1.items
        ≡ weigh (timed w) xs
  poll-worth [] v e = elim (Bool-cases v.shut) [ inl s ↦ ground arith | inr s ↦ ground arith ]
  poll-worth (t ∷ xs) v e = omega arith

  work-worth :
      (x : Worker A) (c : Clock) (p : Pool E) (k : ℕ)
      → E.IsReady k p.queue
      → let (x', p') = work E x c p in
        weigh w p'.delivered
          + weigh w p'.batcher.buffer
          + hand w x'
          + weigh (timed w) (E.view p'.queue).items
        ≡ weigh w p.delivered
          + weigh w p.batcher.buffer
          + hand w x
          + weigh (timed w) (E.view p.queue).items
  unfolding work
  work-worth popping c p k r =
      let law = E.pop_lem k p.queue r in
      rw (law.0, law.1) (omega (arith, poll-worth (E.view p.queue).items (E.view p.queue) refl))
  work-worth (recording t) c p k r = refl
  work-worth (adding a) c p k r = omega (
    arith,
    weigh-append w p.delivered (out (add_event a c.began c.checked p.batcher).0),
    weigh-append w p.batcher.buffer (a ∷ []),
    weigh-append w (out (add_event a c.began c.checked p.batcher).0)
        (add_event a c.began c.checked p.batcher).1.buffer,
    ap (weigh w) (add_event_order p.batcher a c.began c.checked),
  )
  work-worth finished c p k r = refl

  -- What a schedule lets into the queue, and what it puts out of it to make room.
  unfoldable pub entered : Pool E → List (Move A) → ℕ
  entered p [] = 0
  entered p (turns i c ∷ ms) = entered (turn E i c p) ms
  entered p (arrives t ∷ ms) =
      weigh (timed w) (let_in t (E.push t p.queue).0) + entered (move E p (arrives t)) ms
  entered p (stops ∷ ms) = entered (stop E p) ms

  unfoldable pub put_out_by : Pool E → List (Move A) → ℕ
  put_out_by p [] = 0
  put_out_by p (turns i c ∷ ms) = put_out_by (turn E i c p) ms
  put_out_by p (arrives t ∷ ms) =
      weigh (timed w) (put_out (E.view p.queue).items (E.push t p.queue).0)
      + put_out_by (move E p (arrives t)) ms
  put_out_by p (stops ∷ ms) = put_out_by (stop E p) ms

  work-IsReady :
      (x : Worker A) (c : Clock) (p : Pool E) (k : ℕ)
      → E.IsReady k p.queue
      → E.IsReady k (work E x c p).1.queue
  unfolding work
  work-IsReady popping c p k r = E.pop-IsReady k p.queue r
  work-IsReady (recording t) c p k r = r
  work-IsReady (adding a) c p k r = r
  work-IsReady finished c p k r = r

  pub turn-IsReady :
      (i : ℕ) (c : Clock) (p : Pool E) (k : ℕ)
      → E.IsReady k p.queue
      → E.IsReady k (turn E i c p).queue
  unfolding turn
  turn-IsReady i c p k r = work-IsReady (p.workers i) c p k r

  pub turn-worth :
      (n i : ℕ) (c : Clock) (p : Pool E) (k : ℕ)
      → i < n
      → E.IsReady k p.queue
      → worth n (turn E i c p) ≡ worth n p
  unfolding turn
  turn-worth n i c p k lt r = omega (
    arith,
    work-worth (p.workers i) c p k r,
    total-update (hand w) n p.workers i (work E (p.workers i) c p).0 lt,
  )

  pub stop-worth :
      (n : ℕ) (p : Pool E) (k : ℕ)
      → E.IsReady k p.queue
      → E.IsReady k (stop E p).queue × (worth n (stop E p) ≡ worth n p)
  unfolding stop
  stop-worth n p k r = elim (Bool-cases p.stopped) [
    | inl again ↦ rw again (r, refl)
    | inr first ↦ rw first (
      E.shutdown-IsReady k p.queue r,
      omega (
        arith,
        ap (λ (v : View (TimedEvent A)). weigh (timed w) v.items) (E.shutdown_lem k p.queue r),
      ),
    )
  ]

  -- Over any interleaving of the workers, the producer and stop(), on any queue ready for the pushes:
  -- what the pool held at the start and what was let in weigh as much as what the pool holds at the
  -- end, delivered, buffered, in hand or queued, and what was put out, by any weight of events.
  pub worth-run :
      (n : ℕ) (p : Pool E) (ms : List (Move A))
      → IsSchedule n ms
      → E.IsReady (arrivals ms) p.queue
      → worth n p + entered p ms ≡ worth n (run E p ms) + put_out_by p ms
  unfolding run move entered put_out_by
  worth-run n p [] s r = refl
  worth-run n p (turns i c ∷ ms) s r = omega (
    arith,
    turn-worth n i c p (arrivals ms) s.0 r,
    worth-run n (turn E i c p) ms s.1 (turn-IsReady i c p (arrivals ms) r),
  )
  worth-run n p (arrives t ∷ ms) s r =
      let q = (E.push t p.queue).1 in
      omega (
        arith,
        weigh-append (timed w) (E.view p.queue).items (let_in t (E.push t p.queue).0),
        weigh-append (timed w) (put_out (E.view p.queue).items (E.push t p.queue).0)
            (E.view q).items,
        ap (weigh (timed w)) (push_order E (arrivals ms) t p.queue r),
        worth-run n (record p { queue = q }) ms s (E.push-IsReady (arrivals ms) t p.queue r),
      )
  worth-run n p (stops ∷ ms) s r =
      let stopped = stop-worth n p (arrivals ms) r in
      omega (arith, stopped.1, worth-run n (stop E p) ms s stopped.0)
