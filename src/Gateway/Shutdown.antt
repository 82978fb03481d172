-- ===== src/Gateway/Shutdown.antt =====
-- What main leaves behind when it ends.
use edge_flow.Prelude.{
  ℕ, ◌+◌, ◌<◌, ◌≡◌, Option, none, some, refl, ◌∙◌, ap, List, [], ◌∷◌, arith, true, false, length,
}
use edge_flow.Prelude.Except.{Text}
use edge_flow.Queue.Types.{BackpressurePolicy}
use edge_flow.Queue.Contract.{EventQueue, View}
use edge_flow.Batcher
use edge_flow.Batcher.{Batcher, flush, flush_locked}
use edge_flow.Workers.{
  TimedEvent, Worker, popping, recording, adding, finished, Clock, Pool, work, turn, stop,
}
use edge_flow.Workers.Family.{total, total_none}
use edge_flow.Workers.Conserve.{weigh, hand, timed, worth, turn-worth, turn-IsReady, stop-worth}
use edge_flow.Workers.Drain.{left_to_do, run_turns, Runs, stop_drains, no_items, turns-left_to_do}
use edge_flow.Connection.{Status}
use edge_flow.Gateway.{
  Handler, Move, arrives, handles, works, flushes, Gateway, opened, serve, status_at, handle,
  flush_pool, move, run, shut_down,
}
use edge_flow.Gateway.Conserve.{
  serve-wealth, IsSchedule, held_all, read_in, lost_in, pushes, flush_pool-worth, run-wealth,
}

module _ {A : Type 0} (E : EventQueue (TimedEvent A)) where
  emptied : (b : Batcher A) → (flush b).1.buffer ≡ []
  unfolding flush flush_locked
  emptied b = go b.buffer refl
    where
      go : (xs : List A) → b.buffer ≡ xs → (flush b).1.buffer ≡ []
      go [] e = rw e refl
      go (x ∷ xs) e = rw e refl

  work-stopped : (x : Worker A) (c : Clock) (p : Pool E) → (work E x c p).1.stopped ≡ p.stopped
  unfolding work
  work-stopped popping c p = refl
  work-stopped (recording t) c p = refl
  work-stopped (adding a) c p = refl
  work-stopped finished c p = refl

  handle-stopped :
      (parse_event : Text → Option A) (k : ℕ) (h : Handler) (o : Option (Status A)) (g : Gateway E)
      → (handle E parse_event k h o g).pool.stopped ≡ g.pool.stopped
  unfolding handle
  handle-stopped parse_event k h none g = refl
  handle-stopped parse_event k h (some s) g = refl

  -- Nobody stops the pool before the reactor ends.
  run-stopped :
      (parse_event : Text → Option A) (g : Gateway E) (ms : List Move)
      → (run E parse_event g ms).pool.stopped ≡ g.pool.stopped
  unfolding run move flush_pool turn
  run-stopped parse_event g [] = refl
  run-stopped parse_event g (arrives e ∷ ms) =
      run-stopped parse_event (serve E g.server e g) ms
      ∙ ap (λ (p : Pool E). p.stopped) (serve-wealth E (λ a. 0) 0 g.server e g).1
  run-stopped parse_event g (handles k h ∷ ms) =
      run-stopped parse_event (handle E parse_event k h (status_at k g.connections) g) ms
      ∙ handle-stopped parse_event k h (status_at k g.connections) g
  run-stopped parse_event g (works i c ∷ ms) =
      run-stopped parse_event (record g { pool = turn E i c g.pool }) ms
      ∙ work-stopped (g.pool.workers i) c g.pool
  run-stopped parse_event g (flushes ∷ ms) =
      run-stopped parse_event (record g { pool = flush_pool E g.pool }) ms

  run_turns-worth :
      (w : A → ℕ) (n : ℕ) (p : Pool E) (ts : List (ℕ × Clock)) (k : ℕ)
      → Runs E n p ts
      → E.IsReady k p.queue
      → worth E w n (run_turns E p ts) ≡ worth E w n p
  unfolding run_turns Runs
  run_turns-worth w n p [] k alive r = refl
  run_turns-worth w n p ((i, c) ∷ ts) k alive r =
      run_turns-worth w n (turn E i c p) ts k alive.2 (turn-IsReady E w i c p k r)
      ∙ turn-worth E w n i c p k alive.0 r

  stop-shut :
      (p : Pool E) (k : ℕ)
      → E.IsReady k p.queue
      → p.stopped ≡ false
      → (E.view (stop E p).queue).shut ≡ true
  unfolding stop
  stop-shut p k r e = rw e (ap (λ (v : View (TimedEvent A)). v.shut) (E.shutdown_lem k p.queue r))

  module _ (w : A → ℕ) where
    finished-hand : (x : Worker A) → x ≡ finished → hand w x ≡ 0
    finished-hand finished e = refl
    finished-hand popping e = cc
    finished-hand (recording t) e = cc
    finished-hand (adding a) e = cc

    -- All that a pool weighs when nothing is queued and its workers have ended, flushed.
    ended-worth :
        (n : ℕ) (p : Pool E)
        → (E.view p.queue).items ≡ []
        → ((i : ℕ) → i < n → p.workers i ≡ finished)
        → weigh w (flush_pool E p).delivered ≡ worth E w n p
    unfolding flush_pool
    ended-worth n p drained ends = omega (
      arith,
      flush_pool-worth E w n p,
      ap (weigh (timed w)) drained,
      ap (weigh w) (emptied p.batcher),
      total_none (hand w) n p.workers (λ i lt. finished-hand (p.workers i) (ends i lt)),
    )

    none_held : (n : ℕ) → total (hand w) n (λ i. popping) ≡ 0
    none_held n = total_none (hand w) n (λ i. popping) (λ i lt. refl)

    module _ (parse_event : Text → Option A) (n : ℕ) (q : E.Queue) (policy : BackpressurePolicy)
        (size age now : ℕ) (ms : List Move) where
      abbrev begun : Gateway E
      begun = opened E q policy size age now

      abbrev served : Gateway E
      served = run E parse_event begun ms

      -- From the gateway that main opens on an empty queue, with `n` workers: after any interleaving of
      -- the handlers of the server and of all connections, the calls of the workers and the flushes, once
      -- main has stopped the pool, its workers have made the calls that they still make, and main has
      -- flushed the batcher, nothing is queued or buffered, every worker has ended, and what the sink was
      -- handed weighs, by any weight of events, as much as what was read from the devices, less what the
      -- connections still held and what was lost: put out of the queue, refused and given up, or waiting
      -- for a timer that was cancelled.
      pub shut_down-wealth :
          (ts : List (ℕ × Clock))
          → (E.view q).items ≡ []
          → E.IsReady (pushes E parse_event begun ms 0) q
          → IsSchedule n ms
          → Runs E n (stop E served.pool) ts
          → length ts ≡ left_to_do E n (stop E served.pool)
          → let p = shut_down E served.pool ts in
            ((E.view p.queue).items ≡ [])
            × (p.batcher.buffer ≡ [])
            × ((i : ℕ) → i < n → p.workers i ≡ finished)
            × (weigh w p.delivered
                  + held_all w served.connections
                  + lost_in E w parse_event begun ms
                ≡ read_in E w parse_event begun ms)
      unfolding shut_down flush_pool Batcher.make
      shut_down-wealth ts empty ready fair alive all =
          let (kept, last) = run-wealth E w parse_event n begun ms 0 fair ready in
          let stopping : Pool E = stop E served.pool in
          let (still, stopped) = stop-worth E w n served.pool 0 last in
          let shut = stop-shut served.pool 0 last (run-stopped parse_event begun ms) in
          let drained = run_turns E stopping ts in
          let left = turns-left_to_do E n stopping ts 0 alive still shut in
          let nothing_queued : (E.view drained.queue).items ≡ [] =
            no_items E (E.view drained.queue).items (omega (arith, left, all)) in
          let ends : (i : ℕ) → i < n → drained.workers i ≡ finished =
            λ i lt. (stop_drains E n stopping ts 0 i alive still shut all lt).1 in
          (
            nothing_queued,
            emptied drained.batcher,
            ends,
            omega (
              arith,
              kept,
              stopped,
              run_turns-worth w n stopping ts 0 alive still,
              ended-worth n drained nothing_queued ends,
              ap (weigh (timed w)) empty,
              none_held n,
            ),
          )
