-- ===== src/Gateway/Conserve.antt =====
-- The whole gateway, from the events that its connections read to those that its sink is handed: runs of
-- the reactor, the workers and the flush thread (gateway/src/main.cpp).
use edge_flow.Prelude.{
  ℕ, zero, suc, ◌+◌, ◌<◌, ◌≡◌, refl, sym, ap, List, [], ◌∷◌, ◌++◌, arith, Option, none, some,
}
use edge_flow.Prelude.Except.{Text}
use edge_flow.Queue.Contract.{EventQueue}
use edge_flow.Batcher.{flush}
use edge_flow.Batcher.Order.{out, flush_order}
use edge_flow.Workers.{TimedEvent, Pool, turn}
use edge_flow.Workers.Conserve.{weigh, weigh-append, worth, turn-worth, turn-IsReady}
use mathlib.Core.Path.{subst}
use edge_flow.Connection.{Status, reading, start, respond}
use edge_flow.Gateway.{
  Accept, accepting, backing_off, ended, Arrival, accepted, aborted, failed, retried, cancelled,
  Handler, Move, arrives, handles, works, flushes, Gateway, status_at, set_at, connection, serve,
  completion, flush_pool, handle, move, run,
}
use edge_flow.Gateway.Worth.{held, taken, lost, with_push, respond-worth}

-- Every turn is one of the `n` workers'.
abbrev pub IsSchedule : ℕ → List Move → Type 0
IsSchedule n [] = Unit
IsSchedule n (works i c ∷ ms) = (i < n) × IsSchedule n ms
IsSchedule n (arrives e ∷ ms) = IsSchedule n ms
IsSchedule n (handles k h ∷ ms) = IsSchedule n ms
IsSchedule n (flushes ∷ ms) = IsSchedule n ms

module _ {A : Type 0} (w : A → ℕ) where
  -- The events that wait for the timers of the connections.
  abbrev pub held_all : List (Status A) → ℕ
  held_all [] = 0
  held_all (s ∷ ss) = held w s + held_all ss

  held_all-append : (ss ts : List (Status A)) → held_all (ss ++ ts) ≡ held_all ss + held_all ts
  held_all-append [] ts = omega arith
  held_all-append (s ∷ ss) ts = omega (arith, held_all-append ss ts)

  set_at-held :
      (k : ℕ) (ss : List (Status A)) (s now : Status A)
      → status_at k ss ≡ some s
      → held_all (set_at k now ss) + held w s ≡ held_all ss + held w now
  set_at-held k [] s now e = cc
  set_at-held zero (t ∷ ss) s now e = let same : t ≡ s = cc e in omega (arith, ap (held w) same)
  set_at-held (suc k) (t ∷ ss) s now e = omega (arith, set_at-held k ss s now e)

module _ {A : Type 0} (E : EventQueue (TimedEvent A)) (parse_event : Text → Option A) where
  abbrev pushes_at : Handler → Option (Status A) → ℕ → ℕ
  pushes_at h none n = n
  pushes_at h (some s) n = with_push parse_event s h n

  -- The pushes that are made, and `k` more.
  unfoldable pub pushes : Gateway E → List Move → ℕ → ℕ
  pushes g [] k = k
  pushes g (handles j h ∷ ms) k =
      pushes_at h (status_at j g.connections) (pushes (move E parse_event g (handles j h)) ms k)
  pushes g (arrives e ∷ ms) k = pushes (move E parse_event g (arrives e)) ms k
  pushes g (works i c ∷ ms) k = pushes (move E parse_event g (works i c)) ms k
  pushes g (flushes ∷ ms) k = pushes (move E parse_event g flushes) ms k

module _ {A : Type 0} (E : EventQueue (TimedEvent A)) (w : A → ℕ) where
  pub flush_pool-worth : (n : ℕ) (p : Pool E) → worth E w n (flush_pool E p) ≡ worth E w n p
  unfolding flush_pool
  flush_pool-worth n p = omega (
    arith,
    weigh-append w p.delivered (out (flush p.batcher).0),
    weigh-append w (out (flush p.batcher).0) (flush p.batcher).1.buffer,
    ap (weigh w) (flush_order p.batcher),
  )

  -- Everything that the gateway holds or has delivered.
  abbrev pub wealth : ℕ → Gateway E → ℕ
  wealth n g = worth E w n g.pool + held_all w g.connections

  pub serve-wealth :
      (n : ℕ) (s : Accept) (e : Arrival) (g : Gateway E)
      → (wealth n (serve E s e g) ≡ wealth n g) × ((serve E s e g).pool ≡ g.pool)
  unfolding serve start
  serve-wealth n accepting accepted g =
      (omega (arith, held_all-append w g.connections (reading ∷ [])), refl)
  serve-wealth n accepting aborted g = (refl, refl)
  serve-wealth n accepting failed g = (refl, refl)
  serve-wealth n accepting retried g = (refl, refl)
  serve-wealth n accepting cancelled g = (refl, refl)
  serve-wealth n backing_off retried g = (refl, refl)
  serve-wealth n backing_off cancelled g = (refl, refl)
  serve-wealth n backing_off accepted g = (refl, refl)
  serve-wealth n backing_off aborted g = (refl, refl)
  serve-wealth n backing_off failed g = (refl, refl)
  serve-wealth n ended e g = (refl, refl)

  module _ (parse_event : Text → Option A) where
    abbrev taken_at : Handler → Option (Status A) → ℕ
    taken_at h none = 0
    taken_at h (some s) = taken E w parse_event s h

    abbrev lost_at : Gateway E → Handler → Option (Status A) → ℕ
    lost_at g h none = 0
    lost_at g h (some s) = lost E w parse_event s h g.policy g.pool.queue

    -- The events that the connections read.
    unfoldable pub read_in : Gateway E → List Move → ℕ
    read_in g [] = 0
    read_in g (handles k h ∷ ms) =
        taken_at h (status_at k g.connections) + read_in (move E parse_event g (handles k h)) ms
    read_in g (arrives e ∷ ms) = read_in (move E parse_event g (arrives e)) ms
    read_in g (works i c ∷ ms) = read_in (move E parse_event g (works i c)) ms
    read_in g (flushes ∷ ms) = read_in (move E parse_event g flushes) ms

    -- The events that are lost: put out of the queue, given up, or waiting for a cancelled timer.
    unfoldable pub lost_in : Gateway E → List Move → ℕ
    lost_in g [] = 0
    lost_in g (handles k h ∷ ms) =
        lost_at g h (status_at k g.connections) + lost_in (move E parse_event g (handles k h)) ms
    lost_in g (arrives e ∷ ms) = lost_in (move E parse_event g (arrives e)) ms
    lost_in g (works i c ∷ ms) = lost_in (move E parse_event g (works i c)) ms
    lost_in g (flushes ∷ ms) = lost_in (move E parse_event g flushes) ms

    handle-wealth :
        (n j : ℕ) (h : Handler) (o : Option (Status A)) (g : Gateway E) (k : ℕ)
        → status_at j g.connections ≡ o
        → E.IsReady (pushes_at E parse_event h o k) g.pool.queue
        → let g' = handle E parse_event j h o g in
          (wealth n g + taken_at h o ≡ wealth n g' + lost_at g h o) × E.IsReady k g'.pool.queue
    unfolding handle
    handle-wealth n j h none g k e r = (omega arith, r)
    handle-wealth n j h (some s) g k e r =
        let (kept, ready) = respond-worth E w parse_event s h k (connection E g s) refl r in
        let c' = respond E parse_event s (completion E h) (connection E g s) in
        (omega (arith, kept, set_at-held w j g.connections s c'.status e), ready)

    -- Over any interleaving of the handlers of the server and of all connections, the calls of `n`
    -- workers and the flushes: what the gateway held or had delivered, and what was read, weigh as much
    -- as what it holds or has delivered at the end, and what was lost.
    pub run-wealth :
        (n : ℕ) (g : Gateway E) (ms : List Move) (k : ℕ)
        → IsSchedule n ms
        → E.IsReady (pushes E parse_event g ms k) g.pool.queue
        → (wealth n g + read_in g ms ≡ wealth n (run E parse_event g ms) + lost_in g ms)
          × E.IsReady k (run E parse_event g ms).pool.queue
    unfolding run read_in lost_in pushes move flush_pool
    run-wealth n g [] k fair r = (refl, r)
    run-wealth n g (handles j h ∷ ms) k fair r =
        let g' = handle E parse_event j h (status_at j g.connections) g in
        let (kept, ready) =
          handle-wealth n j h (status_at j g.connections) g (pushes E parse_event g' ms k) refl r in
        let (rest, last) = run-wealth n g' ms k fair ready in (omega (arith, kept, rest), last)
    run-wealth n g (arrives e ∷ ms) k fair r =
        let g' = serve E g.server e g in
        let (kept, same) = serve-wealth n g.server e g in
        let (rest, last) = run-wealth n g' ms k fair (
          subst (E.IsReady (pushes E parse_event g' ms k)) (sym (ap (λ (p : Pool E). p.queue) same))
            r) in
        (omega (arith, kept, rest), last)
    run-wealth n g (works i c ∷ ms) k fair r =
        let g' : Gateway E = record g { pool = turn E i c g.pool } in
        let (rest, last) =
          run-wealth n g' ms k fair.1
            (turn-IsReady E w i c g.pool (pushes E parse_event g' ms k) r) in
        (
          omega (arith, turn-worth E w n i c g.pool (pushes E parse_event g' ms k) fair.0 r, rest),
          last,
        )
    run-wealth n g (flushes ∷ ms) k fair r =
        let g' : Gateway E = record g { pool = flush_pool E g.pool } in
        let (rest, last) = run-wealth n g' ms k fair r in
        (omega (arith, flush_pool-worth n g.pool, rest), last)
