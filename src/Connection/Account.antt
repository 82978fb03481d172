-- ===== src/Connection/Account.antt =====
-- Every line that a connection reads is counted once, and under Block every event of one is let in, in
-- the order of the lines.
use edge_flow.Prelude.{
  ℕ, ◌+◌, ◌≡◌, refl, ap, Bool, true, false, List, [], ◌∷◌, ◌++◌, length, length-append, Option,
  none, some, arith,
}
use edge_flow.Prelude.Except.{Text}
use edge_flow.Queue.Types.{PushResult, accepted, dropped_oldest, rejected_backpressure}
use edge_flow.Queue.Contract.{EventQueue}
use edge_flow.Stats.{
  Stats, u64, record_accepted, record_dropped_oldest, record_dropped_newest, record_malformed,
}
use edge_flow.Workers.{TimedEvent}
use edge_flow.Connection.{
  Status, reading, retrying, closed, Completion, reads, fires, read_fails, timer_fails, meanwhile,
  Connection, after_push, push_event, after_retry, push_again, after_parse, handle_line, respond,
  run,
}

-- The lines that the counters have settled.
abbrev pub settled : Stats → ℕ
settled s =
    s.events_accepted + s.events_dropped_oldest + s.events_dropped_newest + s.events_malformed

module _ {A : Type 0} where
  abbrev pub waiting : Status A → List (TimedEvent A)
  waiting (retrying timed) = timed ∷ []
  waiting _ = []

  abbrev pub pending : Status A → ℕ
  pending (retrying timed) = 1
  pending _ = 0

module _ {A : Type 0} (E : EventQueue (TimedEvent A)) where
  abbrev pub counted : Connection E → ℕ
  counted c = settled c.stats + pending c.status

  -- The push of a line's event settles it, or leaves it waiting.
  after_push-counted :
      (timed : TimedEvent A) (result : PushResult) (c : Connection E)
      → u64 (counted (after_push E timed result c)) ≡ u64 (settled c.stats + 1)
  unfolding after_push record_accepted record_dropped_oldest record_dropped_newest
  after_push-counted timed accepted c = omega arith
  after_push-counted timed dropped_oldest c = omega arith
  after_push-counted timed rejected_backpressure c = ground arith

  after_retry-counted :
      (timed : TimedEvent A) (result : PushResult) (c : Connection E)
      → u64 (counted (after_retry E timed result c)) ≡ u64 (settled c.stats + 1)
  unfolding after_retry record_accepted record_dropped_oldest
  after_retry-counted timed accepted c = omega arith
  after_retry-counted timed dropped_oldest c = omega arith
  after_retry-counted timed rejected_backpressure c = refl

  -- The timer is not cancelled.
  abbrev pub cancels : Completion E → Bool
  cancels timer_fails = true
  cancels _ = false

  abbrev pub IsTimely : List (Completion E) → Type 0
  IsTimely [] = Unit
  IsTimely (m ∷ ms) = (cancels m ≡ false) × IsTimely ms

  -- The line that a completion takes from the socket, with the time of its reading.
  abbrev pub taken : Status A → Completion E → List (Text × ℕ)
  taken reading (reads line now) = (line, now) ∷ []
  taken _ _ = []

  module _ (parse_event : Text → Option A) where
    after_parse-counted :
        (parsed : Option A) (now : ℕ) (c : Connection E)
        → u64 (counted (after_parse E parse_event parsed now c)) ≡ u64 (settled c.stats + 1)
    unfolding after_parse push_event record_malformed
    after_parse-counted none now c = omega arith
    after_parse-counted (some event) now c =
        let timed : TimedEvent A = record { event = event; enqueued_at = now } in
        after_push-counted timed (E.push timed c.queue).0
          (record c { queue = (E.push timed c.queue).1 })

    unfoldable pub lines : Connection E → List (Completion E) → List (Text × ℕ)
    lines c [] = []
    lines c (m ∷ ms) = taken c.status m ++ lines (respond E parse_event c.status m c) ms

    -- One completion leaves as many lines accounted for as there were, and the one that it takes.
    respond-counted :
        (s : Status A) (m : Completion E) (c : Connection E)
        → c.status ≡ s
        → IsTimely (m ∷ [])
        → u64 (counted (respond E parse_event s m c)) ≡ u64 (counted c + length (taken s m))
    unfolding respond handle_line push_again
    respond-counted reading (meanwhile q) c e h = omega arith
    respond-counted (retrying timed) (meanwhile q) c e h = omega arith
    respond-counted closed (meanwhile q) c e h = omega arith
    respond-counted reading (reads line now) c e h =
        omega (arith, after_parse-counted (parse_event line) now c, ap pending e)
    respond-counted reading read_fails c e h = omega (arith, ap pending e)
    respond-counted reading fires c e h = omega arith
    respond-counted (retrying timed) fires c e h = omega (
      arith,
      ap pending e,
      after_retry-counted timed (E.push timed c.queue).0
          (record c { queue = (E.push timed c.queue).1 }),
    )
    respond-counted (retrying timed) read_fails c e h = omega arith
    respond-counted (retrying timed) (reads line now) c e h = omega arith
    respond-counted closed (reads line now) c e h = omega arith
    respond-counted closed fires c e h = omega arith
    respond-counted closed read_fails c e h = omega arith
    respond-counted s timer_fails c e h = cc

    -- Whatever the queue does and the others do to it, as long as the timer is not cancelled: the
    -- events accepted and dropped, the malformed lines, and the event that waits for the timer grow by
    -- the number of lines read, modulo 2^64.
    pub counted-run :
        (c : Connection E) (ms : List (Completion E))
        → IsTimely ms
        → u64 (counted (run E parse_event c ms)) ≡ u64 (counted c + length (lines c ms))
    unfolding run lines
    counted-run c [] h = omega arith
    counted-run c (m ∷ ms) h = omega (
      arith,
      length-append (taken c.status m) (lines (respond E parse_event c.status m c) ms),
      respond-counted c.status m c refl (h.0, tt),
      counted-run (respond E parse_event c.status m c) ms h.1,
    )
