-- ===== src/Gateway/Worth.antt =====
-- What one handler of a connection does with the event that it reads or holds: connection.hpp of
-- gateway/include/edgeflow/gateway.
use edge_flow.Prelude.{ℕ, suc, ◌+◌, ◌≡◌, refl, sym, ap, arith, Option, none, some, if◌then◌else◌}
use mathlib.Core.Path.{subst}
use edge_flow.Prelude.Except.{Text}
use edge_flow.Queue.Types.{
  BackpressurePolicy, PushResult, accepted, dropped_oldest, rejected_backpressure,
}
use edge_flow.Queue.Contract.{EventQueue}
use edge_flow.Queue.Contract.History.{push_order, let_in, put_out}
use edge_flow.Workers.{TimedEvent}
use edge_flow.Workers.Conserve.{weigh, weigh-append, timed}
use edge_flow.Connection.{
  Status, reading, retrying, closed, is_drop_newest, Connection, after_push, push_event,
  after_retry, push_again, after_parse, handle_line, respond,
}
use edge_flow.Gateway.{Handler, line_read, retry_fired, read_failed, retry_cancelled, completion}

module _ {A : Type 0} (w : A → ℕ) where
  -- The event that waits for a connection's timer.
  abbrev pub held : Status A → ℕ
  held (retrying t) = w t.event
  held _ = 0

  abbrev pub parsed : Option A → ℕ
  parsed none = 0
  parsed (some a) = w a

  -- An event that the queue does not take.
  abbrev pub refused : TimedEvent A → PushResult → ℕ
  refused t accepted = 0
  refused t dropped_oldest = 0
  refused t rejected_backpressure = w t.event

-- A push, if there is an event.
abbrev one_more : {A : Type 0} → Option A → ℕ → ℕ
one_more none n = n
one_more (some a) n = suc n

module _ {A : Type 0} (parse_event : Text → Option A) where
  -- The pushes that a queue must be ready for, with those to come.
  abbrev pub with_push : Status A → Handler → ℕ → ℕ
  with_push reading (line_read line now) n = one_more (parse_event line) n
  with_push (retrying t) retry_fired n = suc n
  with_push s h n = n

module _ {A : Type 0} (E : EventQueue (TimedEvent A)) (w : A → ℕ) where
  abbrev pub queued : E.Queue → ℕ
  queued q = weigh (timed w) (E.view q).items

  -- What a push puts out of the queue.
  abbrev pub ousted : TimedEvent A → E.Queue → ℕ
  ousted t q = weigh (timed w) (put_out (E.view q).items (E.push t q).0)

  refused-let_in :
      (t : TimedEvent A) (r : PushResult) → weigh (timed w) (let_in t r) + refused w t r ≡ w t.event
  refused-let_in t accepted = omega arith
  refused-let_in t dropped_oldest = omega arith
  refused-let_in t rejected_backpressure = omega arith

  push-queued :
      (n : ℕ) (t : TimedEvent A) (q : E.Queue)
      → E.IsReady (suc n) q
      → queued q + w t.event ≡ queued (E.push t q).1 + ousted t q + refused w t (E.push t q).0
  push-queued n t q r = omega (
    arith,
    weigh-append (timed w) (E.view q).items (let_in t (E.push t q).0),
    weigh-append (timed w) (put_out (E.view q).items (E.push t q).0) (E.view (E.push t q).1).items,
    ap (weigh (timed w)) (push_order E n t q r),
    refused-let_in t (E.push t q).0,
  )

  -- An event that the queue refused and that is not tried again.
  abbrev pub given_up : BackpressurePolicy → TimedEvent A → PushResult → ℕ
  given_up policy t r = if is_drop_newest policy then refused w t r else 0

  after_push-held :
      (t : TimedEvent A) (r : PushResult) (c : Connection E)
      → (held w (after_push E t r c).status + given_up c.policy t r ≡ refused w t r)
        × ((after_push E t r c).queue ≡ c.queue)
  unfolding after_push
  after_push-held t accepted c = ground arith
  after_push-held t dropped_oldest c = ground arith
  after_push-held t rejected_backpressure c = ground arith

  after_retry-held :
      (t : TimedEvent A) (r : PushResult) (c : Connection E)
      → (held w (after_retry E t r c).status ≡ refused w t r)
        × ((after_retry E t r c).queue ≡ c.queue)
  unfolding after_retry
  after_retry-held t accepted c = (refl, refl)
  after_retry-held t dropped_oldest c = (refl, refl)
  after_retry-held t rejected_backpressure c = (refl, refl)

  module _ (parse_event : Text → Option A) where
    -- The event that a handler takes from the socket.
    abbrev pub taken : Status A → Handler → ℕ
    taken reading (line_read line now) = parsed w (parse_event line)
    taken s h = 0

    abbrev lost_push : BackpressurePolicy → ℕ → E.Queue → Option A → ℕ
    lost_push policy now q none = 0
    lost_push policy now q (some a) =
        let t : TimedEvent A = record { event = a; enqueued_at = now } in
        ousted t q + given_up policy t (E.push t q).0

    -- The events that a handler loses: put out of the queue, refused and given up, or waiting when the
    -- timer is cancelled.
    abbrev pub lost : Status A → Handler → BackpressurePolicy → E.Queue → ℕ
    lost reading (line_read line now) policy q = lost_push policy now q (parse_event line)
    lost (retrying t) retry_fired policy q = ousted t q
    lost (retrying t) retry_cancelled policy q = w t.event
    lost s h policy q = 0

    after_parse-worth :
        (o : Option A) (now n : ℕ) (c : Connection E)
        → E.IsReady (one_more o n) c.queue
        → let c' = after_parse E parse_event o now c in
          (queued c.queue + parsed w o
            ≡ queued c'.queue + held w c'.status + lost_push c.policy now c.queue o)
          × E.IsReady n c'.queue
    unfolding after_parse push_event
    after_parse-worth none now n c r = (omega arith, r)
    after_parse-worth (some a) now n c r =
        let t : TimedEvent A = record { event = a; enqueued_at = now } in
        let pushed = E.push t c.queue in
        let (kept, same) = after_push-held t pushed.0 (record c { queue = pushed.1 }) in
        (
          omega (arith, kept, ap queued same, push-queued n t c.queue r),
          subst (E.IsReady n) (sym same) (E.push-IsReady n t c.queue r),
        )

    pub respond-worth :
        (s : Status A) (h : Handler) (n : ℕ) (c : Connection E)
        → c.status ≡ s
        → E.IsReady (with_push parse_event s h n) c.queue
        → let c' = respond E parse_event s (completion E h) c in
          (queued c.queue + held w s + taken s h
            ≡ queued c'.queue + held w c'.status + lost s h c.policy c.queue)
          × E.IsReady n c'.queue
    unfolding respond handle_line push_again
    respond-worth reading (line_read line now) n c e r =
        let (kept, ready) = after_parse-worth (parse_event line) now n c r in
        (omega (arith, kept), ready)
    respond-worth (retrying t) retry_fired n c e r =
        let pushed = E.push t c.queue in
        let (kept, same) = after_retry-held t pushed.0 (record c { queue = pushed.1 }) in
        (
          omega (arith, kept, ap queued same, push-queued n t c.queue r),
          subst (E.IsReady n) (sym same) (E.push-IsReady n t c.queue r),
        )
    respond-worth (retrying t) retry_cancelled n c e r = (omega arith, r)
    respond-worth (retrying t) (line_read line now) n c e r = (omega (arith, ap (held w) e), r)
    respond-worth (retrying t) read_failed n c e r = (omega (arith, ap (held w) e), r)
    respond-worth reading retry_fired n c e r = (omega (arith, ap (held w) e), r)
    respond-worth reading read_failed n c e r = (omega (arith, ap (held w) e), r)
    respond-worth reading retry_cancelled n c e r = (omega (arith, ap (held w) e), r)
    respond-worth closed (line_read line now) n c e r = (omega (arith, ap (held w) e), r)
    respond-worth closed retry_fired n c e r = (omega (arith, ap (held w) e), r)
    respond-worth closed read_failed n c e r = (omega (arith, ap (held w) e), r)
    respond-worth closed retry_cancelled n c e r = (omega (arith, ap (held w) e), r)
