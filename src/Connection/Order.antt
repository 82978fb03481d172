-- ===== src/Connection/Order.antt =====
-- Under Block a connection lets every event in, in the order of its lines and with the time of its
-- first push.
use edge_flow.Prelude.{
  ℕ, ◌≡◌, refl, sym, ◌∙◌, ap, false, List, [], ◌∷◌, ◌++◌, append-nil, append_assoc, Option, none,
  some, arith,
}
use edge_flow.Prelude.Except.{Text}
use edge_flow.Queue.Types.{block, PushResult, accepted, dropped_oldest, rejected_backpressure}
use edge_flow.Queue.Contract.{EventQueue}
use edge_flow.Queue.Contract.History.{let_in}
use edge_flow.Workers.{TimedEvent}
use edge_flow.Connection.{
  Status, reading, retrying, closed, Completion, reads, fires, read_fails, timer_fails, meanwhile,
  Connection, after_push, push_event, after_retry, push_again, after_parse, handle_line, respond,
  run,
}
use edge_flow.Connection.Account.{waiting, cancels, IsTimely, taken, lines}

module _ {A : Type 0} (E : EventQueue (TimedEvent A)) where
  after_push-waiting :
      (timed : TimedEvent A) (result : PushResult) (c : Connection E)
      → c.policy ≡ block
      → (timed ∷ [] ≡ let_in timed result ++ waiting (after_push E timed result c).status)
        × ((after_push E timed result c).policy ≡ block)
  unfolding after_push
  after_push-waiting timed accepted c b = (refl, b)
  after_push-waiting timed dropped_oldest c b = (refl, b)
  after_push-waiting timed rejected_backpressure c b = (rw b refl, ground arith)

  after_retry-waiting :
      (timed : TimedEvent A) (result : PushResult) (c : Connection E)
      → c.policy ≡ block
      → (timed ∷ [] ≡ let_in timed result ++ waiting (after_retry E timed result c).status)
        × ((after_retry E timed result c).policy ≡ block)
  unfolding after_retry
  after_retry-waiting timed accepted c b = (refl, b)
  after_retry-waiting timed dropped_oldest c b = (refl, b)
  after_retry-waiting timed rejected_backpressure c b = (refl, b)

  module _ (parse_event : Text → Option A) where
    -- The events of some lines, with the times at which the lines were read.
    abbrev pub stamp : Option A → ℕ → List (TimedEvent A)
    stamp none now = []
    stamp (some event) now = record { event = event; enqueued_at = now } ∷ []

    abbrev pub stamped : List (Text × ℕ) → List (TimedEvent A)
    stamped [] = []
    stamped ((line, now) ∷ rest) = stamp (parse_event line) now ++ stamped rest

    stamped-append : (xs ys : List (Text × ℕ)) → stamped (xs ++ ys) ≡ stamped xs ++ stamped ys
    stamped-append [] ys = refl
    stamped-append ((line, now) ∷ xs) ys =
        rw (stamped-append xs ys)
          (sym (append_assoc (stamp (parse_event line) now) (stamped xs) (stamped ys)))

    -- What a completion lets into the queue.
    abbrev pub enters : TimedEvent A → Connection E → List (TimedEvent A)
    enters timed c = let_in timed (E.push timed c.queue).0

    abbrev pub parsed_enters : Option A → ℕ → Connection E → List (TimedEvent A)
    parsed_enters none now c = []
    parsed_enters (some event) now c = enters (record { event = event; enqueued_at = now }) c

    abbrev pub entering : Status A → Completion E → Connection E → List (TimedEvent A)
    entering reading (reads line now) c = parsed_enters (parse_event line) now c
    entering (retrying timed) fires c = enters timed c
    entering _ _ c = []

    unfoldable pub entered : Connection E → List (Completion E) → List (TimedEvent A)
    entered c [] = []
    entered c (m ∷ ms) = entering c.status m c ++ entered (respond E parse_event c.status m c) ms

    after_parse-waiting :
        (parsed : Option A) (now : ℕ) (c : Connection E)
        → c.policy ≡ block
        → (stamp parsed now
            ≡ parsed_enters parsed now c ++ waiting (after_parse E parse_event parsed now c).status)
          × ((after_parse E parse_event parsed now c).policy ≡ block)
    unfolding after_parse push_event
    after_parse-waiting none now c b = (refl, b)
    after_parse-waiting (some event) now c b =
        let timed : TimedEvent A = record { event = event; enqueued_at = now } in
        after_push-waiting timed (E.push timed c.queue).0
          (record c { queue = (E.push timed c.queue).1 }) b

    respond-waiting :
        (s : Status A) (m : Completion E) (c : Connection E)
        → c.status ≡ s
        → c.policy ≡ block
        → cancels E m ≡ false
        → (waiting s ++ stamped (taken E s m)
            ≡ entering s m c ++ waiting (respond E parse_event s m c).status)
          × ((respond E parse_event s m c).policy ≡ block)
    unfolding respond handle_line push_again
    respond-waiting reading (meanwhile q) c e b h = (ap waiting (sym e), b)
    respond-waiting (retrying timed) (meanwhile q) c e b h = (ap waiting (sym e), b)
    respond-waiting closed (meanwhile q) c e b h = (ap waiting (sym e), b)
    respond-waiting reading (reads line now) c e b h =
        let (same, kept) = after_parse-waiting (parse_event line) now c b in
        (append-nil (stamp (parse_event line) now) ∙ same, kept)
    respond-waiting reading read_fails c e b h = (refl, b)
    respond-waiting reading fires c e b h = (ap waiting (sym e), b)
    respond-waiting (retrying timed) fires c e b h =
        after_retry-waiting timed (E.push timed c.queue).0
          (record c { queue = (E.push timed c.queue).1 }) b
    respond-waiting (retrying timed) read_fails c e b h = (ap waiting (sym e), b)
    respond-waiting (retrying timed) (reads line now) c e b h = (ap waiting (sym e), b)
    respond-waiting closed (reads line now) c e b h = (ap waiting (sym e), b)
    respond-waiting closed fires c e b h = (ap waiting (sym e), b)
    respond-waiting closed read_fails c e b h = (ap waiting (sym e), b)
    respond-waiting s timer_fails c e b h = cc

    -- Under Block, whatever the queue does and the others do to it, as long as the timer is not
    -- cancelled: the event that waits for the timer, followed by the events of the lines read, is what
    -- the connection lets in, followed by the event that waits at the end. So none is lost, repeated or
    -- overtaken, and each keeps the time at which its line was read.
    pub block_keeps_order :
        (c : Connection E) (ms : List (Completion E))
        → c.policy ≡ block
        → IsTimely E ms
        → waiting c.status ++ stamped (lines E parse_event c ms)
          ≡ entered c ms ++ waiting (run E parse_event c ms).status
    unfolding run entered lines
    block_keeps_order c [] b h = append-nil (waiting c.status)
    block_keeps_order c (m ∷ ms) b h =
        let (same, kept) = respond-waiting c.status m c refl b h.0 in
        simp
          (
            stamped-append (taken E c.status m)
                (lines E parse_event (respond E parse_event c.status m c) ms),
            ← append_assoc,
            same,
          )
          (simp append_assoc
            (rw (block_keeps_order (respond E parse_event c.status m c) ms kept h.1)))
