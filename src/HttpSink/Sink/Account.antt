-- ===== src/HttpSink/Sink/Account.antt =====
-- Each batch that the HTTP sink makes is counted once, or is still queued or in a thread's hands.
use edge_flow.Prelude.{
  ℕ, zero, suc, ◌+◌, ◌<◌, ◌≡◌, refl, List, [], ◌∷◌, arith, length, length-append, length-rest_of,
  rest_of, Bool-cases, inl, inr, leb, ◌&&◌,
}
use edge_flow.Prelude.Except.{Text}
use edge_flow.Queue.Bounded
use edge_flow.Queue.Bounded.{BoundedQueue}
use edge_flow.Queue.Bounded.Laws.{IsValid, push-IsValid, pop-IsValid, shutdown-IsValid}
use edge_flow.Stats.{
  Stats, u64, record_batch_sent, record_batch_retried, record_batch_dropped_outbound,
  record_batch_dropped_exhausted,
}
use edge_flow.Sinks.{body_from}
use edge_flow.HttpSink.Url.{Target}
use edge_flow.HttpSink.Keys.{next_idempotency_key}
use edge_flow.HttpSink.Send.{
  SendOutcome, success, retryable_failure, permanent_failure, PersistentConnection, Answers,
  send_once,
}
use edge_flow.HttpSink.Retry.{
  Sent, next_backoff, after_attempt, after_last, retry, send_with_retries,
}
use edge_flow.HttpSink.Sink.{
  OutboundBatch, Thread, popping, holding, ended, HttpSink, natural, Round, Move, consumes, turns,
  stops, count_push, enqueue, consume, popped_thread, settle, see_through, work, turn, stop, move,
  run,
}
use edge_flow.Workers.Family.{total, total-update}

-- The batches that the counters have settled.
abbrev pub settled : Stats → ℕ
settled s = s.batches_sent + s.batches_dropped_outbound + s.batches_dropped_exhausted

last-settled :
    (s : Stats) (o : SendOutcome × PersistentConnection)
    → settled (after_last s o).stats ≡ settled s
last-settled s (success, c) = refl
last-settled s (permanent_failure, c) = refl
last-settled s (retryable_failure, c) = refl

attempt-settled :
    (delay : ℕ) (rest : PersistentConnection → Stats → Sent) (s : Stats)
    (o : SendOutcome × PersistentConnection)
    → settled (rest o.1 (record_batch_retried s)).stats ≡ settled s
    → settled (after_attempt delay rest s o).stats ≡ settled s
attempt-settled delay rest s (success, c) h = refl
attempt-settled delay rest s (permanent_failure, c) h = refl
attempt-settled delay rest s (retryable_failure, c) h = h

-- Trying and retrying settles nothing by itself.
retry-settled :
    (target : Target) (answers : ℕ → Answers) (jitter : ℕ → ℕ) (left attempt backoff : ℕ)
    (c : PersistentConnection) (s : Stats)
    → settled (retry target answers jitter left attempt backoff c s).stats ≡ settled s
unfolding retry record_batch_retried
retry-settled target answers jitter zero attempt backoff c s =
    last-settled s (send_once target (answers attempt) c)
retry-settled target answers jitter (suc left) attempt backoff c s =
    let o = send_once target (answers attempt) c in
    attempt-settled (backoff + jitter attempt)
      (retry target answers jitter left (attempt + 1) (next_backoff backoff)) s o
      (retry-settled target answers jitter left (attempt + 1) (next_backoff backoff) o.1
        (record_batch_retried s))

abbrev pub in_hand : Thread → ℕ
in_hand (holding b) = 1
in_hand _ = 0

-- Settled, queued, or in the hands of one of `n` threads.
abbrev pub known : ℕ → HttpSink → ℕ
known n s = settled s.stats + length s.outbound.items + total in_hand n s.threads

-- A batch's way through the network settles it, in the width of the counters.
settle-settled :
    (r : Sent) (i : ℕ) (s : HttpSink)
    → settled r.stats ≡ settled s.stats
    → u64 (settled (settle r i s).stats) ≡ u64 (settled s.stats + 1)
unfolding settle record_batch_sent record_batch_dropped_exhausted
settle-settled r i s h = ground (arith, h)

see_through-settled :
    (i : ℕ) (c : Round) (s : HttpSink)
    → u64 (settled (see_through i c s).stats) ≡ u64 (settled s.stats + 1)
unfolding see_through record_batch_dropped_exhausted send_with_retries
see_through-settled i c s = elim (Bool-cases (s.draining && leb s.drain_deadline c.now)) [
  | inl late ↦ rw late (omega arith)
  | inr timely ↦ rw timely (
      settle-settled _ i s (
        retry-settled s.target c.answers c.jitter s.options.max_retries 0
          (natural s.options.backoff_base) (s.connections i) s.stats))
]

pub see_through-outbound :
    (i : ℕ) (c : Round) (s : HttpSink) → (see_through i c s).outbound ≡ s.outbound
unfolding see_through settle
see_through-outbound i c s = ground arith

pop-length :
    (q : BoundedQueue OutboundBatch)
    → length (Bounded.pop q).1.items + in_hand (popped_thread (Bounded.pop q).0) ≡ length q.items
unfolding Bounded.pop
pop-length q = ground arith

-- What one thread's step does to the batches, in the width of the counters.
work-known :
    (i : ℕ) (c : Round) (t : Thread) (s : HttpSink)
    → u64 (
        settled (work i c t s).1.stats
        + length (work i c t s).1.outbound.items
        + in_hand (work i c t s).0)
      ≡ u64 (settled s.stats + length s.outbound.items + in_hand t)
unfolding work
work-known i c popping s = omega (arith, pop-length s.outbound)
work-known i c (holding b) s =
    rw (see_through-outbound i c s) (omega (arith, see_through-settled i c s))
work-known i c ended s = refl

pub turn-known :
    (n i : ℕ) (c : Round) (s : HttpSink) → i < n → u64 (known n (turn i c s)) ≡ u64 (known n s)
unfolding turn
turn-known n i c s lt = omega (
  arith,
  work-known i c (s.threads i) s,
  total-update in_hand n s.threads i (work i c (s.threads i) s).0 lt,
)

-- One more batch is known after the push, whatever becomes of it.
enqueue-known :
    (n : ℕ) (b : OutboundBatch) (s : HttpSink)
    → IsValid s.outbound
    → u64 (known n (enqueue b s)) ≡ u64 (known n s + 1)
unfolding enqueue count_push Bounded.push record_batch_dropped_outbound
enqueue-known n b s v = ground (
  arith,
  length-append s.outbound.items (b ∷ []),
  length-append (rest_of s.outbound.items) (b ∷ []),
  length-rest_of s.outbound.items,
)

work-IsValid :
    (i : ℕ) (c : Round) (t : Thread) (s : HttpSink)
    → IsValid s.outbound
    → IsValid (work i c t s).1.outbound
unfolding work
work-IsValid i c popping s v = pop-IsValid s.outbound v
work-IsValid i c (holding b) s v = rw (see_through-outbound i c s) v
work-IsValid i c ended s v = v

turn-IsValid :
    (i : ℕ) (c : Round) (s : HttpSink) → IsValid s.outbound → IsValid (turn i c s).outbound
unfolding turn
turn-IsValid i c s v = work-IsValid i c (s.threads i) s v

enqueue-IsValid :
    (b : OutboundBatch) (s : HttpSink) → IsValid s.outbound → IsValid (enqueue b s).outbound
unfolding enqueue
enqueue-IsValid b s v = push-IsValid b s.outbound v

shutdown-items : (q : BoundedQueue OutboundBatch) → (Bounded.shutdown q).items ≡ q.items
unfolding Bounded.shutdown
shutdown-items q = refl

stop-known :
    (n now : ℕ) (s : HttpSink)
    → IsValid s.outbound
    → (known n (stop now s) ≡ known n s) × IsValid (stop now s).outbound
unfolding stop
stop-known n now s v = elim (Bool-cases s.stopped) [
  | inl again ↦ rw again (refl, v)
  | inr first ↦ rw first (stopped_known, shutdown-IsValid s.outbound v)
]
  where
    stopped_known :
        settled s.stats + length (Bounded.shutdown s.outbound).items + total in_hand n s.threads
        ≡ known n s
    stopped_known = rw (shutdown-items s.outbound)

-- Every turn is one of the `n` threads'.
abbrev pub IsSchedule : {A : Type 0} → ℕ → List (Move A) → Type 0
IsSchedule n [] = Unit
IsSchedule n (turns i c ∷ ms) = (i < n) × IsSchedule n ms
IsSchedule n (consumes batch ∷ ms) = IsSchedule n ms
IsSchedule n (stops now ∷ ms) = IsSchedule n ms

-- The batches that the sink is handed, the empty ones left out.
abbrev pub made : {A : Type 0} → List (Move A) → ℕ
made [] = 0
made (consumes [] ∷ ms) = made ms
made (consumes (e ∷ es) ∷ ms) = suc (made ms)
made (turns i c ∷ ms) = made ms
made (stops now ∷ ms) = made ms

module _ {A : Type 0} (serialize : A → Text) where
  -- Over any interleaving of consume(), stop() and the rounds of `n` threads, from a sink with a valid
  -- queue: the batches settled by the counters (sent, dropped at the queue, or given up), queued and in
  -- the threads' hands grow by the number of batches that are not empty which consume() was handed,
  -- modulo 2^64.
  pub known-run :
      (n : ℕ) (s : HttpSink) (ms : List (Move A))
      → IsSchedule n ms
      → IsValid s.outbound
      → u64 (known n (run serialize s ms)) ≡ u64 (known n s + made ms)
  unfolding run move consume
  known-run n s [] fair v = omega arith
  known-run n s (turns i c ∷ ms) fair v =
      omega (
        arith,
        turn-known n i c s fair.0,
        known-run n (turn i c s) ms fair.1 (turn-IsValid i c s v),
      )
  known-run n s (stops now ∷ ms) fair v =
      let (same, valid) = stop-known n now s v in
      omega (arith, same, known-run n (stop now s) ms fair valid)
  known-run n s (consumes [] ∷ ms) fair v = known-run n s ms fair v
  known-run n s (consumes (e ∷ es) ∷ ms) fair v =
      let s' = record s { keys = (next_idempotency_key s.keys).1 } in
      let b : OutboundBatch = record {
        body = body_from serialize [] (e ∷ es);
        idempotency_key = (next_idempotency_key s.keys).0;
      } in
      omega
        (arith, enqueue-known n b s' v, known-run n (enqueue b s') ms fair (enqueue-IsValid b s' v))
