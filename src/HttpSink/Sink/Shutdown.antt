-- ===== src/HttpSink/Sink/Shutdown.antt =====
-- The HTTP sink from its constructor to the end of its drain.
use edge_flow.Prelude.{ℕ, zero, suc, ◌+◌, ◌≤◌, ◌≡◌, refl, ap, List, [], ◌∷◌, arith, length, true}
use edge_flow.Prelude.Except.{Text, ok, >>=-eq-ok}
use edge_flow.Queue.Bounded
use edge_flow.Queue.Bounded.{BoundedQueue}
use edge_flow.Queue.Bounded.Laws.{IsValid, make-IsValid}
use edge_flow.Stats.{Stats, u64}
use edge_flow.HttpSink.Url.{Target, parse_url}
use mathlib.Core.Path.{subst}
use edge_flow.Queue.Contract.{View}
use edge_flow.HttpSink.Sink.{
  OutboundBatch, Thread, popping, holding, ended, HttpSink, Options, built, open_http_sink, Round,
  Move, turn, run,
}
use edge_flow.HttpSink.Sink.Account.{
  settled, in_hand, known, turn-known, IsSchedule, made, known-run,
}
use edge_flow.HttpSink.Sink.Drain.{calls_left, left_to_do, run_turns, Runs, turns-left_to_do}
use edge_flow.Workers.Family.{total}

run_turns-known :
    (n : ℕ) (s : HttpSink) (ts : List (ℕ × Round))
    → Runs n s ts
    → u64 (known n (run_turns s ts)) ≡ u64 (known n s)
unfolding run_turns Runs
run_turns-known n s [] alive = refl
run_turns-known n s ((i, c) ∷ ts) alive =
    omega (arith, turn-known n i c s alive.0, run_turns-known n (turn i c s) ts alive.2)

-- A thread that holds a batch has calls left.
in_hand-calls_left : (t : Thread) → in_hand t ≤ calls_left t
in_hand-calls_left popping = omega arith
in_hand-calls_left (holding b) = omega arith
in_hand-calls_left ended = omega arith

total-in_hand :
    (n : ℕ) (threads : ℕ → Thread) → total in_hand n threads ≤ total calls_left n threads
total-in_hand zero threads = omega arith
total-in_hand (suc n) threads =
    omega (arith, in_hand-calls_left (threads n), total-in_hand n threads)

idle : (n : ℕ) → total in_hand n (λ i. popping) ≡ 0
idle zero = refl
idle (suc n) = omega (arith, idle n)

built-known :
    (n : ℕ) (o : Options) (key_prefix : Text) (stats : Stats) (t : Target)
    (q : BoundedQueue OutboundBatch)
    → q.items ≡ []
    → known n (built o key_prefix stats t q) ≡ settled stats
built-known n o key_prefix stats t q e = omega (arith, ap length e, idle n)

-- A sink that was opened knows of no batch but those that the counters came with, and its queue is
-- valid.
open_http_sink-known :
    (n : ℕ) (o : Options) (key_prefix : Text) (stats : Stats) {s : HttpSink}
    → open_http_sink o key_prefix stats ≡ ok s
    → (known n s ≡ settled stats) × IsValid s.outbound
unfolding open_http_sink
open_http_sink-known n o key_prefix stats {s} e =
    let (target, parsed, rest) = >>=-eq-ok (parse_url o.url) _ e in
    let (q, opened, returned) =
      >>=-eq-ok (Bounded.make o.outbound_capacity o.backpressure) _ rest in
    let (valid, seen) = make-IsValid o.outbound_capacity o.backpressure opened in
    let same : built o key_prefix stats target q ≡ s = cc returned in
    subst (λ (x : HttpSink). (known n x ≡ settled stats) × IsValid x.outbound) same
      (
        built-known n o key_prefix stats target q (ap (λ (v : View OutboundBatch). v.items) seen),
        valid,
      )

-- From a sink that was opened with the counters `stats`: after any interleaving of consume(), stop()
-- and the rounds of `n` threads, once the queue is shut and the half rounds that are left have been
-- made, whatever the network answered, the batches that the counters have settled (sent, dropped at the
-- queue, or given up) are those that `stats` had settled and those that consume() was handed and were
-- not empty, modulo 2^64.
pub settled-drain :
    {A : Type 0} (serialize : A → Text) (n : ℕ) (o : Options) (key_prefix : Text) (stats : Stats)
    {s : HttpSink} (ms : List (Move A)) (ts : List (ℕ × Round))
    → open_http_sink o key_prefix stats ≡ ok s
    → IsSchedule n ms
    → (run serialize s ms).outbound.shutting_down ≡ true
    → Runs n (run serialize s ms) ts
    → length ts ≡ left_to_do n (run serialize s ms)
    → u64 (settled (run_turns (run serialize s ms) ts).stats) ≡ u64 (settled stats + made ms)
settled-drain serialize n o key_prefix stats {s} ms ts e fair shut alive all =
    let (fresh, valid) = open_http_sink-known n o key_prefix stats e in
    let after = run serialize s ms in
    omega (
      arith,
      fresh,
      known-run serialize n s ms fair valid,
      run_turns-known n after ts alive,
      turns-left_to_do n after ts alive shut,
      total-in_hand n (run_turns after ts).threads,
    )
