-- ===== src/HttpSink/Sink/Drain.antt =====
-- Shutdown of the HTTP sink: how many half rounds its threads still make, and what is left after them.
use edge_flow.Prelude.{ℕ, ◌+◌, ◌*◌, ◌≤◌, ◌<◌, ◌≡◌, ◌≢◌, refl, true, List, [], ◌∷◌, arith, length}
use edge_flow.Queue.Bounded
use edge_flow.Queue.Bounded.{BoundedQueue}
use edge_flow.HttpSink.Sink.{
  OutboundBatch, Thread, popping, holding, ended, HttpSink, Round, popped_thread, work, turn,
}
use edge_flow.HttpSink.Sink.Account.{see_through-outbound}
use edge_flow.Workers.Family.{total, total-update, total_zero}

-- The half rounds that a thread makes before its next pop, and the pop that ends its loop.
abbrev pub calls_left : Thread → ℕ
calls_left popping = 1
calls_left (holding b) = 2
calls_left ended = 0

-- Two for each batch in the queue, and those of the `n` threads.
abbrev pub left_to_do : ℕ → HttpSink → ℕ
left_to_do n s = 2 * length s.outbound.items + total calls_left n s.threads

pop-calls :
    (q : BoundedQueue OutboundBatch)
    → q.shutting_down ≡ true
    → (2 * length (Bounded.pop q).1.items + calls_left (popped_thread (Bounded.pop q).0) + 1
        ≡ 2 * length q.items + 1)
      × ((Bounded.pop q).1.shutting_down ≡ true)
unfolding Bounded.pop
pop-calls q shut = ground arith

work-calls :
    (i : ℕ) (c : Round) (t : Thread) (s : HttpSink)
    → s.outbound.shutting_down ≡ true
    → t ≢ ended
    → (2 * length (work i c t s).1.outbound.items + calls_left (work i c t s).0 + 1
        ≡ 2 * length s.outbound.items + calls_left t)
      × ((work i c t s).1.outbound.shutting_down ≡ true)
unfolding work
work-calls i c popping s shut ne = pop-calls s.outbound shut
work-calls i c (holding b) s shut ne =
    let same = see_through-outbound i c s in rw same (omega arith, shut)
work-calls i c ended s shut ne = absurd (ne refl)

-- While the queue is shut, a half round of a thread whose loop has not ended leaves one less to do.
turn-left_to_do :
    (n i : ℕ) (c : Round) (s : HttpSink)
    → i < n
    → s.outbound.shutting_down ≡ true
    → s.threads i ≢ ended
    → (left_to_do n (turn i c s) + 1 ≡ left_to_do n s)
      × ((turn i c s).outbound.shutting_down ≡ true)
unfolding turn
turn-left_to_do n i c s lt shut ne =
    let (calls, still) = work-calls i c (s.threads i) s shut ne in
    (
      omega (arith, calls, total-update calls_left n s.threads i (work i c (s.threads i) s).0 lt),
      still,
    )

unfoldable pub run_turns : HttpSink → List (ℕ × Round) → HttpSink
run_turns s [] = s
run_turns s ((i, c) ∷ ts) = run_turns (turn i c s) ts

-- Every turn is that of a thread, of `n`, whose loop has not ended by then.
unfoldable pub Runs : ℕ → HttpSink → List (ℕ × Round) → Type 0
Runs n s [] = Unit
Runs n s ((i, c) ∷ ts) = (i < n) × (s.threads i ≢ ended) × Runs n (turn i c s) ts

pub turns-left_to_do :
    (n : ℕ) (s : HttpSink) (ts : List (ℕ × Round))
    → Runs n s ts
    → s.outbound.shutting_down ≡ true
    → left_to_do n (run_turns s ts) + length ts ≡ left_to_do n s
unfolding run_turns Runs
turns-left_to_do n s [] alive shut = omega arith
turns-left_to_do n s ((i, c) ∷ ts) alive shut =
    let (one, still) = turn-left_to_do n i c s alive.0 shut alive.1 in
    omega (arith, one, turns-left_to_do n (turn i c s) ts alive.2 still)

calls_left_zero : (t : Thread) → calls_left t ≡ 0 → t ≡ ended
calls_left_zero popping e = absurd (omega arith)
calls_left_zero (holding b) e = absurd (omega arith)
calls_left_zero ended e = refl

no_items : {A : Type 0} (xs : List A) → length xs ≡ 0 → xs ≡ []
no_items [] e = refl
no_items (x ∷ xs) e = absurd (omega arith)

-- Once the outbound queue is shut, whatever the network answers, the half rounds of threads that have
-- not ended, of `n`, number `left_to_do` at most.
pub drain_bounded :
    (n : ℕ) (s : HttpSink) (ts : List (ℕ × Round))
    → Runs n s ts
    → s.outbound.shutting_down ≡ true
    → length ts ≤ left_to_do n s
drain_bounded n s ts alive shut = omega (arith, turns-left_to_do n s ts alive shut)

-- Once the outbound queue is shut, whatever the network answers: after `left_to_do` half rounds of
-- threads that have not ended, the queue is empty and the loop of each of the `n` threads has ended.
pub drain_ends :
    (n : ℕ) (s : HttpSink) (ts : List (ℕ × Round)) (i : ℕ)
    → Runs n s ts
    → s.outbound.shutting_down ≡ true
    → length ts ≡ left_to_do n s
    → i < n
    → ((run_turns s ts).outbound.items ≡ []) × ((run_turns s ts).threads i ≡ ended)
drain_ends n s ts i alive shut all lt =
    let spent = turns-left_to_do n s ts alive shut in
    (
      no_items _ (omega (arith, spent)),
      calls_left_zero _
          (total_zero calls_left n (run_turns s ts).threads i (omega (arith, spent)) lt),
    )
