-- ===== src/HttpSink/Retry/Laws.antt =====
-- How often a batch is tried, how long the sink waits in between, and what the result says.
use edge_flow.Prelude.{
  ℕ, zero, suc, ◌+◌, ◌/◌, ◌^◌, ◌≤◌, ◌<◌, ◌≡◌, refl, ap, ◌∙◌, Bool, true, false, List, [], ◌∷◌,
  arith, length, ◌*◌, min,
}
use mathlib.Core.Path.{subst}
use edge_flow.HttpSink.Url.{Target}
use edge_flow.Stats.{Stats, record_batch_retried, u64}
use edge_flow.HttpSink.Send.{
  SendOutcome, success, retryable_failure, permanent_failure, PersistentConnection, Answers,
  send_once,
}
use edge_flow.HttpSink.Retry.{
  Sent, next_backoff, one_attempt, waited, after_attempt, after_last, retry, send_with_retries,
}

-- Each wait is the backoff of its attempt at least, and half as much again at most; the backoff
-- doubles from one wait to the next, up to 30 seconds.
abbrev pub WaitsFrom : ℕ → List ℕ → Type 0
WaitsFrom backoff [] = Unit
WaitsFrom backoff (d ∷ ds) =
    (backoff ≤ d) × (d ≤ backoff + backoff / 2) × WaitsFrom (min (backoff * 2) 30000) ds

-- The random part is drawn from [0, backoff / 2] at each attempt.
abbrev pub InRange : (ℕ → ℕ) → ℕ → ℕ → ℕ → Type 0
InRange jitter zero attempt backoff = Unit
InRange jitter (suc left) attempt backoff =
    (jitter attempt ≤ backoff / 2) × InRange jitter left (attempt + 1) (min (backoff * 2) 30000)

-- How the last attempt decides: a success delivers the batch, a permanent failure gives it up, and
-- a retryable failure does so only when no attempt is left.
abbrev pub Verdict : SendOutcome → Bool → ℕ → ℕ → Type 0
Verdict success delivered attempts most = delivered ≡ true
Verdict permanent_failure delivered attempts most = delivered ≡ false
Verdict retryable_failure delivered attempts most = (delivered ≡ false) × (attempts ≡ most)

-- The connection after `k` attempts from number `first` on.
abbrev pub reached : Target → (ℕ → Answers) → ℕ → ℕ → PersistentConnection → PersistentConnection
reached target answers first zero c = c
reached target answers first (suc k) c =
    reached target answers (first + 1) k (send_once target (answers first) c).1

-- The `k` attempts from number `first` on are retryable failures.
abbrev pub AllRetryable : Target → (ℕ → Answers) → ℕ → ℕ → PersistentConnection → Type 0
AllRetryable target answers first zero c = Unit
AllRetryable target answers first (suc k) c =
    ((send_once target (answers first) c).0 ≡ retryable_failure)
    × AllRetryable target answers (first + 1) k (send_once target (answers first) c).1

-- What holds of a call that may make `most` attempts, the first of them number `first`, and starts
-- with the connection `c` and the counters `s`.
pub record IsBounded (target : Target) (answers : ℕ → Answers) (most first backoff : ℕ)
    (c : PersistentConnection) (s : Stats) (r : Sent) : Type 0 where
  pub tried : (1 ≤ r.attempts) × (r.attempts ≤ most)
  pub between : length r.waits + 1 ≡ r.attempts
  pub spaced : WaitsFrom backoff r.waits
  pub counted : r.stats ≡ record s { batches_retried = u64 (s.batches_retried + length r.waits) }
  pub retried : AllRetryable target answers first (length r.waits) c
  pub verdict :
      Verdict
        (send_once target
          (answers (first + length r.waits))
          (reached target answers first (length r.waits) c)).0
        r.delivered
        r.attempts
        most

-- No attempt has been counted yet.
uncounted :
    (s : Stats)
    → s.batches_retried < 2 ^ 64
    → s ≡ record s { batches_retried = u64 (s.batches_retried + 0) }
uncounted s h =
    let same : s.batches_retried ≡ u64 (s.batches_retried + 0) = omega arith in
    λ i. record s { batches_retried = same i }

counted_twice :
    (s : Stats) (n : ℕ)
    → record (record_batch_retried s) {
      batches_retried = u64 ((record_batch_retried s).batches_retried + n);
    }
      ≡ record s { batches_retried = u64 (s.batches_retried + suc n) }
unfolding record_batch_retried
counted_twice s n =
    let same : u64 (u64 (s.batches_retried + 1) + n) ≡ u64 (s.batches_retried + suc n) =
      omega arith in
    λ i. record s { batches_retried = same i }

module _ (target : Target) (answers : ℕ → Answers) where
  -- An attempt that ends the call.
  one_attempt-IsBounded :
      (most first backoff : ℕ) (s : Stats) (b : Bool) (c c' : PersistentConnection)
      → s.batches_retried < 2 ^ 64
      → 1 ≤ most
      → Verdict (send_once target (answers first) c).0 b 1 most
      → IsBounded target answers most first backoff c s (one_attempt b c' s)
  one_attempt-IsBounded most first backoff s b c c' h some_left v =
      let here : first ≡ first + 0 = omega arith in
      record {
        tried = omega arith;
        between = refl;
        spaced = tt;
        counted = uncounted s h;
        retried = tt;
        verdict = subst (λ (i : ℕ). Verdict (send_once target (answers i) c).0 b 1 most) here v;
      }

  -- A wait, and the rest of the call.
  waited-IsBounded :
      (most first backoff delay : ℕ) (c : PersistentConnection) (s : Stats) (r : Sent)
      → (send_once target (answers first) c).0 ≡ retryable_failure
      → backoff ≤ delay
      → delay ≤ backoff + backoff / 2
      → IsBounded target answers most
          (first + 1)
          (next_backoff backoff)
          (send_once target (answers first) c).1
          (record_batch_retried s)
          r
      → IsBounded target answers (suc most) first backoff c s (waited delay r)
  waited-IsBounded most first backoff delay c s r again lo hi b =
      let here : first + 1 + length r.waits ≡ first + suc (length r.waits) = omega arith in
      record {
        tried = omega (arith, b.tried.1);
        between = omega (arith, b.between);
        spaced = (lo, hi, b.spaced);
        counted = b.counted ∙ counted_twice s (length r.waits);
        retried = (again, b.retried);
        verdict = later _ (
            subst
              (λ (i : ℕ).
                Verdict
                  (send_once target (answers i) (
                    reached target answers (first + 1) (length r.waits)
                      (send_once target (answers first) c).1)).0
                  r.delivered r.attempts most)
              here b.verdict);
      }
    where
      later :
          (o : SendOutcome)
          → Verdict o r.delivered r.attempts most
          → Verdict o r.delivered (suc r.attempts) (suc most)
      later success v = v
      later permanent_failure v = v
      later retryable_failure v = (v.0, ap suc v.1)

  last-IsBounded :
      (first backoff : ℕ) (s : Stats) (c : PersistentConnection)
      (o : SendOutcome × PersistentConnection)
      → send_once target (answers first) c ≡ o
      → s.batches_retried < 2 ^ 64
      → IsBounded target answers 1 first backoff c s (after_last s o)
  last-IsBounded first backoff s c (success, c') e h =
      one_attempt-IsBounded 1 first backoff s true c c' h (omega arith) (rw e refl)
  last-IsBounded first backoff s c (permanent_failure, c') e h =
      one_attempt-IsBounded 1 first backoff s false c c' h (omega arith) (rw e refl)
  last-IsBounded first backoff s c (retryable_failure, c') e h =
      one_attempt-IsBounded 1 first backoff s false c c' h (omega arith) (rw e (refl, refl))

  attempt-IsBounded :
      (left first backoff delay : ℕ) (s : Stats) (c : PersistentConnection)
      (rest : PersistentConnection → Stats → Sent) (o : SendOutcome × PersistentConnection)
      → send_once target (answers first) c ≡ o
      → s.batches_retried < 2 ^ 64
      → backoff ≤ delay
      → delay ≤ backoff + backoff / 2
      → IsBounded target answers
          (suc left)
          (first + 1)
          (next_backoff backoff)
          o.1
          (record_batch_retried s)
          (rest o.1 (record_batch_retried s))
      → IsBounded target answers (suc (suc left)) first backoff c s (after_attempt delay rest s o)
  attempt-IsBounded left first backoff delay s c rest (success, c') e h lo hi b =
      one_attempt-IsBounded (suc (suc left)) first backoff s true c c' h (omega arith) (rw e refl)
  attempt-IsBounded left first backoff delay s c rest (permanent_failure, c') e h lo hi b =
      one_attempt-IsBounded (suc (suc left)) first backoff s false c c' h (omega arith) (rw e refl)
  attempt-IsBounded left first backoff delay s c rest (retryable_failure, c') e h lo hi b =
      waited-IsBounded (suc left) first backoff delay c s (rest c' (record_batch_retried s))
        (rw e refl) lo hi (rw e b)

  fits_again : (s : Stats) → (record_batch_retried s).batches_retried < 2 ^ 64
  unfolding record_batch_retried
  fits_again s = omega arith

  retry-IsBounded :
      (jitter : ℕ → ℕ) (left first backoff : ℕ) (c : PersistentConnection) (s : Stats)
      → InRange jitter left first backoff
      → s.batches_retried < 2 ^ 64
      → IsBounded target answers
          (suc left)
          first
          backoff
          c
          s
          (retry target answers jitter left first backoff c s)
  unfolding retry
  retry-IsBounded jitter zero first backoff c s j h =
      last-IsBounded first backoff s c (send_once target (answers first) c) refl h
  retry-IsBounded jitter (suc left) first backoff c s j h =
      attempt-IsBounded left first backoff (backoff + jitter first) s c
        (retry target answers jitter left (first + 1) (next_backoff backoff))
        (send_once target (answers first) c) refl h (omega arith) (omega (arith, j.0))
        (retry-IsBounded jitter left (first + 1) (next_backoff backoff)
          (send_once target (answers first) c).1 (record_batch_retried s) j.1 (fits_again s))

-- With the random part of each wait in its range and the counter below 2^64: a batch is tried once
-- at least and 1 + max_retries times at most, with one wait between two attempts, never below the
-- backoff of its attempt nor more than half above it, where the backoff starts at `backoff_base` and
-- doubles from one attempt to the next, up to 30 seconds; the counters change in `batches_retried` alone,
-- by the number of waits; every attempt before the last is a retryable failure; and the batch is
-- delivered if the last attempt succeeds, and given up if that is a permanent failure, or a retryable
-- one with no attempt left.
pub send_with_retries-IsBounded :
    (target : Target) (answers : ℕ → Answers) (jitter : ℕ → ℕ) (max_retries backoff_base : ℕ)
    (c : PersistentConnection) (s : Stats)
    → InRange jitter max_retries 0 backoff_base
    → s.batches_retried < 2 ^ 64
    → IsBounded target answers
        (suc max_retries)
        0
        backoff_base
        c
        s
        (send_with_retries target answers jitter max_retries backoff_base c s)
unfolding send_with_retries
send_with_retries-IsBounded target answers jitter max_retries backoff_base c s =
    retry-IsBounded target answers jitter max_retries 0 backoff_base c s
