-- ===== src/HttpSink/Retry.antt =====
-- HttpSink::send_with_retries (gateway/src/http_sink.cpp). The answers of the network to each attempt
-- are a list with an entry for each, and `jitter` gives the random part of each wait, in milliseconds.
pub mod Laws
use edge_flow.Prelude.{
  ℕ, zero, suc, ◌+◌, ◌*◌, ◌/◌, Bool, true, false, List, [], ◌∷◌, min, if◌then◌else◌,
}
use edge_flow.HttpSink.Url.{Target}
use edge_flow.Stats.{Stats, record_batch_retried}
use edge_flow.HttpSink.Send.{
  SendOutcome, success, retryable_failure, permanent_failure, PersistentConnection, Answers,
  send_once,
}

-- What a call leaves: the result, the thread's connection, the counters, and the waits it made.
pub record Sent : Type 0 where
  pub delivered : Bool
  pub connection : PersistentConnection
  pub stats : Stats
  pub waits : List ℕ
  pub attempts : ℕ

-- `std::min(backoff * 2, 30'000ms)`
abbrev pub next_backoff : ℕ → ℕ
next_backoff backoff = min (backoff * 2) 30000

abbrev pub one_attempt : Bool → PersistentConnection → Stats → Sent
one_attempt delivered c s = record {
  delivered = delivered;
  connection = c;
  stats = s;
  waits = [];
  attempts = 1;
}

-- The attempt and the wait that come before the rest of the loop.
abbrev pub waited : ℕ → Sent → Sent
waited delay rest = record rest { waits = delay ∷ rest.waits; attempts = suc rest.attempts }

-- What follows an attempt that is not the last: `rest` is the loop from the next attempt on.
abbrev pub after_attempt :
    ℕ → (PersistentConnection → Stats → Sent) → Stats → SendOutcome × PersistentConnection → Sent
after_attempt delay rest s (success, c) = one_attempt true c s
after_attempt delay rest s (permanent_failure, c) = one_attempt false c s
after_attempt delay rest s (retryable_failure, c) = waited delay (rest c (record_batch_retried s))

-- The last attempt, at `attempt == max_retries`.
abbrev pub after_last : Stats → SendOutcome × PersistentConnection → Sent
after_last s (success, c) = one_attempt true c s
after_last s (_, c) = one_attempt false c s

-- The loop with `left` attempts after this one; `answers i` and `jitter i` are those of attempt `i`.
unfoldable pub retry :
    Target → (ℕ → Answers) → (ℕ → ℕ) → ℕ → ℕ → ℕ → PersistentConnection → Stats → Sent
retry target answers jitter zero attempt backoff c s =
    after_last s (send_once target (answers attempt) c)
retry target answers jitter (suc left) attempt backoff c s =
    after_attempt (backoff + jitter attempt)
      (retry target answers jitter left (attempt + 1) (next_backoff backoff)) s
      (send_once target (answers attempt) c)

unfoldable pub send_with_retries :
    Target → (ℕ → Answers) → (ℕ → ℕ) → ℕ → ℕ → PersistentConnection → Stats → Sent
send_with_retries target answers jitter max_retries backoff_base c s =
    retry target answers jitter max_retries 0 backoff_base c s
