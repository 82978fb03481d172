-- ===== src/Config.antt =====
-- The gateway's command line: gateway/src/config.cpp and gateway/include/edgeflow/gateway/config.hpp.
pub mod Bounds
pub mod RoundTrip
mod Tests
use edge_flow.Prelude.{
  ℕ, ◌-◌, ◌^◌, Bool, true, false, ◌&&◌, List, [], ◌∷◌, ◌++◌, ltb, ◌==◌, if◌then◌else◌,
}
use edge_flow.Prelude.Int.{ℤ, pos, negsuc}
use edge_flow.Prelude.Except.{Text, Except, ok, throw, ◌>>=◌, invalid_argument}
use edge_flow.Prelude.Text.{codes, starts_with, text_eq, is_empty}
use edge_flow.Queue.Types.{BackpressurePolicy, block, drop_oldest, drop_newest}
use edge_flow.Args.{arg_value, size_of, parse_port}

pub data SinkKind : Type 0 where
  file : SinkKind
  http : SinkKind

abbrev pub is_http : SinkKind → Bool
is_http file = false
is_http http = true

-- kMaxSinkConcurrency
abbrev pub max_sink_concurrency : ℕ
max_sink_concurrency = 1024

-- std::chrono::milliseconds counts in signed 64 bits: a word of 2^63 and more is read as negative.
abbrev pub milliseconds : ℕ → ℤ
milliseconds n = if ltb n (2 ^ 63) then pos n else negsuc (2 ^ 64 - 1 - n)

pub record Config : Type 0 where
  pub port : ℕ
  pub workers : ℕ
  pub queue_capacity : ℕ
  pub backpressure : BackpressurePolicy
  pub batch_size : ℕ
  pub batch_age : ℤ
  pub sink_file : Text
  pub sink_kind : SinkKind
  pub sink_url : Text
  pub sink_outbound_capacity : ℕ
  pub sink_concurrency : ℕ
  pub sink_backpressure : BackpressurePolicy
  pub sink_max_retries : ℕ
  pub sink_backoff_ms : ℤ
  pub sink_timeout_ms : ℤ

abbrev pub defaults : Config
defaults = record {
  port = 9000;
  workers = 4;
  queue_capacity = 1024;
  backpressure = block;
  batch_size = 100;
  batch_age = pos 200;
  sink_file = codes "edgeflow_events.ndjson";
  sink_kind = file;
  sink_url = [];
  sink_outbound_capacity = 256;
  sink_concurrency = 4;
  sink_backpressure = drop_oldest;
  sink_max_retries = 3;
  sink_backoff_ms = pos 100;
  sink_timeout_ms = pos 5000;
}

unfoldable pub parse_policy : Text → Except BackpressurePolicy
parse_policy value =
    if text_eq value (codes "block")
    then ok block
    else if text_eq value (codes "drop-oldest")
    then ok drop_oldest
    else if text_eq value (codes "drop-newest")
    then ok drop_newest
    else throw (invalid_argument (codes "unknown --backpressure value: " ++ value))

unfoldable pub parse_sink_kind : Text → Except SinkKind
parse_sink_kind value =
    if text_eq value (codes "file")
    then ok file
    else if text_eq value (codes "http")
    then ok http
    else throw (invalid_argument (codes "--sink must be file or http, got: " ++ value))

-- One argument of the loop of `parse_args`.
unfoldable pub parse_arg : Config → Text → Except Config
parse_arg c arg =
    if starts_with arg (codes "--port=")
    then arg_value arg >>= parse_port >>= (λ n. ok (record c { port = n }))
    else if starts_with arg (codes "--workers=")
    then size_of (codes "--workers") arg >>= (λ n. ok (record c { workers = n }))
    else if starts_with arg (codes "--queue-capacity=")
    then size_of (codes "--queue-capacity") arg >>= (λ n. ok (record c { queue_capacity = n }))
    else if starts_with arg (codes "--backpressure=")
    then arg_value arg >>= parse_policy >>= (λ p. ok (record c { backpressure = p }))
    else if starts_with arg (codes "--batch-size=")
    then size_of (codes "--batch-size") arg >>= (λ n. ok (record c { batch_size = n }))
    else if starts_with arg (codes "--batch-age-ms=")
    then size_of (codes "--batch-age-ms") arg
      >>= (λ n. ok (record c { batch_age = milliseconds n }))
    else if starts_with arg (codes "--sink-file=")
    then arg_value arg >>= (λ t. ok (record c { sink_file = t }))
    else if starts_with arg (codes "--sink=")
    then arg_value arg >>= parse_sink_kind >>= (λ k. ok (record c { sink_kind = k }))
    else if starts_with arg (codes "--sink-url=")
    then arg_value arg >>= (λ t. ok (record c { sink_url = t }))
    else if starts_with arg (codes "--sink-outbound-capacity=")
    then size_of (codes "--sink-outbound-capacity") arg
      >>= (λ n. ok (record c { sink_outbound_capacity = n }))
    else if starts_with arg (codes "--sink-concurrency=")
    then size_of (codes "--sink-concurrency") arg >>= (λ n. ok (record c { sink_concurrency = n }))
    else if starts_with arg (codes "--sink-backpressure=")
    then arg_value arg >>= parse_policy >>= (λ p. ok (record c { sink_backpressure = p }))
    else if starts_with arg (codes "--sink-max-retries=")
    then size_of (codes "--sink-max-retries") arg >>= (λ n. ok (record c { sink_max_retries = n }))
    else if starts_with arg (codes "--sink-backoff-ms=")
    then size_of (codes "--sink-backoff-ms") arg
      >>= (λ n. ok (record c { sink_backoff_ms = milliseconds n }))
    else if starts_with arg (codes "--sink-timeout-ms=")
    then size_of (codes "--sink-timeout-ms") arg
      >>= (λ n. ok (record c { sink_timeout_ms = milliseconds n }))
    else throw (invalid_argument (codes "unknown argument: " ++ arg))

unfoldable pub parse_all : Config → List Text → Except Config
parse_all c [] = ok c
parse_all c (arg ∷ args) = parse_arg c arg >>= λ c'. parse_all c' args

-- What `parse_args` checks behind the loop.
unfoldable pub validate : Config → Except Config
validate c =
    if c.workers == 0
    then throw (invalid_argument (codes "--workers must be at least 1"))
    else if c.queue_capacity == 0
    then throw (invalid_argument (codes "--queue-capacity must be at least 1"))
    else if is_http c.sink_kind && is_empty c.sink_url
    then throw (invalid_argument (codes "--sink=http requires --sink-url"))
    else if c.sink_outbound_capacity == 0
    then throw (invalid_argument (codes "--sink-outbound-capacity must be at least 1"))
    else if c.sink_concurrency == 0
    then throw (invalid_argument (codes "--sink-concurrency must be at least 1"))
    else if ltb max_sink_concurrency c.sink_concurrency
    then throw (invalid_argument (codes "--sink-concurrency must be at most 1024"))
    else ok c

-- The arguments behind the program's name.
unfoldable pub parse_args : List Text → Except Config
parse_args args = parse_all defaults args >>= validate
