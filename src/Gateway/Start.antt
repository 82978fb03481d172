-- ===== src/Gateway/Start.antt =====
-- The start of main in gateway/src/main.cpp: the configuration, the queue and the sink, or the exception
-- that main reports before it returns 1. The constructor of the queue is an argument, since the binaries
-- differ in it: Bounded.make, or LockFree.make. The random prefix of the keys and the answer of the
-- operating system on the file are arguments too.
pub mod Laws
use edge_flow.Prelude.{
  ℕ, ◌^◌, ◌+◌, ◌≤◌, ◌<◌, ◌≡◌, ◌⊎◌, refl, Bool, true, false, List, [], ◌++◌, if◌then◌else◌, arith,
  tests, Bool-cases, inl, inr, ltb,
}
use edge_flow.Prelude.Except.{
  Text, runtime_error, invalid_argument, Exception, Except, ok, throw, ◌>>=◌,
}
use edge_flow.Prelude.Text.{codes}
use edge_flow.Queue.Types.{BackpressurePolicy}
use edge_flow.Queue.Bounded
use edge_flow.Queue.Bounded.{BoundedQueue}
use edge_flow.Queue.LockFree
use edge_flow.Queue.LockFree.{Ring, validated_capacity, fresh}
use edge_flow.Queue.LockFree.Capacity.{IsRingSize, accepts}
use edge_flow.Queue.LockFree.Invariant.{IsReady, view}
use edge_flow.Queue.LockFree.Refine.{make-IsReady}
use edge_flow.Stats.{no_stats}
use edge_flow.Config.{Config, is_http, parse_args}
use edge_flow.Config.Bounds.{IsConfig, parse_args-IsConfig}
use edge_flow.Sinks
use edge_flow.Sinks.{FileSink}
use edge_flow.HttpSink.Url.{Target, parse_url}
use edge_flow.HttpSink.Send.{no_connection}
use edge_flow.HttpSink.Sink.{HttpSink, Options, built, open_http_sink, popping}

-- What main cannot choose.
pub record World : Type 0 where
  pub key_prefix : Text
  pub is_open : Bool  -- whether the file could be opened
  pub existing : Text  -- what it held

pub data Sink : Type 0 where
  to_http : HttpSink → Sink
  to_file : FileSink → Sink

pub record Parts (Q : Type 0) : Type 0 where
  pub config : Config
  pub queue : Q
  pub sink : Sink

abbrev pub sink_options : Config → Options
sink_options c = record {
  url = c.sink_url;
  outbound_capacity = c.sink_outbound_capacity;
  concurrency = c.sink_concurrency;
  backpressure = c.sink_backpressure;
  max_retries = c.sink_max_retries;
  backoff_base = c.sink_backoff_ms;
  timeout = c.sink_timeout_ms;
}

abbrev make_http : Config → World → Except Sink
make_http c world =
    open_http_sink (sink_options c) world.key_prefix no_stats >>= λ s. ok (to_http s)

unfoldable pub open_sink : Config → World → Except Sink
open_sink c world =
    if is_http c.sink_kind
    then make_http c world
    else Sinks.open_sink world.is_open c.sink_file world.existing >>= λ s. ok (to_file s)

unfoldable pub start :
    {Q : Type 0} → (ℕ → BackpressurePolicy → Except Q) → World → List Text → Except (Parts Q)
start make world args = parse_args args >>= λ c. make c.queue_capacity c.backpressure >>= λ queue.
    open_sink c world >>= λ sink. ok (record { config = c; queue = queue; sink = sink })

-- What main returns, as far as its start goes.
abbrev pub exit_code : {A : Type 0} → Except A → ℕ
exit_code (ok parts) = 0
exit_code (throw problem) = 1
