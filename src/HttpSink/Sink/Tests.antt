-- ===== src/HttpSink/Sink/Tests.antt =====
-- The HTTP sink's threads at concrete inputs.
use native.Mathlib.Decide.{ℕ_discrete}
use edge_flow.Prelude.{ℕ, ◌+◌, ◌≤◌, ◌≡◌, refl, true, false, List, [], ◌∷◌, arith, length}
use edge_flow.Prelude.Int.{pos}
use edge_flow.Prelude.Except.{Text, ok}
use edge_flow.Prelude.Text.{codes}
use edge_flow.Queue.Types.{drop_oldest}
use edge_flow.Queue.Bounded
use edge_flow.Queue.Bounded.Laws.{IsValid}
use edge_flow.Stats.{no_stats, u64}
use edge_flow.HttpSink.Send.{no_connection}
use edge_flow.HttpSink.Sink.{Options, built, open_http_sink, move, consume, enqueue, stop}
use edge_flow.HttpSink.Sink.Account.{settled}
use edge_flow.HttpSink.Sink.{
  HttpSink, popping, ended, Round, Move, consumes, turns, stops, run, turn, work,
}
use edge_flow.HttpSink.Sink.Account.{known, known-run}
use edge_flow.HttpSink.Sink.Shutdown.{settled-drain}
use edge_flow.HttpSink.Url.{Target, parse_url}
use edge_flow.HttpSink.Sink.Drain.{Runs, run_turns, left_to_do, drain_bounded, drain_ends}

abbrev small_options : Options
small_options = record {
  url = codes "http://backend/ingest";
  outbound_capacity = 1;
  concurrency = 2;
  backpressure = drop_oldest;
  max_retries = 0;
  backoff_base = pos 100;
  timeout = pos 5000;
}

abbrev backend : Target
backend = record {
  host = codes "backend";
  port = codes "80";
  path = codes "/ingest";
  use_tls = false;
}

-- A sink with a queue of one place, whose threads wait in pop().
abbrev new_sink : HttpSink
new_sink = record {
  options = small_options;
  target = backend;
  stats = no_stats;
  outbound = record { items = []; capacity = 1; policy = drop_oldest; shutting_down = false };
  keys = record { key_prefix = codes "00ff00ff00ff00ff"; key_counter = 0 };
  draining = false;
  drain_deadline = 0;
  stopped = false;
  threads = λ i. popping;
  connections = λ i. no_connection;
}

abbrev refusing : ℕ → Round
refusing now = record {
  now = now;
  answers = λ i. record {
    resolve_error = true;
    trust_error = false;
    server_name_set = true;
    connect_error = false;
    handshake_error = false;
    exchange_error = false;
    keep_alive = true;
    status = 200;
  };
  jitter = λ i. 0;
}

-- Two batches for one place, an empty one, and a thread that finds no backend.
abbrev schedule : List (Move Text)
schedule =
    consumes (codes "a" ∷ [])
    ∷ consumes (codes "b" ∷ [])
    ∷ turns 0 (refusing 1)
    ∷ consumes []
    ∷ turns 0 (refusing 2)
    ∷ stops 3
    ∷ turns 1 (refusing 4)
    ∷ []

new_sink-IsValid : IsValid new_sink.outbound
new_sink-IsValid = omega arith

known-run_example : u64 (known 2 (run (λ t. t) new_sink schedule)) ≡ u64 (known 2 new_sink + 2)
known-run_example = known-run (λ t. t) 2 new_sink schedule (omega arith) new_sink-IsValid

-- A sink that was stopped at 3 with one batch queued: thread 0 takes it past the deadline.
abbrev stopping : HttpSink
stopping = record new_sink {
  outbound = record {
    items = record { body = codes "b"; idempotency_key = codes "00ff00ff00ff00ff-1" } ∷ [];
    capacity = 1;
    policy = drop_oldest;
    shutting_down = true;
  };
  draining = true;
  drain_deadline = 5000000003;
  stopped = true;
}

abbrev late_turns : List (ℕ × Round)
late_turns =
    (0, refusing 6000000000)
    ∷ (1, refusing 6000000000)
    ∷ (0, refusing 6000000000)
    ∷ (0, refusing 6000000000)
    ∷ []

late_turns-Runs : Runs 2 stopping late_turns
unfolding Runs turn work Bounded.pop
late_turns-Runs = ground arith

late_turns_bounded : length late_turns ≤ left_to_do 2 stopping
late_turns_bounded = drain_bounded 2 stopping late_turns late_turns-Runs refl

drain_ends_example :
    ((run_turns stopping late_turns).outbound.items ≡ [])
    × ((run_turns stopping late_turns).threads 1 ≡ ended)
drain_ends_example = drain_ends 2 stopping late_turns 1 late_turns-Runs refl refl (omega arith)

abbrev opened : HttpSink
opened =
    built small_options (codes "00ff00ff00ff00ff") no_stats backend
      (record { items = []; capacity = 1; policy = drop_oldest; shutting_down = false })

opened-returned : open_http_sink small_options (codes "00ff00ff00ff00ff") no_stats ≡ ok opened
unfolding open_http_sink parse_url Bounded.make
opened-returned = refl

-- Two batches for one place, and a stop while thread 0 holds the second one.
abbrev busy_stop : List (Move Text)
busy_stop =
    consumes (codes "a" ∷ []) ∷ consumes (codes "b" ∷ []) ∷ turns 0 (refusing 1) ∷ stops 3 ∷ []

abbrev last_turns : List (ℕ × Round)
last_turns = (0, refusing 4) ∷ (1, refusing 5) ∷ (0, refusing 6) ∷ []

busy_stop-shuts : (run (λ (t : Text). t) opened busy_stop).outbound.shutting_down ≡ true
unfolding run move consume enqueue turn work stop Bounded.push Bounded.pop Bounded.shutdown
busy_stop-shuts = refl

last_turns-Runs : Runs 2 (run (λ (t : Text). t) opened busy_stop) last_turns
unfolding Runs run move consume enqueue turn work stop Bounded.push Bounded.pop Bounded.shutdown
last_turns-Runs = ground arith

busy_stop-left_to_do : length last_turns ≡ left_to_do 2 (run (λ (t : Text). t) opened busy_stop)
unfolding run move consume enqueue turn work stop Bounded.push Bounded.pop Bounded.shutdown
    ℕ_discrete
busy_stop-left_to_do = refl

settled-drain_example :
    u64 (settled (run_turns (run (λ (t : Text). t) opened busy_stop) last_turns).stats)
    ≡ u64 (settled no_stats + 2)
settled-drain_example =
    settled-drain (λ (t : Text). t) 2 small_options (codes "00ff00ff00ff00ff") no_stats busy_stop
      last_turns opened-returned (omega arith) busy_stop-shuts last_turns-Runs busy_stop-left_to_do
