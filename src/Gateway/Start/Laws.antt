-- ===== src/Gateway/Start/Laws.antt =====
-- What the start of main (gateway/src/main.cpp) makes, in the binary with the mutex queue and in the one
-- with the lock-free queue.
use edge_flow.Prelude.{
  ℕ, ◌^◌, ◌+◌, ◌≤◌, ◌<◌, ◌≡◌, ◌⊎◌, refl, false, List, [], ◌++◌, if◌then◌else◌, arith, tests,
  Bool-cases, inl, inr, ltb,
}
use edge_flow.Prelude.Except.{
  Text, runtime_error, invalid_argument, Exception, Except, ok, throw, ◌>>=◌,
}
use edge_flow.Prelude.Text.{codes}
use edge_flow.Queue.Types.{BackpressurePolicy}
use edge_flow.Queue.Bounded
use edge_flow.Queue.Bounded.{BoundedQueue}
use edge_flow.Queue.LockFree
use edge_flow.Queue.LockFree.{Ring, validated_capacity, fresh}
use edge_flow.Queue.LockFree.Capacity.{IsRingSize, accepts}
use edge_flow.Queue.LockFree.Invariant.{IsReady, view}
use edge_flow.Queue.LockFree.Refine.{make-IsReady}
use edge_flow.Stats.{no_stats}
use edge_flow.Config.{Config, is_http, parse_args}
use edge_flow.Config.Bounds.{IsConfig, parse_args-IsConfig}
use edge_flow.Sinks
use edge_flow.HttpSink.Url.{Target, parse_url}
use edge_flow.HttpSink.Send.{no_connection}
use edge_flow.HttpSink.Sink.{HttpSink, Options, built, open_http_sink, popping}
use edge_flow.Gateway.Start.{World, Sink, to_http, to_file, Parts, sink_options, open_sink, start}

abbrev pub empty_queue : {A : Type 0} → ℕ → BackpressurePolicy → BoundedQueue A
empty_queue capacity policy = record {
  items = [];
  capacity = capacity;
  policy = policy;
  shutting_down = false;
}

make_lem :
    {A : Type 0} (capacity : ℕ) (policy : BackpressurePolicy)
    → 1 ≤ capacity
    → Bounded.make {A = A} capacity policy ≡ ok (empty_queue capacity policy)
unfolding Bounded.make
make_lem capacity policy positive = ground arith

-- The HTTP sink of a configuration and a target.
abbrev http_sink_of : Config → Text → Target → HttpSink
http_sink_of c key_prefix target = record {
  options = record {
    url = c.sink_url;
    outbound_capacity = c.sink_outbound_capacity;
    concurrency = c.sink_concurrency;
    backpressure = c.sink_backpressure;
    max_retries = c.sink_max_retries;
    backoff_base = c.sink_backoff_ms;
    timeout = c.sink_timeout_ms;
  };
  target = target;
  stats = no_stats;
  outbound = record {
    items = [];
    capacity = c.sink_outbound_capacity;
    policy = c.sink_backpressure;
    shutting_down = false;
  };
  keys = record { key_prefix = key_prefix; key_counter = 0 };
  draining = false;
  drain_deadline = 0;
  stopped = false;
  threads = λ i. popping;
  connections = λ i. no_connection;
}

-- The sink of an accepted configuration, or what keeps main from having one.
abbrev pub sink_of : Config → World → Except Sink
sink_of c world =
    if is_http c.sink_kind
    then (parse_url c.sink_url >>= λ target. ok (to_http (http_sink_of c world.key_prefix target)))
    else if world.is_open
    then ok (to_file (record { written = world.existing }))
    else throw (runtime_error (codes "FileSink: could not open file: " ++ c.sink_file))

-- What main holds once it has the queue.
abbrev pub with_queue : {Q : Type 0} → Config → World → Q → Except (Parts Q)
with_queue c world queue =
    sink_of c world >>= λ sink. ok (record { config = c; queue = queue; sink = sink })

-- A target, if there is one, makes a sink.
with_target :
    (o : Options) (key_prefix : Text) (target : Except Target)
    → 1 ≤ o.outbound_capacity
    → (((target >>= λ t. Bounded.make o.outbound_capacity o.backpressure >>= λ q.
            ok (built o key_prefix no_stats t q))
          >>= λ s. ok (to_http s))
        ≡ (target >>= λ t. ok (
            to_http
              (built o key_prefix no_stats t (empty_queue o.outbound_capacity o.backpressure)))))
with_target o key_prefix (throw problem) positive = refl
with_target o key_prefix (ok t) positive =
    rw (make_lem o.outbound_capacity o.backpressure positive) refl

open_sink_lem : (c : Config) (world : World) → IsConfig c → open_sink c world ≡ sink_of c world
unfolding open_sink open_http_sink Sinks.open_sink
open_sink_lem c world h = elim (Bool-cases (is_http c.sink_kind)) [
  | inl http ↦
      rw http
        (with_target (sink_options c) world.key_prefix (parse_url c.sink_url) h.outbound_capacity)
  | inr file ↦ elim (Bool-cases world.is_open) [
    | inl opened ↦ rw (file, opened) refl
    | inr shut ↦ rw (file, shut) refl
  ]
]

-- Once the queue is made, the rest of the start is as configured.
start_made :
    {Q : Type 0} (make : ℕ → BackpressurePolicy → Except Q) (world : World) (args : List Text)
    (c : Config) (queue : Q)
    → parse_args args ≡ ok c
    → make c.queue_capacity c.backpressure ≡ ok queue
    → start make world args ≡ with_queue c world queue
unfolding start
start_made make world args c queue e made =
    rw (e, made, open_sink_lem c world ((parse_args-IsConfig args).returned c e)) refl

start_thrown :
    {Q : Type 0} (make : ℕ → BackpressurePolicy → Except Q) (world : World) (args : List Text)
    (c : Config) (x : Exception)
    → parse_args args ≡ ok c
    → make c.queue_capacity c.backpressure ≡ throw x
    → start make world args ≡ throw x
unfolding start
start_thrown make world args c x e thrown = rw (e, thrown) refl

abbrev pub too_large : Exception
too_large = invalid_argument (codes "capacity exceeds maximum of 1073741824")

refuses_large :
    {A : Type 0} (fill : A) (capacity : ℕ) (policy : BackpressurePolicy)
    → 2 ^ 30 < capacity
    → LockFree.make fill capacity policy ≡ throw too_large
unfolding LockFree.make validated_capacity
refuses_large fill capacity policy large = ground arith

accepts_small :
    {A : Type 0} (fill : A) (capacity : ℕ) (policy : BackpressurePolicy)
    → 1 ≤ capacity
    → capacity ≤ 2 ^ 30
    → (r : Ring A) × (LockFree.make fill capacity policy ≡ ok r)
unfolding LockFree.make
accepts_small fill capacity policy positive small =
    let (size, returned, _) = accepts capacity positive small in
    (fresh fill policy size, rw returned refl)

-- The start of the binary with the mutex queue, and that of the binary with the lock-free queue.
abbrev pub StartsMutex : Type 0 → World → List Text → Config → Type 0
StartsMutex A world args c =
    start {Q = BoundedQueue A} Bounded.make world args
    ≡ with_queue c world (record {
      items = [];
      capacity = c.queue_capacity;
      policy = c.backpressure;
      shutting_down = false;
    })

abbrev pub StartsLockFree : {A : Type 0} → A → World → List Text → Config → Type 0
StartsLockFree {A} fill world args c =
    ((2 ^ 30 < c.queue_capacity) × (start (LockFree.make fill) world args ≡ throw too_large))
    ⊎ ((c.queue_capacity ≤ 2 ^ 30)
        × ((r : Ring A) × IsReady (2 ^ 62) r
            × IsRingSize c.queue_capacity (r.mask + 1)
            × (view r ≡ record {
              items = [];
              capacity = r.mask + 1;
              policy = c.backpressure;
              shut = false;
            })
            × (start (LockFree.make fill) world args ≡ with_queue c world r)))

-- With arguments that parse_args accepts: the binary with the mutex queue makes an empty and open queue
-- with the capacity and the policy of the configuration. The binary with the lock-free queue throws
-- invalid_argument for a capacity above 2^30, and otherwise makes an empty and open ring with the policy
-- of the configuration and its capacity rounded up to a power of two, of two at least, that is ready for
-- 2^62 pushes. Once either has its queue, it has the sink of the configuration: a file sink, if the file
-- can be opened, or an HTTP sink with each option from its field of the configuration, an empty queue of
-- its own, and the target of the URL; and it throws for the file or the URL alone.
pub start-parse_args :
    {A : Type 0} (fill : A) (world : World) (args : List Text) {c : Config}
    → parse_args args ≡ ok c
    → StartsMutex A world args c × StartsLockFree fill world args c
start-parse_args fill world args {c} e =
    let h = (parse_args-IsConfig args).returned c e in
    (
      start_made Bounded.make world args c _ e
          (make_lem c.queue_capacity c.backpressure h.queue_capacity),
      elim (Bool-cases (ltb (2 ^ 30) c.queue_capacity)) [
        | inl large ↦ inl (
          omega tests,
          start_thrown (LockFree.make fill) world args c too_large e
              (refuses_large fill c.queue_capacity c.backpressure (omega tests)),
        )
        | inr small ↦
            let (r, made) =
              accepts_small fill c.queue_capacity c.backpressure h.queue_capacity (omega tests) in
            let (ready, sized, seen) = make-IsReady fill c.queue_capacity c.backpressure made in
            inr (
              omega tests,
              (r, ready, sized, seen, start_made (LockFree.make fill) world args c r e made),
            )
      ],
    )
