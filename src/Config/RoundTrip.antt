-- ===== src/Config/RoundTrip.antt =====
-- A command line for every configuration, and what `parse_args` makes of it.
use edge_flow.Prelude.{
  ℕ, ◌-◌, ◌^◌, ◌≤◌, ◌<◌, ◌≡◌, refl, ap, List, [], ◌∷◌, ◌++◌, arith, ge→ltb, ◌==◌, false,
}
use edge_flow.Prelude.Int.{ℤ, pos, negsuc}
use edge_flow.Prelude.Except.{Text, ok}
use edge_flow.Prelude.Decimal.{to_string}
use edge_flow.Prelude.Text.{codes}
use edge_flow.Queue.Types.{BackpressurePolicy, block, drop_oldest, drop_newest}
use edge_flow.Args.{arg_value}
use edge_flow.Args.Laws.{parse_positive_size-to_string, parse_port-to_string}
use edge_flow.Config.{
  max_sink_concurrency, SinkKind, file, http, Config, defaults, milliseconds, parse_policy,
  parse_sink_kind, parse_arg, parse_all, validate, parse_args,
}
use edge_flow.Config.Bounds.{IsTyped, IsConfig}

abbrev pub policy_text : BackpressurePolicy → Text
policy_text block = codes "block"
policy_text drop_oldest = codes "drop-oldest"
policy_text drop_newest = codes "drop-newest"

abbrev pub kind_text : SinkKind → Text
kind_text file = codes "file"
kind_text http = codes "http"

-- The 64-bit word that is read as this number of milliseconds.
abbrev pub word : ℤ → ℕ
word (pos n) = n
word (negsuc n) = 2 ^ 64 - 1 - n

-- A number of milliseconds of 64 bits.
abbrev pub IsMilliseconds : ℤ → Type 0
IsMilliseconds (pos n) = n < 2 ^ 63
IsMilliseconds (negsuc n) = n < 2 ^ 63

abbrev pub print_args : Config → List Text
print_args c =
    (codes "--port=" ++ to_string c.port)
    ∷ (codes "--workers=" ++ to_string c.workers)
    ∷ (codes "--queue-capacity=" ++ to_string c.queue_capacity)
    ∷ (codes "--backpressure=" ++ policy_text c.backpressure)
    ∷ (codes "--batch-size=" ++ to_string c.batch_size)
    ∷ (codes "--batch-age-ms=" ++ to_string (word c.batch_age))
    ∷ (codes "--sink-file=" ++ c.sink_file)
    ∷ (codes "--sink=" ++ kind_text c.sink_kind)
    ∷ (codes "--sink-url=" ++ c.sink_url)
    ∷ (codes "--sink-outbound-capacity=" ++ to_string c.sink_outbound_capacity)
    ∷ (codes "--sink-concurrency=" ++ to_string c.sink_concurrency)
    ∷ (codes "--sink-backpressure=" ++ policy_text c.sink_backpressure)
    ∷ (codes "--sink-max-retries=" ++ to_string c.sink_max_retries)
    ∷ (codes "--sink-backoff-ms=" ++ to_string (word c.sink_backoff_ms))
    ∷ (codes "--sink-timeout-ms=" ++ to_string (word c.sink_timeout_ms))
    ∷ []

parse_policy-policy_text : (p : BackpressurePolicy) → parse_policy (policy_text p) ≡ ok p
unfolding parse_policy
parse_policy-policy_text block = refl
parse_policy-policy_text drop_oldest = refl
parse_policy-policy_text drop_newest = refl

parse_sink_kind-kind_text : (k : SinkKind) → parse_sink_kind (kind_text k) ≡ ok k
unfolding parse_sink_kind
parse_sink_kind-kind_text file = refl
parse_sink_kind-kind_text http = refl

milliseconds-word : (z : ℤ) → IsMilliseconds z → milliseconds (word z) ≡ z
milliseconds-word (pos n) lt = ground arith
milliseconds-word (negsuc n) lt =
    rw (ge→ltb (2 ^ 64 - 1 - n) (2 ^ 63) (omega arith)) (ap negsuc (omega arith))

word-lt : (z : ℤ) → IsMilliseconds z → word z < 2 ^ 64
word-lt (pos n) lt = omega arith
word-lt (negsuc n) lt = omega arith

-- Each flag sets its field to what was printed.
module _ (c : Config) where
  port_arg :
      (n : ℕ)
      → 1 ≤ n
      → n ≤ 65535
      → parse_arg c (codes "--port=" ++ to_string n) ≡ ok (record c { port = n })
  unfolding parse_arg arg_value
  port_arg n lo hi = rw (parse_port-to_string n lo hi) refl

  workers_arg :
      (n : ℕ)
      → n < 2 ^ 64
      → parse_arg c (codes "--workers=" ++ to_string n) ≡ ok (record c { workers = n })
  unfolding parse_arg arg_value
  workers_arg n lt = rw (parse_positive_size-to_string n (codes "--workers") lt) refl

  queue_capacity_arg :
      (n : ℕ)
      → n < 2 ^ 64
      → parse_arg c (codes "--queue-capacity=" ++ to_string n)
        ≡ ok (record c { queue_capacity = n })
  unfolding parse_arg arg_value
  queue_capacity_arg n lt = rw (parse_positive_size-to_string n (codes "--queue-capacity") lt) refl

  backpressure_arg :
      (p : BackpressurePolicy)
      → parse_arg c (codes "--backpressure=" ++ policy_text p) ≡ ok (record c { backpressure = p })
  unfolding parse_arg arg_value
  backpressure_arg p = rw (parse_policy-policy_text p) refl

  batch_size_arg :
      (n : ℕ)
      → n < 2 ^ 64
      → parse_arg c (codes "--batch-size=" ++ to_string n) ≡ ok (record c { batch_size = n })
  unfolding parse_arg arg_value
  batch_size_arg n lt = rw (parse_positive_size-to_string n (codes "--batch-size") lt) refl

  batch_age_arg :
      (z : ℤ)
      → IsMilliseconds z
      → parse_arg c (codes "--batch-age-ms=" ++ to_string (word z))
        ≡ ok (record c { batch_age = z })
  unfolding parse_arg arg_value
  batch_age_arg z h =
      rw
        (
          parse_positive_size-to_string (word z) (codes "--batch-age-ms") (word-lt z h),
          milliseconds-word z h,
        )
        refl

  sink_file_arg :
      (t : Text) → parse_arg c (codes "--sink-file=" ++ t) ≡ ok (record c { sink_file = t })
  unfolding parse_arg arg_value
  sink_file_arg t = refl

  sink_kind_arg :
      (k : SinkKind)
      → parse_arg c (codes "--sink=" ++ kind_text k) ≡ ok (record c { sink_kind = k })
  unfolding parse_arg arg_value
  sink_kind_arg k = rw (parse_sink_kind-kind_text k) refl

  sink_url_arg :
      (t : Text) → parse_arg c (codes "--sink-url=" ++ t) ≡ ok (record c { sink_url = t })
  unfolding parse_arg arg_value
  sink_url_arg t = refl

  sink_outbound_capacity_arg :
      (n : ℕ)
      → n < 2 ^ 64
      → parse_arg c (codes "--sink-outbound-capacity=" ++ to_string n)
        ≡ ok (record c { sink_outbound_capacity = n })
  unfolding parse_arg arg_value
  sink_outbound_capacity_arg n lt =
      rw (parse_positive_size-to_string n (codes "--sink-outbound-capacity") lt) refl

  sink_concurrency_arg :
      (n : ℕ)
      → n < 2 ^ 64
      → parse_arg c (codes "--sink-concurrency=" ++ to_string n)
        ≡ ok (record c { sink_concurrency = n })
  unfolding parse_arg arg_value
  sink_concurrency_arg n lt =
      rw (parse_positive_size-to_string n (codes "--sink-concurrency") lt) refl

  sink_backpressure_arg :
      (p : BackpressurePolicy)
      → parse_arg c (codes "--sink-backpressure=" ++ policy_text p)
        ≡ ok (record c { sink_backpressure = p })
  unfolding parse_arg arg_value
  sink_backpressure_arg p = rw (parse_policy-policy_text p) refl

  sink_max_retries_arg :
      (n : ℕ)
      → n < 2 ^ 64
      → parse_arg c (codes "--sink-max-retries=" ++ to_string n)
        ≡ ok (record c { sink_max_retries = n })
  unfolding parse_arg arg_value
  sink_max_retries_arg n lt =
      rw (parse_positive_size-to_string n (codes "--sink-max-retries") lt) refl

  sink_backoff_ms_arg :
      (z : ℤ)
      → IsMilliseconds z
      → parse_arg c (codes "--sink-backoff-ms=" ++ to_string (word z))
        ≡ ok (record c { sink_backoff_ms = z })
  unfolding parse_arg arg_value
  sink_backoff_ms_arg z h =
      rw
        (
          parse_positive_size-to_string (word z) (codes "--sink-backoff-ms") (word-lt z h),
          milliseconds-word z h,
        )
        refl

  sink_timeout_ms_arg :
      (z : ℤ)
      → IsMilliseconds z
      → parse_arg c (codes "--sink-timeout-ms=" ++ to_string (word z))
        ≡ ok (record c { sink_timeout_ms = z })
  unfolding parse_arg arg_value
  sink_timeout_ms_arg z h =
      rw
        (
          parse_positive_size-to_string (word z) (codes "--sink-timeout-ms") (word-lt z h),
          milliseconds-word z h,
        )
        refl

parse_all-print_args :
    (c d : Config)
    → IsTyped c
    → IsMilliseconds c.batch_age
    → IsMilliseconds c.sink_backoff_ms
    → IsMilliseconds c.sink_timeout_ms
    → parse_all d (print_args c) ≡ ok c
unfolding parse_all
parse_all-print_args c d
      (
        lo, hi, lt_workers, lt_queue_capacity, lt_batch_size, lt_sink_outbound_capacity,
        lt_sink_concurrency, lt_sink_max_retries,
      )
      ms_batch_age ms_sink_backoff_ms ms_sink_timeout_ms =
    rw
      (
        port_arg d c.port lo hi,
        workers_arg _ c.workers lt_workers,
        queue_capacity_arg _ c.queue_capacity lt_queue_capacity,
        backpressure_arg _ c.backpressure,
        batch_size_arg _ c.batch_size lt_batch_size,
        batch_age_arg _ c.batch_age ms_batch_age,
        sink_file_arg _ c.sink_file,
        sink_kind_arg _ c.sink_kind,
        sink_url_arg _ c.sink_url,
        sink_outbound_capacity_arg _ c.sink_outbound_capacity lt_sink_outbound_capacity,
        sink_concurrency_arg _ c.sink_concurrency lt_sink_concurrency,
        sink_backpressure_arg _ c.sink_backpressure,
        sink_max_retries_arg _ c.sink_max_retries lt_sink_max_retries,
        sink_backoff_ms_arg _ c.sink_backoff_ms ms_sink_backoff_ms,
        sink_timeout_ms_arg _ c.sink_timeout_ms ms_sink_timeout_ms,
      )
      refl

not_zero : (n : ℕ) → 1 ≤ n → (n == 0) ≡ false
not_zero n h = ground arith

validate-IsConfig : (c : Config) → IsConfig c → validate c ≡ ok c
unfolding validate
validate-IsConfig c h =
    rw
      (
        not_zero c.workers h.workers,
        not_zero c.queue_capacity h.queue_capacity,
        h.has_url,
        not_zero c.sink_outbound_capacity h.outbound_capacity,
        not_zero c.sink_concurrency h.concurrency_from,
        ge→ltb max_sink_concurrency c.sink_concurrency h.concurrency_to,
      )
      refl

-- Every configuration that satisfies IsConfig, with times of 64 bits, has a command line that
-- parse_args reads as that configuration, whatever the defaults are.
pub parse_args-print_args :
    (c : Config)
    → IsConfig c
    → IsMilliseconds c.batch_age
    → IsMilliseconds c.sink_backoff_ms
    → IsMilliseconds c.sink_timeout_ms
    → parse_args (print_args c) ≡ ok c
unfolding parse_args
parse_args-print_args c h age backoff timeout =
    rw (parse_all-print_args c defaults h.typed age backoff timeout) (validate-IsConfig c h)
