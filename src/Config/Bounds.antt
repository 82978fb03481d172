-- ===== src/Config/Bounds.antt =====
-- What holds of every configuration that `parse_args` returns, and what it throws.
use edge_flow.Prelude.{◌^◌, ◌≤◌, ◌<◌, ◌≡◌, false, ◌&&◌, List, [], ◌∷◌, arith, ltb, ◌==◌}
use edge_flow.Prelude.Except.{Text}
use edge_flow.Prelude.Text.{codes, is_empty, starts_with}
use edge_flow.Prelude.Ends.{Ends, ok-Ends, throw-Ends, if-Ends, guard-Ends, then-Ends}
use edge_flow.Args.Laws.{parse_port-Ends}
use edge_flow.Args.Flags.{size_flag, text_flag, value_flag}
use edge_flow.Config.{
  milliseconds, Config, defaults, is_http, max_sink_concurrency, parse_policy, parse_sink_kind,
  parse_arg, parse_all, validate, parse_args,
}

-- The numbers fit the types of the fields, and the port is not 0.
abbrev pub IsTyped : Config → Type 0
IsTyped c =
    (1 ≤ c.port)
    × (c.port ≤ 65535)
    × (c.workers < 2 ^ 64)
    × (c.queue_capacity < 2 ^ 64)
    × (c.batch_size < 2 ^ 64)
    × (c.sink_outbound_capacity < 2 ^ 64)
    × (c.sink_concurrency < 2 ^ 64)
    × (c.sink_max_retries < 2 ^ 64)

IsAny {ℓ} : {A : Type ℓ} → A → Type 0
IsAny a = Unit

parse_policy-Ends : (value : Text) → Ends IsAny (parse_policy value)
unfolding parse_policy IsAny
parse_policy-Ends value = search (if-Ends, ok-Ends, throw-Ends)

parse_sink_kind-Ends : (value : Text) → Ends IsAny (parse_sink_kind value)
unfolding parse_sink_kind IsAny
parse_sink_kind-Ends value = search (if-Ends, ok-Ends, throw-Ends)

parse_arg-Ends : (c : Config) (arg : Text) → IsTyped c → Ends IsTyped (parse_arg c arg)
unfolding parse_arg
parse_arg-Ends c arg h =
    if-Ends (starts_with arg (codes "--port="))
      (value_flag arg (λ n. record c { port = n }) parse_port-Ends (λ n r. omega arith))
      (if-Ends (starts_with arg (codes "--workers="))
        (size_flag arg (codes "--workers") (λ n. record c { workers = n }) (λ n lt. omega arith))
        (if-Ends (starts_with arg (codes "--queue-capacity="))
          (size_flag arg (codes "--queue-capacity") (λ n. record c { queue_capacity = n })
            (λ n lt. omega arith))
          (if-Ends (starts_with arg (codes "--backpressure="))
            (value_flag arg (λ p. record c { backpressure = p }) parse_policy-Ends (λ p _. h))
            (if-Ends (starts_with arg (codes "--batch-size="))
              (size_flag arg (codes "--batch-size") (λ n. record c { batch_size = n })
                (λ n lt. omega arith))
              (if-Ends (starts_with arg (codes "--batch-age-ms="))
                (size_flag arg (codes "--batch-age-ms")
                  (λ n. record c { batch_age = milliseconds n }) (λ n lt. omega arith))
                (if-Ends (starts_with arg (codes "--sink-file="))
                  (text_flag arg (λ t. record c { sink_file = t }) (λ t. h))
                  (if-Ends (starts_with arg (codes "--sink="))
                    (value_flag arg (λ k. record c { sink_kind = k }) parse_sink_kind-Ends
                      (λ k _. h))
                    (if-Ends (starts_with arg (codes "--sink-url="))
                      (text_flag arg (λ t. record c { sink_url = t }) (λ t. h))
                      (if-Ends (starts_with arg (codes "--sink-outbound-capacity="))
                        (size_flag arg (codes "--sink-outbound-capacity")
                          (λ n. record c { sink_outbound_capacity = n }) (λ n lt. omega arith))
                        (if-Ends (starts_with arg (codes "--sink-concurrency="))
                          (size_flag arg (codes "--sink-concurrency")
                            (λ n. record c { sink_concurrency = n }) (λ n lt. omega arith))
                          (if-Ends (starts_with arg (codes "--sink-backpressure="))
                            (value_flag arg (λ p. record c { sink_backpressure = p })
                              parse_policy-Ends (λ p _. h))
                            (if-Ends (starts_with arg (codes "--sink-max-retries="))
                              (size_flag arg (codes "--sink-max-retries")
                                (λ n. record c { sink_max_retries = n }) (λ n lt. omega arith))
                              (if-Ends (starts_with arg (codes "--sink-backoff-ms="))
                                (size_flag arg (codes "--sink-backoff-ms")
                                  (λ n. record c { sink_backoff_ms = milliseconds n })
                                  (λ n lt. omega arith))
                                (if-Ends (starts_with arg (codes "--sink-timeout-ms="))
                                  (size_flag arg (codes "--sink-timeout-ms")
                                    (λ n. record c { sink_timeout_ms = milliseconds n })
                                    (λ n lt. omega arith))
                                  (throw-Ends _ tt)))))))))))))))

parse_all-Ends : (c : Config) (args : List Text) → IsTyped c → Ends IsTyped (parse_all c args)
unfolding parse_all
parse_all-Ends c [] h = ok-Ends c h
parse_all-Ends c (arg ∷ args) h =
    then-Ends (parse_arg-Ends c arg h) (λ c' h'. parse_all-Ends c' args h')

-- What `validate` checks.
pub record IsConfig (c : Config) : Type 0 where
  pub typed : IsTyped c
  pub workers : 1 ≤ c.workers
  pub queue_capacity : 1 ≤ c.queue_capacity
  pub has_url : (is_http c.sink_kind && is_empty c.sink_url) ≡ false
  pub outbound_capacity : 1 ≤ c.sink_outbound_capacity
  pub concurrency_from : 1 ≤ c.sink_concurrency
  pub concurrency_to : c.sink_concurrency ≤ max_sink_concurrency

validate-Ends : (c : Config) → IsTyped c → Ends IsConfig (validate c)
unfolding validate
validate-Ends c h = guard-Ends (c.workers == 0) _ tt (λ w.
    guard-Ends (c.queue_capacity == 0) _ tt (λ q.
      guard-Ends (is_http c.sink_kind && is_empty c.sink_url) _ tt (λ u.
        guard-Ends (c.sink_outbound_capacity == 0) _ tt (λ o.
          guard-Ends (c.sink_concurrency == 0) _ tt (λ lo.
            guard-Ends (ltb max_sink_concurrency c.sink_concurrency) _ tt (λ hi. ok-Ends c (record {
              typed = h;
              workers = ground arith;
              queue_capacity = ground arith;
              has_url = u;
              outbound_capacity = ground arith;
              concurrency_from = ground arith;
              concurrency_to = ground arith;
            })))))))

-- Whatever the arguments are: a configuration that is returned has a port from 1 to 65535, at least
-- one worker and one place in each queue, a URL if the sink is HTTP, from 1 to 1024 sink threads, and
-- numbers that fit their fields; and nothing but invalid_argument is thrown.
pub parse_args-IsConfig : (args : List Text) → Ends IsConfig (parse_args args)
unfolding parse_args
parse_args-IsConfig args =
    then-Ends (parse_all-Ends defaults args (omega arith)) (λ c h. validate-Ends c h)
