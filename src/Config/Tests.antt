-- ===== src/Config/Tests.antt =====
-- Command lines at concrete inputs.
use edge_flow.Prelude.{◌≡◌, refl, arith, [], ◌∷◌}
use edge_flow.Prelude.Int.{negsuc}
use edge_flow.Prelude.Ends.{Ends}
use edge_flow.Config.Bounds.{IsConfig, parse_args-IsConfig}
use edge_flow.Config.RoundTrip.{print_args, parse_args-print_args}
use edge_flow.Prelude.Except.{ok, throw, invalid_argument}
use edge_flow.Prelude.Text.{codes}
use edge_flow.Args.{parse_positive_size, arg_value}
use edge_flow.Args.Number.{stoul, skip_spaces, read_digits}
use edge_flow.Config.{
  Config, defaults, http, parse_args, parse_all, parse_arg, parse_sink_kind, validate,
}

two_flags :
    parse_args (codes "--workers=8" ∷ codes "--sink=http" ∷ codes "--sink-url=http://b" ∷ [])
    ≡ ok (record defaults { workers = 8; sink_kind = http; sink_url = codes "http://b" })
unfolding parse_args parse_all parse_arg parse_sink_kind validate parse_positive_size arg_value
    stoul skip_spaces read_digits
two_flags = refl

no_url :
    parse_args (codes "--sink=http" ∷ [])
    ≡ throw (invalid_argument (codes "--sink=http requires --sink-url"))
unfolding parse_args parse_all parse_arg parse_sink_kind validate arg_value
no_url = refl

parse_args-IsConfig_example : Ends IsConfig (parse_args (codes "--sink-concurrency=2000" ∷ []))
parse_args-IsConfig_example = parse_args-IsConfig (codes "--sink-concurrency=2000" ∷ [])

abbrev tuned : Config
tuned = record defaults {
  port = 80;
  batch_age = negsuc 0;
  sink_file = codes "a=b";
  sink_kind = http;
  sink_url = codes "https://b/in";
}

tuned-IsConfig : IsConfig tuned
tuned-IsConfig = record {
  typed = omega arith;
  workers = omega arith;
  queue_capacity = omega arith;
  has_url = refl;
  outbound_capacity = omega arith;
  concurrency_from = omega arith;
  concurrency_to = omega arith;
}

parse_args-print_args_example : parse_args (print_args tuned) ≡ ok tuned
parse_args-print_args_example =
    parse_args-print_args tuned tuned-IsConfig (omega arith) (omega arith) (omega arith)
