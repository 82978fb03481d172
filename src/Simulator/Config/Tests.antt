-- ===== src/Simulator/Config/Tests.antt =====
-- The simulator's command line at concrete inputs, with whole numbers for the doubles.
use edge_flow.Prelude.{ℕ, ◌≡◌, refl, true, [], ◌∷◌, ltb, leb}
use edge_flow.Prelude.Except.{ok}
use edge_flow.Prelude.Text.{codes}
use edge_flow.Prelude.Ends.{Ends}
use edge_flow.Args.{Doubles, parse_positive_size, parse_percentage, arg_value}
use edge_flow.Args.Number.{stoul, skip_spaces, read_digits}
use edge_flow.Simulator.Config.{
  defaults, parse_args, parse_all, parse_arg, parse_positive_double, validate,
}
use edge_flow.Simulator.Config.Bounds.{IsFleet, parse_args-IsFleet}

abbrev wholes : Doubles
wholes = record {
  Double = ℕ;
  stod = stoul;
  is_finite = λ x. true;
  less = ltb;
  at_most = leb;
  whole = λ n. n;
}

three_flags :
    parse_args wholes
      (codes "--rate=5" ∷ codes "--chaos-packet-loss-percent=100" ∷ codes "--threads=2" ∷ [])
    ≡ ok (record (defaults wholes) {
      events_per_second_per_device = 5;
      chaos_packet_loss_percent = 100;
      thread_count = 2;
    })
unfolding parse_args parse_all parse_arg parse_positive_double parse_percentage parse_positive_size
    validate arg_value stoul skip_spaces read_digits
three_flags = refl

parse_args-IsFleet_example :
    Ends (IsFleet wholes) (parse_args wholes (codes "--devices=10" ∷ codes "--rate=0" ∷ []))
parse_args-IsFleet_example =
    parse_args-IsFleet wholes (refl, refl) (refl, refl, refl)
      (codes "--devices=10" ∷ codes "--rate=0" ∷ [])
