-- ===== src/Args/Tests.antt =====
-- Flag values at concrete inputs.
use edge_flow.Prelude.{◌≡◌, refl, ◌-◌, ◌^◌, ◌↔◌}
use edge_flow.Prelude.Except.{ok, throw}
use edge_flow.Prelude.Text.{codes}
use edge_flow.Args.{parse_positive_size, invalid_value, arg_value}
use edge_flow.Args.Size.{IsSize}
use edge_flow.Args.Laws.{parse_positive_size_iff}
use edge_flow.Args.Number.{stoul, skip_spaces, read_digits}

forty_two : parse_positive_size (codes "42") (codes "--workers") ≡ ok 42
unfolding parse_positive_size stoul skip_spaces read_digits
forty_two = refl

junk :
    parse_positive_size (codes "4x") (codes "-w") ≡ throw (invalid_value (codes "-w") (codes "4x"))
unfolding parse_positive_size stoul skip_spaces read_digits
junk = refl

-- A '-' behind white space passes, and the word is negated.
minus_five : parse_positive_size (codes " -5") (codes "--workers") ≡ ok (2 ^ 64 - 5)
unfolding parse_positive_size stoul skip_spaces read_digits
minus_five = refl

after_equals : arg_value (codes "--a=b=c") ≡ ok (codes "b=c")
unfolding arg_value
after_equals = refl

parse_positive_size_iff_example :
    (parse_positive_size (codes "  +42") (codes "--workers") ≡ ok 42) ↔ IsSize (codes "  +42") 42
parse_positive_size_iff_example = parse_positive_size_iff (codes "  +42") (codes "--workers") 42
