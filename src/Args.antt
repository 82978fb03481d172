-- ===== src/Args.antt =====
-- The values of command-line flags: core/include/edgeflow/args.hpp.
pub mod Number
pub mod Size
pub mod Laws
pub mod Flags
mod Tests
use edge_flow.Prelude.{
  Bool, not, ℕ, Option, none, some, ◌++◌, ◌||◌, ltb, ◌==◌, if◌then◌else◌, length,
}
use edge_flow.Prelude.Except.{Text, Exception, Except, ok, throw, ◌>>=◌, invalid_argument}
use edge_flow.Prelude.Text.{codes, starts_with, is_empty, split_at}
use edge_flow.Args.Number.{stoul}

abbrev pub missing_value : Text → Exception
missing_value arg = invalid_argument (codes "expected --flag=value, got: " ++ arg)

unfoldable pub arg_value : Text → Except Text
arg_value arg = elim (split_at b'=' arg) [
  | none ↦ throw (missing_value arg)
  | some (before, after) ↦ ok after
]

abbrev pub invalid_value : Text → Text → Exception
invalid_value flag_name value =
    invalid_argument (codes "invalid value for " ++ (flag_name ++ (codes ": " ++ value)))

-- What std::stoul or std::stod returns is taken if it read the whole value.
abbrev pub take_whole {ℓ} : {A : Type ℓ} → Text → Text → Option (A × ℕ) → Except A
take_whole value flag_name none = throw (invalid_value flag_name value)
take_whole value flag_name (some (parsed, pos)) =
    if pos == length value then ok parsed else throw (invalid_value flag_name value)

unfoldable pub parse_positive_size : Text → Text → Except ℕ
parse_positive_size value flag_name =
    if is_empty value || starts_with value (codes "-")
    then throw (invalid_value flag_name value)
    else take_whole value flag_name (stoul value)

-- A flag of a number: its value, under the flag's name.
abbrev pub size_of : Text → Text → Except ℕ
size_of flag_name arg = arg_value arg >>= λ value. parse_positive_size value flag_name

unfoldable pub parse_port : Text → Except ℕ
parse_port value = parse_positive_size value (codes "--port") >>= λ raw.
    if raw == 0 || ltb 65535 raw
    then throw (invalid_argument (codes "--port must be between 1 and 65535, got: " ++ value))
    else ok raw

-- The doubles that the code parses and compares.
pub record Doubles : Type 1 where
  pub Double : Type 0
  pub stod : Text → Option (Double × ℕ)  -- the number and how much was read
  pub is_finite : Double → Bool
  pub less : Double → Double → Bool  -- <
  pub at_most : Double → Double → Bool  -- <=
  pub whole : ℕ → Double

unfoldable pub parse_percentage : (d : Doubles) → Text → Text → Except d.Double
parse_percentage d value flag_name =
    if is_empty value || starts_with value (codes "-")
    then throw (invalid_value flag_name value)
    else take_whole value flag_name (d.stod value) >>= λ parsed.
        if not (d.is_finite parsed) || (d.less parsed (d.whole 0) || d.less (d.whole 100) parsed)
        then throw
            (invalid_argument (flag_name ++ (codes " must be between 0 and 100, got: " ++ value)))
        else ok parsed
