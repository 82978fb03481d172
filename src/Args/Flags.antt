-- ===== src/Args/Flags.antt =====
-- What a flag sets a configuration to keeps a predicate on it.
use edge_flow.Prelude.{ℕ, ◌^◌, ◌<◌}
use edge_flow.Prelude.Except.{Text, Except, ok, ◌>>=◌}
use edge_flow.Prelude.Ends.{Ends, ok-Ends, then-Ends}
use edge_flow.Args.{arg_value, size_of}
use edge_flow.Args.Laws.{arg_value-Ends, parse_positive_size-Ends}

size_of-Ends : (flag_name arg : Text) → Ends (λ (n : ℕ). n < 2 ^ 64) (size_of flag_name arg)
size_of-Ends f arg = then-Ends (arg_value-Ends arg) (λ value _. parse_positive_size-Ends value f)

module _ {C : Type 0} {Holds : C → Type 0} (arg : Text) where
  pub size_flag :
      (flag_name : Text) (set : ℕ → C)
      → ((n : ℕ) → n < 2 ^ 64 → Holds (set n))
      → Ends Holds (size_of flag_name arg >>= λ n. ok (set n))
  size_flag f set h = then-Ends (size_of-Ends f arg) (λ n lt. ok-Ends (set n) (h n lt))

  pub text_flag :
      (set : Text → C)
      → ((t : Text) → Holds (set t))
      → Ends Holds (arg_value arg >>= λ t. ok (set t))
  text_flag set h = then-Ends (arg_value-Ends arg) (λ t _. ok-Ends (set t) (h t))

  -- A flag whose value is parsed.
  pub value_flag :
      {V : Type 0} {Good : V → Type 0} {parse : Text → Except V} (set : V → C)
      → ((t : Text) → Ends Good (parse t))
      → ((v : V) → Good v → Holds (set v))
      → Ends Holds (arg_value arg >>= parse >>= λ v. ok (set v))
  value_flag set p h =
      then-Ends (then-Ends (arg_value-Ends arg) (λ t _. p t)) (λ v good. ok-Ends (set v) (h v good))
