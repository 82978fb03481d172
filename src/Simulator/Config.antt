-- ===== src/Simulator/Config.antt =====
-- The simulator's command line: simulator/src/config.cpp and simulator/include/edgeflow/simulator/config.hpp.
pub mod Bounds
mod Tests
use edge_flow.Prelude.{ℕ, Bool, not, ◌&&◌, ◌||◌, List, [], ◌∷◌, ◌++◌, ltb, leb, ◌==◌, if◌then◌else◌}
use edge_flow.Prelude.Int.{ℤ, pos}
use edge_flow.Prelude.Except.{Text, Except, ok, throw, ◌>>=◌, invalid_argument}
use edge_flow.Prelude.Text.{codes, starts_with, is_empty}
use edge_flow.Args.{
  Doubles, arg_value, invalid_value, take_whole, size_of, parse_port, parse_percentage,
}
use edge_flow.Config.{milliseconds}

module _ (d : Doubles) where
  open d use {Double, stod, is_finite, at_most, whole}

  unfoldable pub parse_positive_double : Text → Text → Except Double
  parse_positive_double value flag_name =
      if is_empty value || starts_with value (codes "-")
      then throw (invalid_value flag_name value)
      else take_whole value flag_name (stod value) >>= λ parsed.
          if not (is_finite parsed)
          then throw (invalid_argument (flag_name ++ (codes " must be finite, got: " ++ value)))
          else if at_most parsed (whole 0)
          then throw
              (invalid_argument (flag_name ++ (codes " must be greater than 0, got: " ++ value)))
          else ok parsed

  pub record Config : Type 0 where
    pub host : Text
    pub port : ℕ
    pub device_count : ℕ
    pub events_per_second_per_device : Double
    pub duration_seconds : ℕ
    pub thread_count : ℕ
    pub chaos_latency : ℤ
    pub chaos_packet_loss_percent : Double
    pub chaos_device_spike_count : ℕ
    pub chaos_device_spike_at_sec : ℕ

  abbrev pub defaults : Config
  defaults = record {
    host = codes "127.0.0.1";
    port = 9000;
    device_count = 1000;
    events_per_second_per_device = whole 1;
    duration_seconds = 30;
    thread_count = 1;
    chaos_latency = pos 0;
    chaos_packet_loss_percent = whole 0;
    chaos_device_spike_count = 0;
    chaos_device_spike_at_sec = 0;
  }

  -- One argument of the loop of `parse_args`.
  unfoldable pub parse_arg : Config → Text → Except Config
  parse_arg c arg =
      if starts_with arg (codes "--host=")
      then arg_value arg >>= (λ t. ok (record c { host = t }))
      else if starts_with arg (codes "--port=")
      then arg_value arg >>= parse_port >>= (λ n. ok (record c { port = n }))
      else if starts_with arg (codes "--devices=")
      then size_of (codes "--devices") arg >>= (λ n. ok (record c { device_count = n }))
      else if starts_with arg (codes "--rate=")
      then arg_value arg
        >>= (λ t. parse_positive_double t (codes "--rate"))
        >>= (λ x. ok (record c { events_per_second_per_device = x }))
      else if starts_with arg (codes "--duration=")
      then size_of (codes "--duration") arg >>= (λ n. ok (record c { duration_seconds = n }))
      else if starts_with arg (codes "--chaos-latency-ms=")
      then size_of (codes "--chaos-latency-ms") arg
        >>= (λ n. ok (record c { chaos_latency = milliseconds n }))
      else if starts_with arg (codes "--chaos-packet-loss-percent=")
      then arg_value arg
        >>= (λ t. parse_percentage d t (codes "--chaos-packet-loss-percent"))
        >>= (λ x. ok (record c { chaos_packet_loss_percent = x }))
      else if starts_with arg (codes "--chaos-device-spike-at-sec=")
      then size_of (codes "--chaos-device-spike-at-sec") arg
        >>= (λ n. ok (record c { chaos_device_spike_at_sec = n }))
      else if starts_with arg (codes "--chaos-device-spike=")
      then size_of (codes "--chaos-device-spike") arg
        >>= (λ n. ok (record c { chaos_device_spike_count = n }))
      else if starts_with arg (codes "--threads=")
      then size_of (codes "--threads") arg >>= (λ n. ok (record c { thread_count = n }))
      else throw (invalid_argument (codes "unknown argument: " ++ arg))

  unfoldable pub parse_all : Config → List Text → Except Config
  parse_all c [] = ok c
  parse_all c (arg ∷ args) = parse_arg c arg >>= λ c'. parse_all c' args

  -- What `parse_args` checks behind the loop.
  unfoldable pub validate : Config → Except Config
  validate c =
      if c.device_count == 0
      then throw (invalid_argument (codes "--devices must be at least 1"))
      else if ltb 100000 c.device_count
      then throw (invalid_argument (codes "--devices exceeds maximum of 100000"))
      else if c.thread_count == 0
      then throw (invalid_argument (codes "--threads must be at least 1"))
      else if ltb 256 c.thread_count
      then throw (invalid_argument (codes "--threads exceeds maximum of 256"))
      else if ltb 0 c.chaos_device_spike_count && leb c.duration_seconds c.chaos_device_spike_at_sec
      then throw (
          invalid_argument (
            codes
              "--chaos-device-spike-at-sec must be less than --duration for the spike to occur"))
      else ok c

  -- The arguments behind the program's name.
  unfoldable pub parse_args : List Text → Except Config
  parse_args args = parse_all defaults args >>= validate
