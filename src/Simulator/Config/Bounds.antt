-- ===== src/Simulator/Config/Bounds.antt =====
-- What holds of every configuration that the simulator's `parse_args` returns, and what it throws.
use edge_flow.Prelude.{
  ℕ, ◌≤◌, ◌<◌, ◌≡◌, refl, ◌⊎◌, Bool, true, false, not, ◌&&◌, ◌||◌, List, [], ◌∷◌, arith, ltb, leb,
  ◌==◌, Bool-cases, inl, inr,
}
use edge_flow.Prelude.Except.{Text}
use edge_flow.Prelude.Text.{codes, starts_with, is_empty}
use edge_flow.Prelude.Ends.{Ends, ok-Ends, throw-Ends, if-Ends, guard-Ends, then-Ends}
use edge_flow.Args.{Doubles, parse_percentage}
use edge_flow.Args.Laws.{parse_port-Ends, take_whole-Ends}
use edge_flow.Args.Flags.{size_flag, text_flag, value_flag}
use edge_flow.Config.{milliseconds}
use edge_flow.Simulator.Config.{
  parse_positive_double, Config, defaults, parse_arg, parse_all, validate, parse_args,
}

not-not : (b : Bool) → not b ≡ false → b ≡ true
not-not true e = refl
not-not false e = cc

-- The test of a percentage, from its three parts.
neither : (a b c : Bool) → (not a || (b || c)) ≡ false → (a ≡ true) × (b ≡ false) × (c ≡ false)
neither true false false e = (refl, refl, refl)
neither true false true e = cc
neither true true c e = cc
neither false b c e = cc

in_time : (n ends at : ℕ) → (ltb 0 n && leb ends at) ≡ false → (n ≡ 0) ⊎ (at < ends)
in_time n ends at e = elim (Bool-cases (ltb 0 n)) [
  | inl some_devices ↦ inr (let e' = rw some_devices at e in ground arith)
  | inr none ↦ inl (ground arith)
]

module _ (d : Doubles) where
  open d use {Double, is_finite, less, at_most, whole}

  -- Finite, and greater than 0.
  abbrev pub IsRate : Double → Type 0
  IsRate x = (is_finite x ≡ true) × (at_most x (whole 0) ≡ false)

  -- Finite, and from 0 to 100.
  abbrev pub IsPercentage : Double → Type 0
  IsPercentage x = (is_finite x ≡ true) × (less x (whole 0) ≡ false) × (less (whole 100) x ≡ false)

  parse_positive_double-Ends :
      (value flag_name : Text) → Ends IsRate (parse_positive_double d value flag_name)
  unfolding parse_positive_double
  parse_positive_double-Ends value f =
      guard-Ends (is_empty value || starts_with value (codes "-")) _ tt (λ _.
        then-Ends (take_whole-Ends value f (d.stod value)) (λ x _.
          guard-Ends (not (is_finite x)) _ tt (λ finite.
            guard-Ends (at_most x (whole 0)) _ tt
              (λ positive. ok-Ends x (not-not (is_finite x) finite, positive)))))

  parse_percentage-Ends :
      (value flag_name : Text) → Ends IsPercentage (parse_percentage d value flag_name)
  unfolding parse_percentage
  parse_percentage-Ends value f =
      guard-Ends (is_empty value || starts_with value (codes "-")) _ tt (λ _.
        then-Ends (take_whole-Ends value f (d.stod value)) (λ x _.
          guard-Ends (not (is_finite x) || (less x (whole 0) || less (whole 100) x)) _ tt (λ within.
            ok-Ends x (neither (is_finite x) (less x (whole 0)) (less (whole 100) x) within))))

  -- What the flags keep.
  abbrev pub IsTyped : Config d → Type 0
  IsTyped c =
      (1 ≤ c.port)
      × (c.port ≤ 65535)
      × IsRate c.events_per_second_per_device
      × IsPercentage c.chaos_packet_loss_percent

  fleet_arg-Ends : (c : Config d) (arg : Text) → IsTyped c → Ends IsTyped (parse_arg d c arg)
  unfolding parse_arg
  fleet_arg-Ends c arg h =
      if-Ends (starts_with arg (codes "--host="))
        (text_flag arg (λ t. record c { host = t }) (λ t. h))
        (if-Ends (starts_with arg (codes "--port="))
          (value_flag arg (λ n. record c { port = n }) parse_port-Ends
            (λ n r. (r.0, r.1, h.2, h.3)))
          (if-Ends (starts_with arg (codes "--devices="))
            (size_flag arg (codes "--devices") (λ n. record c { device_count = n }) (λ n _. h))
            (if-Ends (starts_with arg (codes "--rate="))
              (value_flag arg (λ x. record c { events_per_second_per_device = x })
                (λ t. parse_positive_double-Ends t (codes "--rate")) (λ x r. (h.0, h.1, r, h.3)))
              (if-Ends (starts_with arg (codes "--duration="))
                (size_flag arg (codes "--duration") (λ n. record c { duration_seconds = n })
                  (λ n _. h))
                (if-Ends (starts_with arg (codes "--chaos-latency-ms="))
                  (size_flag arg (codes "--chaos-latency-ms")
                    (λ n. record c { chaos_latency = milliseconds n }) (λ n _. h))
                  (if-Ends (starts_with arg (codes "--chaos-packet-loss-percent="))
                    (value_flag arg (λ x. record c { chaos_packet_loss_percent = x })
                      (λ t. parse_percentage-Ends t (codes "--chaos-packet-loss-percent"))
                      (λ x r. (h.0, h.1, h.2, r)))
                    (if-Ends (starts_with arg (codes "--chaos-device-spike-at-sec="))
                      (size_flag arg (codes "--chaos-device-spike-at-sec")
                        (λ n. record c { chaos_device_spike_at_sec = n }) (λ n _. h))
                      (if-Ends (starts_with arg (codes "--chaos-device-spike="))
                        (size_flag arg (codes "--chaos-device-spike")
                          (λ n. record c { chaos_device_spike_count = n }) (λ n _. h))
                        (if-Ends (starts_with arg (codes "--threads="))
                          (size_flag arg (codes "--threads") (λ n. record c { thread_count = n })
                            (λ n _. h))
                          (throw-Ends _ tt))))))))))

  fleet_all-Ends : (c : Config d) (args : List Text) → IsTyped c → Ends IsTyped (parse_all d c args)
  unfolding parse_all
  fleet_all-Ends c [] h = ok-Ends c h
  fleet_all-Ends c (arg ∷ args) h =
      then-Ends (fleet_arg-Ends c arg h) (λ c' h'. fleet_all-Ends c' args h')

  pub record IsFleet (c : Config d) : Type 0 where
    pub typed : IsTyped c
    pub devices_from : 1 ≤ c.device_count
    pub devices_to : c.device_count ≤ 100000
    pub threads_from : 1 ≤ c.thread_count
    pub threads_to : c.thread_count ≤ 256
    pub spike_in_time :
        (c.chaos_device_spike_count ≡ 0) ⊎ (c.chaos_device_spike_at_sec < c.duration_seconds)

  validate-IsFleet : (c : Config d) → IsTyped c → Ends IsFleet (validate d c)
  unfolding validate
  validate-IsFleet c h = guard-Ends (c.device_count == 0) _ tt (λ lo.
      guard-Ends (ltb 100000 c.device_count) _ tt (λ hi.
        guard-Ends (c.thread_count == 0) _ tt (λ from.
          guard-Ends (ltb 256 c.thread_count) _ tt (λ to.
            guard-Ends
              (ltb 0 c.chaos_device_spike_count
                && leb c.duration_seconds c.chaos_device_spike_at_sec)
              _ tt
              (λ late. ok-Ends c (record {
                typed = h;
                devices_from = ground arith;
                devices_to = ground arith;
                threads_from = ground arith;
                threads_to = ground arith;
                spike_in_time = in_time c.chaos_device_spike_count c.duration_seconds _ late;
              }))))))

  -- If 1.0 is a rate and 0.0 a percentage, whatever the arguments are: a configuration that is returned
  -- has a port from 1 to 65535, from 1 to 100000 devices, from 1 to 256 threads, a finite rate above 0,
  -- a finite loss from 0 to 100 percent, and a spike before the end if it has any; and nothing but
  -- invalid_argument is thrown.
  pub parse_args-IsFleet :
      (one : IsRate (whole 1)) (zero_percent : IsPercentage (whole 0)) (args : List Text)
      → Ends IsFleet (parse_args d args)
  unfolding parse_args
  parse_args-IsFleet one zero_percent args =
      then-Ends (fleet_all-Ends (defaults d) args (omega arith, omega arith, one, zero_percent))
        (λ c h. validate-IsFleet c h)
