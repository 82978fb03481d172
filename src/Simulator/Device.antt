-- ===== src/Simulator/Device.antt =====
-- One simulated device: simulator/include/edgeflow/simulator/device_client.hpp and
-- simulator/src/device_client.cpp. A move is a call of stop(), or of the handler of an asynchronous
-- operation that is outstanding, in any order and with or without an error: closing the socket and
-- cancelling the timers only has the outstanding handlers called, with an error or not.
pub mod Sending
mod Tests
use edge_flow.Prelude.{
  ℕ, zero, suc, ◌+◌, ◌%◌, ◌^◌, Bool, true, false, not, ◌&&◌, ◌||◌, List, [], ◌∷◌, Option, none,
  some, ltb, if◌then◌else◌,
}
use edge_flow.Prelude.Int.{ℤ, pos, negsuc}
use edge_flow.Args.{Doubles}

-- What an outstanding handler waits for.
pub data Waiting : Type 0 where
  connecting : Waiting
  ticking : Waiting  -- timer_
  delaying : Waiting  -- chaos_latency_timer_
  writing : Waiting

-- count() <= 0
abbrev pub is_off : ℤ → Bool
is_off (pos zero) = true
is_off (pos (suc n)) = false
is_off (negsuc n) = true

-- The outstanding handler at a place, and those that are left.
unfoldable pub take_at : ℕ → List Waiting → Option (Waiting × List Waiting)
take_at i [] = none
take_at zero (w ∷ ws) = some (w, ws)
take_at (suc i) (w ∷ ws) = elim (take_at i ws) [ none ↦ none | some (v, vs) ↦ some (v, w ∷ vs) ]

module _ (d : Doubles) where
  open d use {Double, less, at_most, whole}

  pub record DeviceClient : Type 0 where
    pub chaos_latency : ℤ
    pub chaos_packet_loss_percent : Double
    pub events_sent : ℕ
    pub stopped : Bool
    pub write_in_flight : Bool
    pub outstanding : List Waiting

  -- A new client. The device's number and the interval between events play no part in what follows.
  abbrev pub fresh_client : ℤ → Double → DeviceClient
  fresh_client latency loss = record {
    chaos_latency = latency;
    chaos_packet_loss_percent = loss;
    events_sent = 0;
    stopped = false;
    write_in_flight = false;
    outstanding = [];
  }

  abbrev awaits : Waiting → DeviceClient → DeviceClient
  awaits w c = record c { outstanding = w ∷ c.outstanding }

  -- start() and connect(), when the host resolves.
  unfoldable pub start : DeviceClient → DeviceClient
  start c = awaits connecting c

  unfoldable pub stop : DeviceClient → DeviceClient
  stop c = record c { stopped = true }

  unfoldable pub schedule_next_send : DeviceClient → DeviceClient
  schedule_next_send c = if c.stopped then c else awaits ticking c

  -- `draw` is the next number of chaos_dist_.
  unfoldable pub should_drop_for_chaos : Double → DeviceClient → Bool
  should_drop_for_chaos draw c =
      if at_most c.chaos_packet_loss_percent (whole 0)
      then false
      else less draw c.chaos_packet_loss_percent

  unfoldable pub do_send : DeviceClient → DeviceClient
  do_send c = awaits writing (record c { events_sent = (c.events_sent + 1) % 2 ^ 64 })

  unfoldable pub send_event : DeviceClient → DeviceClient
  unfolding do_send
  send_event c =
      let busy = record c { write_in_flight = true } in
      if is_off c.chaos_latency then do_send busy else awaits delaying busy

  -- The handlers, each with its error.

  unfoldable pub on_connect : Bool → DeviceClient → DeviceClient
  unfolding schedule_next_send
  on_connect error c = if error || c.stopped then c else schedule_next_send c

  unfoldable pub on_tick : Bool → Double → DeviceClient → DeviceClient
  unfolding schedule_next_send send_event should_drop_for_chaos
  on_tick error draw c =
      if error || c.stopped
      then c
      else schedule_next_send
          (if not c.write_in_flight && not (should_drop_for_chaos draw c) then send_event c else c)

  unfoldable pub on_delay : Bool → DeviceClient → DeviceClient
  unfolding do_send
  on_delay error c = if error || c.stopped then record c { write_in_flight = false } else do_send c

  unfoldable pub on_written : DeviceClient → DeviceClient
  on_written c = record c { write_in_flight = false }

  abbrev pub handle : Waiting → Bool → Double → DeviceClient → DeviceClient
  handle connecting error draw c = on_connect error c
  handle ticking error draw c = on_tick error draw c
  handle delaying error draw c = on_delay error c
  handle writing error draw c = on_written c

  pub data Move : Type 0 where
    stops : Move
    completes : ℕ → Bool → Double → Move  -- which handler, its error, and the draw

  unfoldable pub step : DeviceClient → Move → DeviceClient
  step c stops = stop c
  step c (completes i error draw) = elim (take_at i c.outstanding) [
    | none ↦ c
    | some (w, rest) ↦ handle w error draw (record c { outstanding = rest })
  ]

  unfoldable pub run : DeviceClient → List Move → DeviceClient
  run c [] = c
  run c (m ∷ ms) = run (step c m) ms
