-- ===== src/Simulator/Device/Tests.antt =====
-- A device at concrete runs.
use edge_flow.Prelude.{ℕ, ◌≡◌, refl, true, false, none, ltb, leb, List, [], ◌∷◌}
use edge_flow.Prelude.Int.{pos}
use edge_flow.Args.{Doubles}
use edge_flow.Simulator.Device.{
  DeviceClient, fresh_client, start, stop, Move, stops, completes, step, run, take_at,
  schedule_next_send, should_drop_for_chaos, do_send, send_event, on_connect, on_tick, on_delay,
  on_written,
}
use edge_flow.Simulator.Device.Sending.{IsSingle, IsOver, called, started-IsSingle, stop-IsOver}

abbrev wholes : Doubles
wholes = record {
  Double = ℕ;
  stod = λ t. none;
  is_finite = λ x. true;
  less = ltb;
  at_most = leb;
  whole = λ n. n;
}

abbrev started : DeviceClient wholes
started = start wholes (fresh_client wholes (pos 5) 0)

-- Connects, ticks, waits for its delay while another tick passes, and writes.
abbrev morning : List (Move wholes)
morning = completes 0 false 0 ∷ completes 0 false 0 ∷ completes 0 false 0 ∷ completes 1 false 0 ∷ []

one_sent : (run wholes started morning).events_sent ≡ 1
unfolding run step stop start take_at schedule_next_send should_drop_for_chaos do_send send_event
    on_connect on_tick on_delay on_written
one_sent = refl

started-IsSingle_example : IsSingle wholes (run wholes started morning)
started-IsSingle_example = started-IsSingle wholes (pos 5) 0 morning

abbrev evening : List (Move wholes)
evening = completes 0 true 0 ∷ stops ∷ completes 0 false 0 ∷ []

stop-IsOver_example :
    IsOver wholes started
      (run wholes (stop wholes started) evening)
      (called wholes (stop wholes started) evening)
stop-IsOver_example = stop-IsOver wholes started evening
