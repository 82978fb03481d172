-- ===== src/Simulator/Tests.antt =====
-- A fleet of five devices and a spike of two, on three threads.
use edge_flow.Prelude.{◌%◌, ◌≡◌, refl, [], ◌∷◌, arith, ◌==◌, some, if◌then◌else◌, length, get_elem?}
use edge_flow.Simulator.Fleet.{
  fleet, make_clients, make_client, stopped_on, sweep, times, fleet_stopped,
}

swept : stopped_on 3 1 7 ≡ 1 ∷ 4 ∷ []
unfolding stopped_on sweep
swept = refl

spread : fleet 3 5 2 ≡ 0 ∷ 1 ∷ 2 ∷ 0 ∷ 1 ∷ 2 ∷ 0 ∷ []
unfolding fleet make_clients make_client
spread = refl

fleet_stopped_example :
    (get_elem? (fleet 3 5 2) 4 ≡ some (4 % 3))
    × (times 4 (stopped_on 3 1 (length (fleet 3 5 2))) ≡ (if 4 % 3 == 1 then 1 else 0))
fleet_stopped_example = fleet_stopped 3 5 2 1 4 (omega arith) (omega arith)
