-- ===== src/Simulator/Device/Sending.antt =====
-- A device never has two writes on its socket at once, and ends once it is stopped.
use edge_flow.Prelude.{
  ℕ, zero, suc, ◌+◌, ◌≤◌, ◌≡◌, refl, ◌∙◌, ap, Bool, true, false, not, ◌&&◌, ◌||◌, List, [], ◌∷◌,
  arith, Option, none, some, Option-cases, Bool-cases, inl, inr, length,
}
use edge_flow.Prelude.Int.{ℤ}
use edge_flow.Args.{Doubles}
use edge_flow.Simulator.Device.{
  Waiting, connecting, ticking, delaying, writing, is_off, take_at, DeviceClient, fresh_client,
  start, stop, schedule_next_send, should_drop_for_chaos, do_send, send_event, on_connect, on_tick,
  on_delay, on_written, handle, Move, stops, completes, step, run,
}

-- The handlers of the two timers and of the write that are on the way to a write or in it.
abbrev pub sends : Waiting → ℕ
sends connecting = 0
sends ticking = 0
sends delaying = 1
sends writing = 1

-- The others, which keep the client's loop going.
abbrev pub loops : Waiting → ℕ
loops connecting = 1
loops ticking = 1
loops delaying = 0
loops writing = 0

abbrev pub count : (Waiting → ℕ) → List Waiting → ℕ
count f [] = 0
count f (w ∷ ws) = f w + count f ws

take_at-count :
    (f : Waiting → ℕ) (i : ℕ) (ws : List Waiting) {w : Waiting} {rest : List Waiting}
    → take_at i ws ≡ some (w, rest)
    → count f ws ≡ f w + count f rest
unfolding take_at
take_at-count f i [] e = cc
take_at-count f zero (v ∷ vs) e = cc
take_at-count f (suc i) (v ∷ vs) {w} {rest} e = elim (Option-cases (take_at i vs)) [
  | inl absent ↦ let e' = rw absent at e in cc
  | inr found ↦
      let deeper = take_at-count f i vs found.1 in
      let e' = rw (found.1) at e in
      let head : found.0.0 ≡ w = cc in
      let tail : v ∷ found.0.1 ≡ rest = cc in omega (arith, deeper, ap f head, ap (count f) tail)
]

take_at-length :
    (i : ℕ) (ws : List Waiting) {w : Waiting} {rest : List Waiting}
    → take_at i ws ≡ some (w, rest)
    → length ws ≡ suc (length rest)
unfolding take_at
take_at-length i [] e = cc
take_at-length zero (v ∷ vs) {w} {rest} e =
    let tail : vs ≡ rest = cc in ap (λ (x : List Waiting). suc (length x)) tail
take_at-length (suc i) (v ∷ vs) {w} {rest} e = elim (Option-cases (take_at i vs)) [
  | inl absent ↦ let e' = rw absent at e in cc
  | inr found ↦
      let deeper = take_at-length i vs found.1 in
      let e' = rw (found.1) at e in
      let tail : v ∷ found.0.1 ≡ rest = cc in omega (arith, deeper, ap length tail)
]

abbrev pub bit : Bool → ℕ
bit true = 1
bit false = 0

bit_le : (b : Bool) → bit b ≤ 1
bit_le true = omega arith
bit_le false = omega arith

idle_of : (a b : Bool) → (not a && not b) ≡ true → a ≡ false
idle_of true b e = cc
idle_of false b e = refl

or_true : (a : Bool) {b : Bool} → b ≡ true → (a || b) ≡ true
or_true true e = refl
or_true false e = e

module _ (d : Doubles) where
  -- One write or delay is outstanding exactly while `write_in_flight` is set, and none otherwise; and
  -- at most one of the connection and the timer of the loop.
  abbrev pub IsSingle : DeviceClient d → Type 0
  IsSingle c = (count sends c.outstanding ≡ bit c.write_in_flight) × (count loops c.outstanding ≤ 1)

  -- With no write on the way, a send starts one and leaves the loop alone.
  send_event-IsSingle :
      (c : DeviceClient d)
      → c.write_in_flight ≡ false
      → IsSingle c
      → (count sends (send_event d c).outstanding ≡ bit (send_event d c).write_in_flight)
        × (count loops (send_event d c).outstanding ≡ count loops c.outstanding)
  unfolding send_event do_send
  send_event-IsSingle c idle h =
      let free : count sends c.outstanding ≡ 0 = h.0 ∙ ap bit idle in
      elim (Bool-cases (is_off c.chaos_latency)) [
        | inl now ↦ rw now (omega (arith, free), omega arith)
        | inr later ↦ rw later (omega (arith, free), omega arith)
      ]

  schedule-IsSingle :
      (c : DeviceClient d)
      → count sends c.outstanding ≡ bit c.write_in_flight
      → count loops c.outstanding ≡ 0
      → IsSingle (schedule_next_send d c)
  unfolding schedule_next_send
  schedule-IsSingle c s l = elim (Bool-cases c.stopped) [
    | inl over ↦ rw (schedule_next_send, over) (s, omega (arith, l))
    | inr runs ↦ rw (schedule_next_send, runs) (omega (arith, s), omega (arith, l))
  ]

  handled-IsSingle :
      (w : Waiting) (error : Bool) (draw : d.Double) (c : DeviceClient d) (rest : List Waiting)
      → count sends c.outstanding ≡ sends w + count sends rest
      → count loops c.outstanding ≡ loops w + count loops rest
      → IsSingle c
      → IsSingle (handle d w error draw (record c { outstanding = rest }))
  unfolding on_connect on_tick on_delay on_written do_send
  handled-IsSingle connecting error draw c rest s l h = elim (Bool-cases (error || c.stopped)) [
    | inl over ↦ rw over (omega arith)
    | inr going ↦
        rw going (schedule-IsSingle (record c { outstanding = rest }) (omega arith) (omega arith))
  ]
  handled-IsSingle ticking error draw c rest s l h =
      let left = record c { outstanding = rest } in
      let here : IsSingle left = (omega arith, omega arith) in
      elim (Bool-cases (error || c.stopped)) [
        | inl over ↦ rw over here
        | inr going ↦
            rw going
              (elim (Bool-cases
                (not c.write_in_flight && not (should_drop_for_chaos d draw left))) [
                  | inl free ↦
                      let (s', l') = send_event-IsSingle left (idle_of _ _ free) here in
                      rw free (schedule-IsSingle (send_event d left) s' (omega (arith, l')))
                  | inr busy ↦ rw busy (schedule-IsSingle left here.0 (omega arith))
                ])
      ]
  handled-IsSingle delaying error draw c rest s l h = elim (Bool-cases (error || c.stopped)) [
    | inl over ↦ rw over (omega (arith, bit_le c.write_in_flight), omega arith)
    | inr going ↦ rw going (omega arith, omega arith)
  ]
  handled-IsSingle writing error draw c rest s l h =
      (omega (arith, bit_le c.write_in_flight), omega arith)

  step-IsSingle : (c : DeviceClient d) (m : Move d) → IsSingle c → IsSingle (step d c m)
  unfolding step stop
  step-IsSingle c stops h = h
  step-IsSingle c (completes i error draw) h = elim (Option-cases (take_at i c.outstanding)) [
    | inl absent ↦ rw (step, absent) h
    | inr found ↦
        let s = take_at-count sends i c.outstanding found.1 in
        let l = take_at-count loops i c.outstanding found.1 in
        rw (step, found.1) (handled-IsSingle found.0.0 error draw c found.0.1 s l h)
  ]

  run-IsSingle : (c : DeviceClient d) (ms : List (Move d)) → IsSingle c → IsSingle (run d c ms)
  unfolding run
  run-IsSingle c [] h = h
  run-IsSingle c (m ∷ ms) h = run-IsSingle (step d c m) ms (step-IsSingle c m h)

  -- From a new client that is started, over any sequence of handlers and calls of stop(): exactly one
  -- delay or write is outstanding while write_in_flight is set, and none otherwise; and at most one
  -- connection or timer of the loop is.
  pub started-IsSingle :
      (latency : ℤ) (loss : d.Double) (ms : List (Move d))
      → IsSingle (run d (start d (fresh_client d latency loss)) ms)
  unfolding start
  started-IsSingle latency loss ms = run-IsSingle _ ms (refl, omega arith)

  abbrev pub found_there : Option (Waiting × List Waiting) → ℕ
  found_there none = 0
  found_there (some found) = 1

  -- How many handlers the moves call.
  abbrev pub answers : DeviceClient d → Move d → ℕ
  answers c stops = 0
  answers c (completes i error draw) = found_there (take_at i c.outstanding)

  abbrev pub called : DeviceClient d → List (Move d) → ℕ
  called c [] = 0
  called c (m ∷ ms) = answers c m + called (step d c m) ms

  handled-stopped :
      (w : Waiting) (error : Bool) (draw : d.Double) (c : DeviceClient d)
      → c.stopped ≡ true
      → ((handle d w error draw c).stopped ≡ true)
        × ((handle d w error draw c).events_sent ≡ c.events_sent)
        × ((handle d w error draw c).outstanding ≡ c.outstanding)
  unfolding on_connect on_tick on_delay on_written
  handled-stopped connecting error draw c e =
      let over : (error || c.stopped) ≡ true = or_true error e in rw over (e, refl, refl)
  handled-stopped ticking error draw c e =
      let over : (error || c.stopped) ≡ true = or_true error e in rw over (e, refl, refl)
  handled-stopped delaying error draw c e =
      let over : (error || c.stopped) ≡ true = or_true error e in rw over (e, refl, refl)
  handled-stopped writing error draw c e = (e, refl, refl)

  -- What a stopped client comes to: it stays stopped, sends nothing, and loses the handlers called.
  abbrev pub IsOver : DeviceClient d → DeviceClient d → ℕ → Type 0
  IsOver c after n =
      (after.stopped ≡ true)
      × (after.events_sent ≡ c.events_sent)
      × (length after.outstanding + n ≡ length c.outstanding)

  stopped_step :
      (c : DeviceClient d) (m : Move d) → c.stopped ≡ true → IsOver c (step d c m) (answers c m)
  unfolding step stop
  stopped_step c stops e = (refl, refl, omega arith)
  stopped_step c (completes i error draw) e = elim (Option-cases (take_at i c.outstanding)) [
    | inl absent ↦ rw (step, absent) (e, refl, omega (arith, ap found_there absent))
    | inr found ↦
        let left = record c { outstanding = found.0.1 } in
        let (over, same, fewer) = handled-stopped found.0.0 error draw left e in
        let one = take_at-length i c.outstanding found.1 in
        rw (step, found.1) (over, same, omega (arith, ap length fewer, one, ap found_there found.1))
  ]

  stopped_run :
      (c : DeviceClient d) (ms : List (Move d))
      → c.stopped ≡ true
      → IsOver c (run d c ms) (called c ms)
  unfolding run
  stopped_run c [] e = (e, refl, omega arith)
  stopped_run c (m ∷ ms) e =
      let (over, same, fewer) = stopped_step c m e in
      let (over', same', fewer') = stopped_run (step d c m) ms over in
      (over', same' ∙ same, omega (arith, fewer, fewer'))

  -- Once stop() is called, whatever handlers run then, with or without an error: the client stays
  -- stopped and sends no more events, no new operation begins, and each handler called leaves one
  -- fewer outstanding.
  pub stop-IsOver :
      (c : DeviceClient d) (ms : List (Move d))
      → IsOver c (run d (stop d c) ms) (called (stop d c) ms)
  unfolding stop
  stop-IsOver c ms = stopped_run (record c { stopped = true }) ms refl
