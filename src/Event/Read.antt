-- ===== src/Event/Read.antt =====
-- What parse_event (core/src/event.cpp) accepts, whatever the JSON library is.
use mathlib.Core.Path.{subst}
use edge_flow.Prelude.{◌≡◌, refl, Bool, true, false, ◌&&◌, ◌↔◌, Option, none, some, if◌then◌else◌}
use edge_flow.Prelude.Except.{Text}
use edge_flow.Prelude.Text.{codes}
use edge_flow.Prelude.Options.{>>=-eq-some}
use edge_flow.Event.{Json, Event, has_fields, field, all_finite, read_fields, parse_event}

-- A result behind a test is one of a test that holds.
guarded :
    {T : Type 0} (b : Bool) (o : Option T) {x : T}
    → (if b then o else none) ≡ some x
    → (b ≡ true) × (o ≡ some x)
guarded true o e = (refl, e)
guarded false o e = cc

some_injective : {T : Type 0} {x y : T} → some x ≡ some y → x ≡ y
some_injective e = cc

both : (a b : Bool) → (a && b) ≡ true → (a ≡ true) × (b ≡ true)
both true b e = (refl, e)
both false b e = cc

module _ (json : Json) where
  open json use {Value, contains, at_key, is_finite}

  -- The object has a value for the key, and the value is read as `x`.
  abbrev pub Holds : {T : Type 0} → (Value → Option T) → Value → Text → T → Type 0
  Holds get object key x = (v : Value) × (at_key object key ≡ some v) × (get v ≡ some x)

  pub field_lem :
      {T : Type 0} (get : Value → Option T) {j v : Value} {k : Text} {x : T}
      → at_key j k ≡ some v
      → get v ≡ some x
      → field json get j k ≡ some x
  unfolding field
  field_lem get there read = rw (field, there) read

  Holds-field :
      {T : Type 0} (get : Value → Option T) (j : Value) (k : Text) {x : T}
      → Holds get j k x
      → field json get j k ≡ some x
  Holds-field get j k (v, there, read) = field_lem get there read

  field-Holds :
      {T : Type 0} (get : Value → Option T) (j : Value) (k : Text) {x : T}
      → field json get j k ≡ some x
      → Holds get j k x
  unfolding field
  field-Holds {T} get j k {x} e = go (at_key j k) refl e
    where
      go :
          (o : Option Value)
          → at_key j k ≡ o
          → (elim o [ none ↦ none | some v ↦ get v ]) ≡ some x
          → Holds get j k x
      go none found e = cc
      go (some v) found e = (v, found, e)

  -- The line is an object with each of the seven keys; each field of the event is what the value at its
  -- key is read as; and the three doubles are finite.
  pub record IsRead (line : Text) (e : Event json) : Type 0 where
    pub object : Value
    pub parsed : json.parse line ≡ some object
    pub device_id_there : contains object (codes "device_id") ≡ true
    pub timestamp_there : contains object (codes "timestamp") ≡ true
    pub temperature_there : contains object (codes "temperature") ≡ true
    pub battery_there : contains object (codes "battery") ≡ true
    pub latitude_there : contains object (codes "latitude") ≡ true
    pub longitude_there : contains object (codes "longitude") ≡ true
    pub event_type_there : contains object (codes "event_type") ≡ true
    pub device_id_read : Holds json.get_int64 object (codes "device_id") e.device_id
    pub timestamp_read : Holds json.get_text object (codes "timestamp") e.timestamp
    pub temperature_read : Holds json.get_double object (codes "temperature") e.temperature
    pub battery_read : Holds json.get_int object (codes "battery") e.battery
    pub latitude_read : Holds json.get_double object (codes "latitude") e.latitude
    pub longitude_read : Holds json.get_double object (codes "longitude") e.longitude
    pub event_type_read : Holds json.get_text object (codes "event_type") e.event_type
    pub temperature_finite : is_finite e.temperature ≡ true
    pub latitude_finite : is_finite e.latitude ≡ true
    pub longitude_finite : is_finite e.longitude ≡ true

  accepts : (line : Text) {e : Event json} → parse_event json line ≡ some e → IsRead line e
  unfolding parse_event read_fields
  accepts line {e} returned =
      let (j, parsed, tested) = >>=-eq-some (json.parse line) _ returned in
      let (there, read) = guarded (has_fields json j) _ tested in
      let (here0, more0) = both (contains j (codes "device_id")) _ there in
      let (here1, more1) = both (contains j (codes "timestamp")) _ more0 in
      let (here2, more2) = both (contains j (codes "temperature")) _ more1 in
      let (here3, more3) = both (contains j (codes "battery")) _ more2 in
      let (here4, more4) = both (contains j (codes "latitude")) _ more3 in
      let (here5, more5) = both (contains j (codes "longitude")) _ more4 in
      let here6 = more5 in
      let (x0, got0, rest0) =
        >>=-eq-some (field json json.get_int64 j (codes "device_id")) _ read in
      let (x1, got1, rest1) =
        >>=-eq-some (field json json.get_text j (codes "timestamp")) _ rest0 in
      let (x2, got2, rest2) =
        >>=-eq-some (field json json.get_double j (codes "temperature")) _ rest1 in
      let (x3, got3, rest3) = >>=-eq-some (field json json.get_int j (codes "battery")) _ rest2 in
      let (x4, got4, rest4) =
        >>=-eq-some (field json json.get_double j (codes "latitude")) _ rest3 in
      let (x5, got5, rest5) =
        >>=-eq-some (field json json.get_double j (codes "longitude")) _ rest4 in
      let (x6, got6, rest6) =
        >>=-eq-some (field json json.get_text j (codes "event_type")) _ rest5 in
      let made : Event json = record {
        device_id = x0;
        timestamp = x1;
        temperature = x2;
        battery = x3;
        latitude = x4;
        longitude = x5;
        event_type = x6;
      } in
      let (finite, same) = guarded (all_finite json made) (some made) rest6 in
      let (warm, placed) = both (is_finite x2) _ finite in
      let (north, east) = both (is_finite x4) _ placed in
      let whole : made ≡ e = some_injective same in
      subst (IsRead line) whole (record {
        object = j;
        parsed = parsed;
        device_id_there = here0;
        timestamp_there = here1;
        temperature_there = here2;
        battery_there = here3;
        latitude_there = here4;
        longitude_there = here5;
        event_type_there = here6;
        device_id_read = field-Holds json.get_int64 j (codes "device_id") got0;
        timestamp_read = field-Holds json.get_text j (codes "timestamp") got1;
        temperature_read = field-Holds json.get_double j (codes "temperature") got2;
        battery_read = field-Holds json.get_int j (codes "battery") got3;
        latitude_read = field-Holds json.get_double j (codes "latitude") got4;
        longitude_read = field-Holds json.get_double j (codes "longitude") got5;
        event_type_read = field-Holds json.get_text j (codes "event_type") got6;
        temperature_finite = warm;
        latitude_finite = north;
        longitude_finite = east;
      })

  is_accepted : (line : Text) (e : Event json) → IsRead line e → parse_event json line ≡ some e
  unfolding parse_event read_fields
  is_accepted line e h =
      rw
        (
          h.parsed,
          h.device_id_there,
          h.timestamp_there,
          h.temperature_there,
          h.battery_there,
          h.latitude_there,
          h.longitude_there,
          h.event_type_there,
          Holds-field json.get_int64 h.object (codes "device_id") h.device_id_read,
          Holds-field json.get_text h.object (codes "timestamp") h.timestamp_read,
          Holds-field json.get_double h.object (codes "temperature") h.temperature_read,
          Holds-field json.get_int h.object (codes "battery") h.battery_read,
          Holds-field json.get_double h.object (codes "latitude") h.latitude_read,
          Holds-field json.get_double h.object (codes "longitude") h.longitude_read,
          Holds-field json.get_text h.object (codes "event_type") h.event_type_read,
          h.temperature_finite,
          h.latitude_finite,
          h.longitude_finite,
        )
        refl

  -- Whatever the library is: parse_event returns an event exactly if the line is an object with each of
  -- the seven keys, each field of the event is what the value at its key is read as, and the temperature,
  -- the latitude and the longitude are finite.
  pub parse_event_iff :
      (line : Text) (e : Event json) → (parse_event json line ≡ some e) ↔ IsRead line e
  parse_event_iff line e = (accepts line, is_accepted line e)
