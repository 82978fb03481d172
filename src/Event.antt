-- ===== src/Event.antt =====
-- Events: core/include/edgeflow/event.hpp and core/src/event.cpp. The JSON library and its values are a
-- parameter: its calls, with `none` for what throws json::exception.
pub mod Read
pub mod RoundTrip
mod Tests
use edge_flow.Prelude.{
  ℕ, ◌-◌, ◌^◌, ◌<◌, ◌≡◌, refl, sym, ◌∙◌, ap, ◌≢◌, Bool, true, false, not, ◌&&◌, ◌||◌, Option, none,
  some, List, [], ◌∷◌, if◌then◌else◌, Bool-cases, Option-cases, inl, inr, All,
}
use edge_flow.Prelude.Int.{ℤ, pos, negsuc}
use edge_flow.Prelude.Except.{Text}
use edge_flow.Prelude.Text.{codes}
use edge_flow.Prelude.Options.{◌>>=◌}

pub record Json : Type 1 where
  pub Value : Type 0
  pub Double : Type 0
  pub parse : Text → Option Value
  pub dump : Value → Text
  pub null : Value
  pub contains : Value → Text → Bool
  pub at_key : Value → Text → Option Value  -- at
  pub assign : Value → Text → Value → Value  -- j[key] = value
  pub of_int : ℤ → Value
  pub of_text : Text → Value
  pub of_double : Double → Value
  pub get_int64 : Value → Option ℤ
  pub get_int : Value → Option ℤ
  pub get_text : Value → Option Text
  pub get_double : Value → Option Double
  pub is_finite : Double → Bool  -- std::isfinite

module _ (json : Json) where
  open json use {Value, Double, contains, at_key, assign, is_finite}

  pub record Event : Type 0 where
    pub device_id : ℤ
    pub timestamp : Text
    pub temperature : Double
    pub battery : ℤ
    pub latitude : Double
    pub longitude : Double
    pub event_type : Text

  -- The first test: all seven fields are there.
  abbrev pub has_fields : Value → Bool
  has_fields j =
      contains j (codes "device_id")
      && (contains j (codes "timestamp")
          && (contains j (codes "temperature")
              && (contains j (codes "battery")
                  && (contains j (codes "latitude")
                      && (contains j (codes "longitude") && contains j (codes "event_type"))))))

  -- at(key) and then get<T>()
  unfoldable pub field {ℓ} : {T : Type ℓ} → (Value → Option T) → Value → Text → Option T
  field get j key = elim (at_key j key) [ none ↦ none | some v ↦ get v ]

  abbrev pub all_finite : Event → Bool
  all_finite e = is_finite e.temperature && (is_finite e.latitude && is_finite e.longitude)

  unfoldable pub read_fields : Value → Option Event
  read_fields j = do
    device_id ← field json.get_int64 j (codes "device_id")
    timestamp ← field json.get_text j (codes "timestamp")
    temperature ← field json.get_double j (codes "temperature")
    battery ← field json.get_int j (codes "battery")
    latitude ← field json.get_double j (codes "latitude")
    longitude ← field json.get_double j (codes "longitude")
    event_type ← field json.get_text j (codes "event_type")
    let event : Event = record {
      device_id = device_id;
      timestamp = timestamp;
      temperature = temperature;
      battery = battery;
      latitude = latitude;
      longitude = longitude;
      event_type = event_type;
    }
    if all_finite event then some event else none

  unfoldable pub parse_event : Text → Option Event
  parse_event line = do j ← json.parse line; if has_fields j then read_fields j else none

  unfoldable pub object_of : Event → Value
  object_of e =
      let j1 = assign json.null (codes "device_id") (json.of_int e.device_id) in
      let j2 = assign j1 (codes "timestamp") (json.of_text e.timestamp) in
      let j3 = assign j2 (codes "temperature") (json.of_double e.temperature) in
      let j4 = assign j3 (codes "battery") (json.of_int e.battery) in
      let j5 = assign j4 (codes "latitude") (json.of_double e.latitude) in
      let j6 = assign j5 (codes "longitude") (json.of_double e.longitude) in
      assign j6 (codes "event_type") (json.of_text e.event_type)

  unfoldable pub serialize_event : Event → Text
  serialize_event e = json.dump (object_of e)
