-- ===== src/Event/RoundTrip.antt =====
-- parse_event and serialize_event (core/src/event.cpp), over what the JSON library documents.
use edge_flow.Prelude.{ℕ, ◌^◌, ◌<◌, ◌≡◌, refl, ◌∙◌, true, false, some}
use edge_flow.Prelude.Int.{ℤ, pos, negsuc}
use edge_flow.Prelude.Except.{Text}
use edge_flow.Prelude.Text.{codes, text_eq}
use edge_flow.Event.Read.{field_lem}
use edge_flow.Event.{
  Json, Event, has_fields, all_finite, read_fields, parse_event, object_of, serialize_event,
}

-- A signed integer of 64, or of 32 bits.
abbrev pub IsSigned : ℕ → ℤ → Type 0
IsSigned bits (pos n) = n < 2 ^ bits
IsSigned bits (negsuc n) = n < 2 ^ bits

-- What the library documents of an object, and of values that are read as what they were made of.
module _ (json : Json) where
  open json use {Value, Double, contains, at_key, assign}

  pub record ReadsBack : Type 0 where
    pub at_same : (j : Value) (k : Text) (v : Value) → at_key (assign j k v) k ≡ some v
    pub at_other :
        (j : Value) (k l : Text) (v : Value)
        → text_eq k l ≡ false
        → at_key (assign j k v) l ≡ at_key j l
    pub contains_there :
        (j : Value) (k : Text) (v : Value) → at_key j k ≡ some v → contains j k ≡ true
    pub int64 : (z : ℤ) → IsSigned 63 z → json.get_int64 (json.of_int z) ≡ some z
    pub int : (z : ℤ) → IsSigned 31 z → json.get_int (json.of_int z) ≡ some z
    pub text : (t : Text) → json.get_text (json.of_text t) ≡ some t
    pub double : (x : Double) → json.get_double (json.of_double x) ≡ some x

module _ (json : Json) (lib : ReadsBack json) where
  open lib use {at_same, at_other, contains_there, int64, int, text, double}

  -- A field is still there, and the same, after another one is assigned.
  kept :
      {j v : json.Value} {l : Text} (k : Text) (w : json.Value)
      → text_eq k l ≡ false
      → json.at_key j l ≡ some v
      → json.at_key (json.assign j k w) l ≡ some v
  kept k w other there = at_other _ k _ w other ∙ there

  module _ (e : Event json) where
    device_id_at :
        json.at_key (object_of json e) (codes "device_id") ≡ some (json.of_int e.device_id)
    unfolding object_of
    device_id_at = kept (codes "event_type") _ refl (
        kept (codes "longitude") _ refl (
          kept (codes "latitude") _ refl (
            kept (codes "battery") _ refl (
              kept (codes "temperature") _ refl
                (kept (codes "timestamp") _ refl (at_same _ (codes "device_id") _))))))

    timestamp_at :
        json.at_key (object_of json e) (codes "timestamp") ≡ some (json.of_text e.timestamp)
    unfolding object_of
    timestamp_at = kept (codes "event_type") _ refl (
        kept (codes "longitude") _ refl (
          kept (codes "latitude") _ refl (
            kept (codes "battery") _ refl
              (kept (codes "temperature") _ refl (at_same _ (codes "timestamp") _)))))

    temperature_at :
        json.at_key (object_of json e) (codes "temperature") ≡ some (json.of_double e.temperature)
    unfolding object_of
    temperature_at = kept (codes "event_type") _ refl (
        kept (codes "longitude") _ refl (
          kept (codes "latitude") _ refl
            (kept (codes "battery") _ refl (at_same _ (codes "temperature") _))))

    battery_at : json.at_key (object_of json e) (codes "battery") ≡ some (json.of_int e.battery)
    unfolding object_of
    battery_at = kept (codes "event_type") _ refl (
        kept (codes "longitude") _ refl
          (kept (codes "latitude") _ refl (at_same _ (codes "battery") _)))

    latitude_at :
        json.at_key (object_of json e) (codes "latitude") ≡ some (json.of_double e.latitude)
    unfolding object_of
    latitude_at =
        kept (codes "event_type") _ refl
          (kept (codes "longitude") _ refl (at_same _ (codes "latitude") _))

    longitude_at :
        json.at_key (object_of json e) (codes "longitude") ≡ some (json.of_double e.longitude)
    unfolding object_of
    longitude_at = kept (codes "event_type") _ refl (at_same _ (codes "longitude") _)

    event_type_at :
        json.at_key (object_of json e) (codes "event_type") ≡ some (json.of_text e.event_type)
    unfolding object_of
    event_type_at = at_same _ (codes "event_type") _

    object_of-has_fields : has_fields json (object_of json e) ≡ true
    object_of-has_fields =
        rw
          (
            contains_there _ (codes "device_id") _ device_id_at,
            contains_there _ (codes "timestamp") _ timestamp_at,
            contains_there _ (codes "temperature") _ temperature_at,
            contains_there _ (codes "battery") _ battery_at,
            contains_there _ (codes "latitude") _ latitude_at,
            contains_there _ (codes "longitude") _ longitude_at,
            contains_there _ (codes "event_type") _ event_type_at,
          )
          refl

    read_fields-object_of :
        IsSigned 63 e.device_id
        → IsSigned 31 e.battery
        → all_finite json e ≡ true
        → read_fields json (object_of json e) ≡ some e
    unfolding read_fields
    read_fields-object_of long short finite =
        rw
          (
            field_lem json json.get_int64 device_id_at (int64 _ long),
            field_lem json json.get_text timestamp_at (text _),
            field_lem json json.get_double temperature_at (double _),
            field_lem json json.get_int battery_at (int _ short),
            field_lem json json.get_double latitude_at (double _),
            field_lem json json.get_double longitude_at (double _),
            field_lem json json.get_text event_type_at (text _),
            finite,
          )
          refl

    -- With a library that reads back what it made and, of the object of the event, what it printed: an
    -- event with numbers of 64 and of 32 bits and finite doubles comes back from its line.
    pub parse_event-serialize_event :
        json.parse (json.dump (object_of json e)) ≡ some (object_of json e)
        → IsSigned 63 e.device_id
        → IsSigned 31 e.battery
        → all_finite json e ≡ true
        → parse_event json (serialize_event json e) ≡ some e
    unfolding parse_event serialize_event
    parse_event-serialize_event printed long short finite =
        rw (printed, object_of-has_fields) (read_fields-object_of long short finite)
