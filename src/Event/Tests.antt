-- ===== src/Event/Tests.antt =====
-- One event, over a library whose objects are lists of assignments, and which prints one object alone.
use edge_flow.Prelude.{
  ℕ, ◌≡◌, ◌↔◌, refl, Bool, true, false, ==_refl, Option, none, some, [], ◌∷◌, arith, if◌then◌else◌,
}
use edge_flow.Prelude.Int.{ℤ, pos}
use edge_flow.Prelude.Except.{Text}
use edge_flow.Prelude.Text.{codes, text_eq}
use edge_flow.Event.{Json, Event, field, read_fields, parse_event, object_of, serialize_event}
use edge_flow.Event.RoundTrip.{ReadsBack, parse_event-serialize_event}
use edge_flow.Event.Read.{IsRead, parse_event_iff}

data Value : Type 0 where
  nothing : Value
  integer : ℤ → Value
  words : Text → Value
  real : ℕ → Value
  assigned : Value → Text → Value → Value

abbrev lookup : Value → Text → Option Value
lookup (assigned j k v) l = let before = lookup j l in if text_eq k l then some v else before
lookup _ l = none

abbrev is_there : Option Value → Bool
is_there none = false
is_there (some v) = true

abbrev as_integer : Value → Option ℤ
as_integer (integer z) = some z
as_integer _ = none

abbrev as_words : Value → Option Text
as_words (words t) = some t
as_words _ = none

abbrev as_real : Value → Option ℕ
as_real (real x) = some x
as_real _ = none

-- The object of the event below.
abbrev printed : Value
printed =
    assigned
      (assigned
        (assigned
          (assigned
            (assigned
              (assigned (assigned nothing (codes "device_id") (integer (pos 7))) (codes "timestamp")
                (words (codes "noon")))
              (codes "temperature") (real 21))
            (codes "battery") (integer (pos 93)))
          (codes "latitude") (real 37))
        (codes "longitude") (real 122))
      (codes "event_type") (words (codes "telemetry"))

abbrev small_json : Json
small_json = record {
  Value = Value;
  Double = ℕ;
  parse = λ line. some printed;
  dump = λ v. codes "{}";
  null = nothing;
  contains = λ j k. is_there (lookup j k);
  at_key = lookup;
  assign = assigned;
  of_int = integer;
  of_text = words;
  of_double = real;
  get_int64 = as_integer;
  get_int = as_integer;
  get_text = as_words;
  get_double = as_real;
  is_finite = λ x. true;
}

text_eq_refl : (t : Text) → text_eq t t ≡ true
text_eq_refl [] = refl
text_eq_refl (c ∷ t) = rw (==_refl c) (text_eq_refl t)

small_json-ReadsBack : ReadsBack small_json
small_json-ReadsBack = record {
  at_same = λ j k v. rw (text_eq_refl k) refl;
  at_other = λ j k l v other. rw other refl;
  contains_there = λ j k v there. rw there refl;
  int64 = λ z h. refl;
  int = λ z h. refl;
  text = λ t. refl;
  double = λ x. refl;
}

abbrev noon : Event small_json
noon = record {
  device_id = pos 7;
  timestamp = codes "noon";
  temperature = 21;
  battery = pos 93;
  latitude = 37;
  longitude = 122;
  event_type = codes "telemetry";
}

same_object : some printed ≡ some (object_of small_json noon)
unfolding object_of
same_object = refl

parse_event-serialize_event_example :
    parse_event small_json (serialize_event small_json noon) ≡ some noon
parse_event-serialize_event_example =
    parse_event-serialize_event small_json small_json-ReadsBack noon same_object (omega arith)
      (omega arith) refl

parsed_noon : parse_event small_json (codes "{}") ≡ some noon
unfolding parse_event read_fields field
parsed_noon = refl

parse_event_iff_example :
    (parse_event small_json (codes "{}") ≡ some noon) ↔ IsRead small_json (codes "{}") noon
parse_event_iff_example = parse_event_iff small_json (codes "{}") noon
