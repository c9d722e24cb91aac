-- ===== src/Hass/Event.antt =====
-- internal/hass/event.go: the events that are forwarded to Home Assistant.
-- `MarshalJSON` and `UnmarshalJSON` are modelled between the event and the object that
-- `encoding/json` writes or has read; `CreatedAt` is set from the argument `now`.
pub mod Payloads
pub mod RoundTrip
mod Tests
use busybar_bridge.Prelude.{ℕ, ◌≡◌, List, [], ◌∷◌, Option, none, some, if◌then◌else◌}
use busybar_bridge.Prelude.Decimal.{parse_int}
use busybar_bridge.Prelude.Int.{ℤ, pos}
use busybar_bridge.Prelude.Map.{
  Value, str, int, int32, int64, float64, number, other, lookup, insert, delete,
}
use busybar_bridge.Prelude.Result.{Result, ok, err}
use busybar_bridge.Prelude.Text.{Text, codes, is_empty, text_eq}
use busybar_bridge.Telemetry.Types.{zero_time}

-- EventType
abbrev pub event_type_button : Text
event_type_button = codes "button"

abbrev pub event_type_switch : Text
event_type_switch = codes "switch"

abbrev pub event_type_encoder : Text
event_type_encoder = codes "encoder"

-- A nil `Data` is the empty map: no operation tells them apart.
pub record Event : Type 0 where
  pub id : Text
  pub device : Text
  pub type : Text
  pub timestamp : ℤ
  pub created_at : ℤ
  pub fields : List (Text × Value)
  pub trace_id : ℕ

pub record ButtonPayload : Type 0 where
  pub device : Text
  pub type : Text
  pub button : Text
  pub action : Text
  pub timestamp : ℤ

pub record SwitchPayload : Type 0 where
  pub device : Text
  pub type : Text
  pub position : Text
  pub timestamp : ℤ

pub record EncoderPayload : Type 0 where
  pub device : Text
  pub type : Text
  pub delta : ℤ
  pub timestamp : ℤ

make_event : Text → Text → ℤ → ℤ → List (Text × Value) → Event
make_event device type ts created_at fields = record {
  id = [];
  device = device;
  type = type;
  timestamp = ts;
  created_at = created_at;
  fields = fields;
  trace_id = 0;
}

abbrev pub button_fields : Text → Text → List (Text × Value)
button_fields button action = (codes "button", str button) ∷ (codes "action", str action) ∷ []

abbrev pub switch_fields : Text → List (Text × Value)
switch_fields position = (codes "position", str position) ∷ []

abbrev pub encoder_fields : ℤ → List (Text × Value)
encoder_fields delta = (codes "delta", int delta) ∷ []

-- The `ToEvent` methods leave `CreatedAt` zero.
pub button_to_event : ButtonPayload → Event
unfolding make_event
button_to_event p =
    make_event p.device event_type_button p.timestamp zero_time (button_fields p.button p.action)

pub switch_to_event : SwitchPayload → Event
unfolding make_event
switch_to_event p =
    make_event p.device event_type_switch p.timestamp zero_time (switch_fields p.position)

pub encoder_to_event : EncoderPayload → Event
unfolding make_event
encoder_to_event p =
    make_event p.device event_type_encoder p.timestamp zero_time (encoder_fields p.delta)

unfoldable pub new_button_event : Text → Text → Text → ℤ → ℤ → Event
unfolding make_event
new_button_event device button action ts now =
    make_event device event_type_button ts now (button_fields button action)

unfoldable pub new_switch_event : Text → Text → ℤ → ℤ → Event
unfolding make_event
new_switch_event device position ts now =
    make_event device event_type_switch ts now (switch_fields position)

unfoldable pub new_encoder_event : Text → ℤ → ℤ → ℤ → Event
unfolding make_event
new_encoder_event device delta ts now =
    make_event device event_type_encoder ts now (encoder_fields delta)

-- The map that `MarshalJSON` hands to `json.Marshal`: the standard fields overwrite those of `Data`.
unfoldable pub marshal : Event → List (Text × Value)
marshal e =
    insert (codes "timestamp") (int e.timestamp)
      (insert (codes "type") (str e.type) (insert (codes "device") (str e.device) e.fields))

-- `v, ok := m[k].(string)`
get_str : Text → List (Text × Value) → Option Text
unfolding lookup
get_str k m = elim (lookup k m) [ none ↦ none | some v ↦ elim v [ str s ↦ some s | _ ↦ none ] ]

-- `v, _ := m[k].(string)`
str_or_empty : Text → List (Text × Value) → Text
unfolding get_str
str_or_empty k m = elim (get_str k m) [ none ↦ [] | some s ↦ s ]

read_device : Event → List (Text × Value) → Event × List (Text × Value)
unfolding get_str delete
read_device e raw = elim (get_str (codes "device") raw) [
  | none ↦ (e, raw)
  | some v ↦ (record e { device = v }, delete (codes "device") raw)
]

read_type : Event → List (Text × Value) → Event × List (Text × Value)
unfolding get_str delete
read_type e raw = elim (get_str (codes "type") raw) [
  | none ↦ (e, raw)
  | some v ↦ (record e { type = v }, delete (codes "type") raw)
]

-- The type switch on the timestamp; other types leave the field as it was.
timestamp_of : Value → ℤ → ℤ
unfolding parse_int
timestamp_of (float64 n) old = n
timestamp_of (int64 n) old = n
timestamp_of (number s) old = elim (parse_int s) [ none ↦ old | some n ↦ n ]
timestamp_of _ old = old

read_timestamp : Event → List (Text × Value) → Event × List (Text × Value)
unfolding timestamp_of lookup delete
read_timestamp e raw = elim (lookup (codes "timestamp") raw) [
  | none ↦ (e, raw)
  | some v ↦ (record e { timestamp = timestamp_of v e.timestamp }, delete (codes "timestamp") raw)
]

-- `UnmarshalJSON` of the receiver `e`, with the object that `json.Unmarshal` reads, or its error.
pub unmarshal : Result Text (List (Text × Value)) → Event → Result Text Event
unfolding read_device read_type read_timestamp
unmarshal (err m) e = err m
unmarshal (ok raw) e =
    let (e₁, raw₁) = read_device e raw in
    let (e₂, raw₂) = read_type e₁ raw₁ in
    let (e₃, raw₃) = read_timestamp e₂ raw₂ in ok (record e₃ { fields = raw₃ })
