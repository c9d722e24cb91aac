-- ===== src/Hass/Event/Payloads.antt =====
-- internal/hass/event.go: the typed payloads of an event, and back.
use busybar_bridge.Prelude.{◌≡◌, List, false, none, some, arith, not, if◌then◌else◌}
use busybar_bridge.Prelude.Decimal.{parse_int}
use busybar_bridge.Prelude.Int.{ℤ}
use busybar_bridge.Prelude.Map.{Value, str, int, int32, int64, float64, number, other, lookup}
use busybar_bridge.Prelude.Result.{Result, ok, err}
use busybar_bridge.Prelude.Text.{Text, codes, is_empty, text_eq}
use busybar_bridge.Hass.Event.{
  Event, ButtonPayload, SwitchPayload, EncoderPayload, event_type_button, event_type_switch,
  event_type_encoder, marshal, str_or_empty, button_to_event, switch_to_event, encoder_to_event,
}

-- The errors of the conversions, a constructor for each message.
pub data PayloadError : Type 0 where
  invalid_event_type : Text → PayloadError
  missing_button missing_action missing_position missing_delta : PayloadError
  invalid_delta unsupported_delta : PayloadError

pub to_button_payload : Event → Result PayloadError ButtonPayload
unfolding text_eq str_or_empty
to_button_payload e =
    if not (text_eq e.type event_type_button)
    then err (invalid_event_type e.type)
    else let btn = str_or_empty (codes "button") e.fields in
      let action = str_or_empty (codes "action") e.fields in
      if is_empty btn
      then err missing_button
      else if is_empty action
      then err missing_action
      else ok (record {
        device = e.device;
        type = e.type;
        button = btn;
        action = action;
        timestamp = e.timestamp;
      })

pub to_switch_payload : Event → Result PayloadError SwitchPayload
unfolding text_eq str_or_empty
to_switch_payload e =
    if not (text_eq e.type event_type_switch)
    then err (invalid_event_type e.type)
    else let pos = str_or_empty (codes "position") e.fields in
      if is_empty pos
      then err missing_position
      else ok (record { device = e.device; type = e.type; position = pos; timestamp = e.timestamp })

-- The type switch on the raw delta.
delta_of : Value → Result PayloadError ℤ
unfolding parse_int
delta_of (int n) = ok n
delta_of (int32 n) = ok n
delta_of (int64 n) = ok n
delta_of (float64 n) = ok n
delta_of (number s) = elim (parse_int s) [ none ↦ err invalid_delta | some n ↦ ok n ]
delta_of (str s) = err unsupported_delta
delta_of (other n) = err unsupported_delta

encoder_payload : Event → Result PayloadError ℤ → Result PayloadError EncoderPayload
encoder_payload e (err x) = err x
encoder_payload e (ok d) =
    ok (record { device = e.device; type = e.type; delta = d; timestamp = e.timestamp })

pub to_encoder_payload : Event → Result PayloadError EncoderPayload
unfolding text_eq lookup delta_of encoder_payload
to_encoder_payload e =
    if not (text_eq e.type event_type_encoder)
    then err (invalid_event_type e.type)
    else elim (lookup (codes "delta") e.fields) [
      | none ↦ err missing_delta
      | some v ↦ encoder_payload e (delta_of v)
    ]

-- The dynamic type of what `ToPayload` returns.
pub data Payload : Type 0 where
  button : ButtonPayload → Payload
  switch : SwitchPayload → Payload
  encoder : EncoderPayload → Payload
  object : List (Text × Value) → Payload

as_payload {ℓ} : {A : Type ℓ} → (A → Payload) → Result PayloadError A → Result PayloadError Payload
as_payload f (ok a) = ok (f a)
as_payload f (err e) = err e

pub to_payload : Event → Result PayloadError Payload
unfolding text_eq to_button_payload to_switch_payload to_encoder_payload as_payload marshal
to_payload e =
    if text_eq e.type event_type_button
    then as_payload button (to_button_payload e)
    else if text_eq e.type event_type_switch
    then as_payload switch (to_switch_payload e)
    else if text_eq e.type event_type_encoder
    then as_payload encoder (to_encoder_payload e)
    else ok (object (marshal e))

-- A button payload of the right type becomes an event and comes back the same, exactly if neither
-- its button nor its action is empty; otherwise the missing one is the error, the button first.
pub to_button_payload-button_to_event :
    (p : ButtonPayload)
    → p.type ≡ event_type_button
    → to_button_payload (button_to_event p) ≡ (
        if is_empty p.button
        then err missing_button
        else if is_empty p.action
        then err missing_action
        else ok p)
unfolding to_button_payload button_to_event
to_button_payload-button_to_event p h = ground arith

pub to_switch_payload-switch_to_event :
    (p : SwitchPayload)
    → p.type ≡ event_type_switch
    → to_switch_payload (switch_to_event p)
      ≡ (if is_empty p.position then err missing_position else ok p)
unfolding to_switch_payload switch_to_event
to_switch_payload-switch_to_event p h = ground arith

pub to_encoder_payload-encoder_to_event :
    (p : EncoderPayload)
    → p.type ≡ event_type_encoder
    → to_encoder_payload (encoder_to_event p) ≡ ok p
unfolding to_encoder_payload encoder_to_event
to_encoder_payload-encoder_to_event p h = ground arith

-- An event made from a typed payload, of its kind's type and with a button and action, or a position,
-- that is not empty, converts back to that payload under its own dynamic type; so for all three
-- kinds.
pub to_payload-to_event :
    (b : ButtonPayload) (s : SwitchPayload) (e : EncoderPayload)
    → b.type ≡ event_type_button
    → s.type ≡ event_type_switch
    → e.type ≡ event_type_encoder
    → is_empty b.button ≡ false
    → is_empty b.action ≡ false
    → is_empty s.position ≡ false
    → (to_payload (button_to_event b) ≡ ok (button b))
      × (to_payload (switch_to_event s) ≡ ok (switch s))
      × (to_payload (encoder_to_event e) ≡ ok (encoder e))
unfolding to_payload button_to_event switch_to_event encoder_to_event
to_payload-to_event b s e hb hs he h₁ h₂ h₃ = (ground arith, ground arith, ground arith)
