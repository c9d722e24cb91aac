-- ===== src/Runner/Translate/Agreement.antt =====
-- The two encodings of a normalized event: `TranslateEvent` with `hass.Event.MarshalJSON`, and
-- `pb.ToHomeAssistantJSON`.
mod Tests
use mathlib.Core.Path.{subst}
use busybar_bridge.Prelude.{
  ℕ, ◌≡◌, refl, sym, ◌∙◌, ◌≢◌, List, [], ◌∷◌, ◌++◌, Option, none, some, arith, Option-cases, inl,
  inr, Bool, true, false, if◌then◌else◌,
}
use busybar_bridge.Prelude.Int.{ℤ, pos}
use busybar_bridge.Prelude.Map.{Value, str, int, lookup, insert, lookup-insert}
use busybar_bridge.Prelude.Result.{Result, ok, err}
use busybar_bridge.Prelude.Text.{Text, codes, is_empty, text_eq, text_eq_iff}
use busybar_bridge.Proto.Normalized.{
  NormalizedEvent, EventOneof, button, switch, encoder, Button, ButtonAction, SwitchPosition,
  button_ok, button_back, button_start, button_unknown, action_unknown, action_press,
  action_release, switch_unknown, switch_busy, switch_custom, switch_off, switch_apps,
  switch_settings,
}
use busybar_bridge.Proto.Event.{to_home_assistant_json, button_text, action_text, position_text}
use busybar_bridge.Busybar.Decoder.Events.{IsComplete}
use busybar_bridge.Hass.Event.{
  Event, marshal, new_button_event, new_switch_event, new_encoder_event, button_fields,
  switch_fields, encoder_fields,
}
use busybar_bridge.Runner.Translate.{translate_event, btn_str, act_str, pos_str, inner_device}

-- Both encoders accept the event, and their objects hold the same value under every key.
pub record Agrees (norm : NormalizedEvent) (now : ℤ) : Type 0 where
  pub event : Event
  pub json : List (Text × Value)
  pub translated : translate_event (some norm) now ≡ some event
  pub encoded : to_home_assistant_json (some norm) ≡ ok json
  pub same : (k : Text) → lookup k (marshal event) ≡ lookup k json

btn_str-button_text : (b : Button) → button_text b ≡ btn_str b
unfolding btn_str button_text
btn_str-button_text button_ok = refl
btn_str-button_text button_back = refl
btn_str-button_text button_start = refl
btn_str-button_text button_unknown = refl
btn_str-button_text (Button.other n) = refl

act_str-action_text : (b : ButtonAction) → action_text b ≡ act_str b
unfolding act_str action_text
act_str-action_text action_press = refl
act_str-action_text action_release = refl
act_str-action_text action_unknown = refl
act_str-action_text (ButtonAction.other n) = refl

pos_str-position_text : (p : SwitchPosition) → position_text p ≡ pos_str p
unfolding pos_str position_text
pos_str-position_text switch_busy = refl
pos_str-position_text switch_custom = refl
pos_str-position_text switch_off = refl
pos_str-position_text switch_apps = refl
pos_str-position_text switch_settings = refl
pos_str-position_text switch_unknown = refl
pos_str-position_text (SwitchPosition.other n) = refl

-- The three standard fields, around the fields of a kind of event.
abbrev json_of : Text → Text → ℤ → List (Text × Value) → List (Text × Value)
json_of device type ts fields =
    (codes "device", str device) ∷ (codes "type", str type) ∷ fields
    ++ (codes "timestamp", int ts) ∷ []

lookup-append :
    (k : Text) (m n : List (Text × Value))
    → lookup k (m ++ n) ≡ elim (lookup k m) [ none ↦ lookup k n | some v ↦ some v ]
unfolding lookup
lookup-append k [] n = refl
lookup-append k ((j, v) ∷ m) n = ground (arith, lookup-append k m n)

inner_device_lem : (x : ℕ) (xs d : Text) → d ≡ x ∷ xs → inner_device (x ∷ xs) d ≡ x ∷ xs
unfolding inner_device
inner_device_lem x xs d e = ground arith

-- Two tables of the standard fields and others hold the same under every key, in either order.
same-json_of :
    (device type : Text) (ts : ℤ) (fields : List (Text × Value)) (k : Text)
    → lookup (codes "device") fields ≡ none
    → lookup (codes "type") fields ≡ none
    → lookup (codes "timestamp") fields ≡ none
    → lookup k (
        insert
          (codes "timestamp")
          (int ts)
          (insert (codes "type") (str type) (insert (codes "device") (str device) fields)))
      ≡ lookup k (json_of device type ts fields)
unfolding lookup
same-json_of device type ts fields k d t m = ground (
  arith,
  text_eq_iff (codes "device") k,
  text_eq_iff (codes "type") k,
  text_eq_iff (codes "timestamp") k,
  lookup-insert (codes "timestamp") k (int ts)
      (insert (codes "type") (str type) (insert (codes "device") (str device) fields)),
  lookup-insert (codes "type") k (str type) (insert (codes "device") (str device) fields),
  lookup-insert (codes "device") k (str device) fields,
  lookup-append k fields ((codes "timestamp", int ts) ∷ []),
)

member-Agrees :
    (device : Text) (ts now : ℤ) (o : EventOneof)
    → device ≢ []
    → IsComplete device (record { device = device; timestamp = ts; event = some o })
    → Agrees (record { device = device; timestamp = ts; event = some o }) now
unfolding translate_event to_home_assistant_json marshal new_button_event new_switch_event
    new_encoder_event lookup text_eq
member-Agrees [] ts now o h v = absurd (h refl)
member-Agrees (x ∷ xs) ts now (button none) h v = absurd v.2
member-Agrees (x ∷ xs) ts now (button (some b)) h v = record {
  event = new_button_event (x ∷ xs) (btn_str b.button) (act_str b.action) ts now;
  json = json_of (x ∷ xs) (codes "button") ts (button_fields (btn_str b.button) (act_str b.action));
  translated = ground (arith, inner_device_lem x xs b.device v.2.0);
  encoded = ground (arith, btn_str-button_text b.button, act_str-action_text b.action);
  same = λ k.
      same-json_of (x ∷ xs) (codes "button") ts
        (button_fields (btn_str b.button) (act_str b.action)) k refl refl refl;
}
member-Agrees (x ∷ xs) ts now (switch none) h v = absurd v.2
member-Agrees (x ∷ xs) ts now (switch (some b)) h v = record {
  event = new_switch_event (x ∷ xs) (pos_str b.position) ts now;
  json = json_of (x ∷ xs) (codes "switch") ts (switch_fields (pos_str b.position));
  translated = ground (arith, inner_device_lem x xs b.device v.2.0);
  encoded = ground (arith, pos_str-position_text b.position);
  same = λ k.
      same-json_of (x ∷ xs) (codes "switch") ts (switch_fields (pos_str b.position)) k refl refl
        refl;
}
member-Agrees (x ∷ xs) ts now (encoder none) h v = absurd v.2
member-Agrees (x ∷ xs) ts now (encoder (some b)) h v = record {
  event = new_encoder_event (x ∷ xs) b.delta ts now;
  json = json_of (x ∷ xs) (codes "encoder") ts (encoder_fields b.delta);
  translated = ground (arith, inner_device_lem x xs b.device v.2.0);
  encoded = ground arith;
  same = λ k. same-json_of (x ∷ xs) (codes "encoder") ts (encoder_fields b.delta) k refl refl refl;
}

event-Agrees :
    (device : Text) (ts now : ℤ) (o : Option EventOneof)
    → device ≢ []
    → IsComplete device (record { device = device; timestamp = ts; event = o })
    → Agrees (record { device = device; timestamp = ts; event = o }) now
event-Agrees device ts now none h v = absurd v.2
event-Agrees device ts now (some o) h v = member-Agrees device ts now o h v

-- The bridge encodes an event in two ways, `pb.ToHomeAssistantJSON`, and `TranslateEvent` with
-- `hass.Event.MarshalJSON`. On a complete event of a named device, as `Decode` returns them, both
-- succeed and the two JSON objects hold the same value under every key.
pub translate_event-Agrees :
    (device : Text) (norm : NormalizedEvent) (now : ℤ)
    → device ≢ []
    → IsComplete device norm
    → Agrees norm now
translate_event-Agrees device norm now h v =
    event-Agrees norm.device norm.timestamp now norm.event (λ e. h (sym v.0 ∙ e))
      (subst (λ d. IsComplete d norm) (sym v.0) v)
