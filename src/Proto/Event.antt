-- ===== src/Proto/Event.antt =====
-- pkg/pb/event.go: a normalized event as the JSON object that Home Assistant is sent.
-- The result is the object that `json.Marshal` is given: its fields in order.
use busybar_bridge.Prelude.{List, [], ◌∷◌, Option, none, some, if◌then◌else◌}
use busybar_bridge.Prelude.Int.{ℤ, pos, eq_ℤ}
use busybar_bridge.Prelude.Map.{Value, str, int}
use busybar_bridge.Prelude.Result.{Result, ok, err}
use busybar_bridge.Prelude.Text.{Text, codes, is_empty}
use busybar_bridge.Proto.Normalized.{
  Button, ButtonAction, SwitchPosition, NormalizedEvent, EventOneof, button_ok, button_back,
  button_start, action_press, action_release, switch_busy, switch_custom, switch_off, switch_apps,
  switch_settings, button, switch, encoder,
}

pub record HomeAssistantButtonPayload : Type 0 where
  pub device : Text
  pub type : Text
  pub button : Text
  pub action : Text
  pub timestamp : ℤ

pub record HomeAssistantSwitchPayload : Type 0 where
  pub device : Text
  pub type : Text
  pub position : Text
  pub timestamp : ℤ

pub record HomeAssistantEncoderPayload : Type 0 where
  pub device : Text
  pub type : Text
  pub delta : ℤ
  pub timestamp : ℤ

-- What the struct tags make of a payload.
marshal_button : HomeAssistantButtonPayload → List (Text × Value)
marshal_button p =
    (codes "device", str p.device)
    ∷ (codes "type", str p.type)
    ∷ (codes "button", str p.button)
    ∷ (codes "action", str p.action)
    ∷ (codes "timestamp", int p.timestamp)
    ∷ []

marshal_switch : HomeAssistantSwitchPayload → List (Text × Value)
marshal_switch p =
    (codes "device", str p.device)
    ∷ (codes "type", str p.type)
    ∷ (codes "position", str p.position)
    ∷ (codes "timestamp", int p.timestamp)
    ∷ []

marshal_encoder : HomeAssistantEncoderPayload → List (Text × Value)
marshal_encoder p =
    (codes "device", str p.device)
    ∷ (codes "type", str p.type)
    ∷ (codes "delta", int p.delta)
    ∷ (codes "timestamp", int p.timestamp)
    ∷ []

unfoldable pub button_text : Button → Text
button_text button_ok = codes "ok"
button_text button_back = codes "back"
button_text button_start = codes "start"
button_text _ = codes "unknown"

unfoldable pub action_text : ButtonAction → Text
action_text action_press = codes "press"
action_text action_release = codes "release"
action_text _ = codes "unknown"

unfoldable pub position_text : SwitchPosition → Text
position_text switch_busy = codes "busy"
position_text switch_custom = codes "custom"
position_text switch_off = codes "off"
position_text switch_apps = codes "apps"
position_text switch_settings = codes "settings"
position_text _ = codes "unknown"

-- The outer field, or the inner one where the outer is the zero value.
or_device : Text → Text → Text
or_device outer inner = if is_empty outer then inner else outer

or_timestamp : ℤ → ℤ → ℤ
or_timestamp outer inner = if eq_ℤ outer (pos 0) then inner else outer

payload_of : Text → ℤ → EventOneof → Result Text (List (Text × Value))
unfolding marshal_button marshal_switch marshal_encoder button_text action_text position_text
    or_device or_timestamp
payload_of device ts (button none) = err (codes "missing button details in button event")
payload_of device ts (button (some b)) = ok (
    marshal_button (record {
      device = or_device device b.device;
      type = codes "button";
      button = button_text b.button;
      action = action_text b.action;
      timestamp = or_timestamp ts b.timestamp;
    }))
payload_of device ts (switch none) = err (codes "missing switch details in switch event")
payload_of device ts (switch (some s)) = ok (
    marshal_switch (record {
      device = or_device device s.device;
      type = codes "switch";
      position = position_text s.position;
      timestamp = or_timestamp ts s.timestamp;
    }))
payload_of device ts (encoder none) = err (codes "missing encoder details in encoder event")
payload_of device ts (encoder (some e)) = ok (
    marshal_encoder (record {
      device = or_device device e.device;
      type = codes "encoder";
      delta = e.delta;
      timestamp = or_timestamp ts e.timestamp;
    }))

unfoldable pub to_home_assistant_json : Option NormalizedEvent → Result Text (List (Text × Value))
unfolding payload_of
to_home_assistant_json none = err (codes "normalized event is nil")
to_home_assistant_json (some e) = elim e.event [
  | none ↦ err (codes "unsupported or nil event type: <nil>")
  | some o ↦ payload_of e.device e.timestamp o
]
