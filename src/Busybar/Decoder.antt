-- ===== src/Busybar/Decoder.antt =====
-- internal/busybar/decoder.go: from the frames of a Busy Bar to normalized events.
-- `proto.Unmarshal` is the parameter `unmarshal`; the recorder, an interface, is the list of the
-- calls made to it; `time.Now().Unix()` is the argument `now`.
pub mod Events
pub mod Stream
mod Tests
use busybar_bridge.Prelude.{
  ℕ, ◌+◌, ◌-◌, ◌^◌, List, [], ◌∷◌, ◌++◌, Option, none, some, length, ltb, if◌then◌else◌,
}
use busybar_bridge.Prelude.Int.{ℤ, pos, negsuc, leb_ℤ}
use busybar_bridge.Prelude.Text.{Text}
use busybar_bridge.Proto.Upstream
use busybar_bridge.Proto.Upstream.{
  State, StateUpdate, InputEvent, get_input, button_event, switch_event, encoder_event,
}
use busybar_bridge.Proto.Normalized
use busybar_bridge.Proto.Normalized.{
  NormalizedEvent, NormalizedButtonEvent, button_unknown, button_ok, button_back, button_start,
  action_unknown, action_press, action_release, switch_unknown, switch_busy, switch_custom,
  switch_off, switch_apps, switch_settings, button, switch, encoder,
}

map_button : Upstream.Button → Normalized.Button
map_button Upstream.Button.ok = button_ok
map_button Upstream.Button.back = button_back
map_button Upstream.Button.start = button_start
map_button (Upstream.Button.other n) = button_unknown

map_button_action : Upstream.ButtonAction → Normalized.ButtonAction
map_button_action Upstream.ButtonAction.press = action_press
map_button_action Upstream.ButtonAction.release = action_release
map_button_action (Upstream.ButtonAction.other n) = action_unknown

map_switch_position : Upstream.SwitchPosition → Normalized.SwitchPosition
map_switch_position Upstream.SwitchPosition.busy = switch_busy
map_switch_position Upstream.SwitchPosition.custom = switch_custom
map_switch_position Upstream.SwitchPosition.off = switch_off
map_switch_position Upstream.SwitchPosition.apps = switch_apps
map_switch_position Upstream.SwitchPosition.settings = switch_settings
map_switch_position (Upstream.SwitchPosition.other n) = switch_unknown

-- The methods of `MetricsRecorder`.
pub data MetricCall : Type 0 where
  decode_success : ℕ → MetricCall
  decode_error dropped_frame : MetricCall

-- int64(x) of a uint64
abbrev pub to_int64 : ℕ → ℤ
to_int64 w = if ltb w (2 ^ 63) then pos w else negsuc (2 ^ 64 - w - 1)

module _ (device_id : Text) (ts : ℤ) where
  normalized : Normalized.EventOneof → NormalizedEvent
  normalized e = record { device = device_id; timestamp = ts; event = some e }

  -- The `switch` on the oneof of one input; `none` is a `continue`.
  normalize_oneof : Option Upstream.InputOneof → Option NormalizedEvent
  unfolding normalized map_button map_button_action map_switch_position
  normalize_oneof (some (button_event (some b))) = some (
      normalized (
        button (
          some (record {
            device = device_id;
            button = map_button b.button;
            action = map_button_action b.action;
            timestamp = ts;
          }))))
  normalize_oneof (some (switch_event (some s))) = some (
      normalized (
        switch (
          some (record {
            device = device_id;
            position = map_switch_position s.position;
            timestamp = ts;
          }))))
  normalize_oneof (some (encoder_event (some e))) =
      some (
        normalized
          (encoder (some (record { device = device_id; delta = e.delta; timestamp = ts }))))
  normalize_oneof _ = none

  normalize_input : Option InputEvent → Option NormalizedEvent
  unfolding normalize_oneof
  normalize_input none = none
  normalize_input (some i) = normalize_oneof i.event

  -- for _, update := range state.GetUpdates()
  normalize_updates : List (Option StateUpdate) → List NormalizedEvent
  unfolding normalize_input get_input
  normalize_updates [] = []
  normalize_updates (u ∷ us) = elim (normalize_input (get_input u)) [
    | none ↦ normalize_updates us
    | some e ↦ e ∷ normalize_updates us
  ]

pub record Decoded : Type 0 where
  -- `none` is the decoding error.
  pub events : Option (List NormalizedEvent)
  pub recorded : List MetricCall

-- The timestamp of the events: the frame's, or the clock's where that is not positive.
event_time : ℤ → State → ℤ
event_time now state = let ts = to_int64 state.timestamp in if leb_ℤ ts (pos 0) then now else ts

success_call : List NormalizedEvent → List MetricCall
success_call [] = []
success_call (e ∷ es) = decode_success (length (e ∷ es)) ∷ []

-- Payloads of any type, and what the library makes of one; `none` is its error.
module _ {Payload : Type 0} (unmarshal : Payload → Option State) where
  unfoldable pub decode : Text → ℤ → Payload → Decoded
  unfolding event_time normalize_updates success_call
  decode device_id now payload = elim (unmarshal payload) [
    | none ↦ record { events = none; recorded = decode_error ∷ [] }
    | some state ↦
        let events = normalize_updates device_id (event_time now state) state.updates in
        record { events = some events; recorded = success_call events }
  ]
