-- ===== src/Runner/Translate.antt =====
-- internal/runner/runner.go: `TranslateEvent` and `formatSummary`.
-- The `time.Now()` of a missing timestamp and of `CreatedAt` is the argument `now`.
pub mod Agreement
use busybar_bridge.Prelude.{List, [], ◌∷◌, ◌++◌, Option, none, some, if◌then◌else◌}
use busybar_bridge.Prelude.Decimal.{itoa}
use busybar_bridge.Prelude.Int.{ℤ, pos, leb_ℤ}
use busybar_bridge.Prelude.Map.{Value, str, int, int32, int64, float64, number, other, lookup}
use busybar_bridge.Prelude.Text.{Text, codes, is_empty, text_eq}
use busybar_bridge.Proto.Normalized.{
  NormalizedEvent, EventOneof, Button, ButtonAction, SwitchPosition, button_ok, button_back,
  button_start, action_press, action_release, switch_busy, switch_custom, switch_off, switch_apps,
  switch_settings, button, switch, encoder,
}
use busybar_bridge.Hass.Event.{
  Event, event_type_button, event_type_switch, event_type_encoder, new_button_event,
  new_switch_event, new_encoder_event,
}

-- The strings of the three `switch` statements.
btn_str : Button → Text
btn_str button_ok = codes "ok"
btn_str button_back = codes "back"
btn_str button_start = codes "start"
btn_str _ = codes "unknown"

act_str : ButtonAction → Text
act_str action_press = codes "press"
act_str action_release = codes "release"
act_str _ = codes "unknown"

pos_str : SwitchPosition → Text
pos_str switch_busy = codes "busy"
pos_str switch_custom = codes "custom"
pos_str switch_off = codes "off"
pos_str switch_apps = codes "apps"
pos_str switch_settings = codes "settings"
pos_str _ = codes "unknown"

-- `if d := …GetDevice(); d != "" { … = d }`
inner_device : Text → Text → Text
inner_device device d = if is_empty d then device else d

translate_member : Text → ℤ → ℤ → EventOneof → Option Event
unfolding btn_str act_str pos_str inner_device new_button_event new_switch_event new_encoder_event
translate_member device ts now (button none) = none
translate_member device ts now (button (some b)) =
    some
      (new_button_event (inner_device device b.device) (btn_str b.button) (act_str b.action) ts now)
translate_member device ts now (switch none) = none
translate_member device ts now (switch (some s)) =
    some (new_switch_event (inner_device device s.device) (pos_str s.position) ts now)
translate_member device ts now (encoder none) = none
translate_member device ts now (encoder (some e)) =
    some (new_encoder_event (inner_device device e.device) e.delta ts now)

-- `none` is the result `false`.
unfoldable pub translate_event : Option NormalizedEvent → ℤ → Option Event
unfolding translate_member
translate_event none now = none
translate_event (some norm) now = elim norm.event [
  | none ↦ none
  | some o ↦
      let device = if is_empty norm.device then codes "busybar" else norm.device in
      let ts = if leb_ℤ norm.timestamp (pos 0) then now else norm.timestamp in
      translate_member device ts now o
]

-- `v, _ := ev.Data[k].(string)`
string_field : Text → Event → Text
unfolding lookup
string_field k ev = elim (lookup k ev.fields) [ none ↦ [] | some v ↦ elim v [ str s ↦ s | _ ↦ [] ] ]

-- What `%v` prints of a float or of a type that the events do not use is a parameter.
module _ (print : Value → Text) where
  print_value : Option Value → Text
  unfolding itoa
  print_value none = codes "<nil>"
  print_value (some (str s)) = s
  print_value (some (int n)) = itoa n
  print_value (some (int32 n)) = itoa n
  print_value (some (int64 n)) = itoa n
  print_value (some (number s)) = s
  print_value (some v) = print v

  unfoldable pub format_summary : Event → Text
  unfolding print_value string_field text_eq lookup
  format_summary ev =
      if text_eq ev.type event_type_button
      then codes "button "
        ++ (string_field (codes "button") ev ++ (b' ' ∷ string_field (codes "action") ev))
      else if text_eq ev.type event_type_switch
      then codes "switch " ++ string_field (codes "position") ev
      else if text_eq ev.type event_type_encoder
      then codes "encoder " ++ print_value (lookup (codes "delta") ev.fields)
      else ev.type
