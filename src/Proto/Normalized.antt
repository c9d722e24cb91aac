-- ===== src/Proto/Normalized.antt =====
-- pkg/pb/event.pb.go: the normalized events.
-- A pointer that may be nil is an option; an enum that has an unlisted number is `other`.
use busybar_bridge.Prelude.{Option}
use busybar_bridge.Prelude.Int.{ℤ}
use busybar_bridge.Prelude.Text.{Text}

pub data Button : Type 0 where
  button_unknown button_ok button_back button_start : Button
  other : ℤ → Button

pub data ButtonAction : Type 0 where
  action_unknown action_press action_release : ButtonAction
  other : ℤ → ButtonAction

pub data SwitchPosition : Type 0 where
  switch_unknown switch_busy switch_custom switch_off switch_apps switch_settings : SwitchPosition
  other : ℤ → SwitchPosition

pub record NormalizedButtonEvent : Type 0 where
  pub device : Text
  pub button : Button
  pub action : ButtonAction
  pub timestamp : ℤ

pub record NormalizedSwitchEvent : Type 0 where
  pub device : Text
  pub position : SwitchPosition
  pub timestamp : ℤ

pub record NormalizedEncoderEvent : Type 0 where
  pub device : Text
  pub delta : ℤ
  pub timestamp : ℤ

-- The oneof of a normalized event; a member may hold a nil pointer.
pub data EventOneof : Type 0 where
  button : Option NormalizedButtonEvent → EventOneof
  switch : Option NormalizedSwitchEvent → EventOneof
  encoder : Option NormalizedEncoderEvent → EventOneof

pub record NormalizedEvent : Type 0 where
  pub device : Text
  pub timestamp : ℤ
  pub event : Option EventOneof
