-- ===== src/Proto/Upstream.antt =====
-- pkg/pb/busybar/input.pb.go and state.pb.go: what a Busy Bar sends.
-- A pointer that may be nil is an option; an enum that has an unlisted number is `other`.
use busybar_bridge.Prelude.{ℕ, List, Option, none, some}
use busybar_bridge.Prelude.Int.{ℤ}

pub data Button : Type 0 where
  ok back start : Button
  other : ℤ → Button

pub data ButtonAction : Type 0 where
  press release : ButtonAction
  other : ℤ → ButtonAction

pub data SwitchPosition : Type 0 where
  busy custom off apps settings : SwitchPosition
  other : ℤ → SwitchPosition

pub record ButtonEvent : Type 0 where
  pub button : Button
  pub action : ButtonAction

pub record SwitchEvent : Type 0 where
  pub position : SwitchPosition

pub record EncoderEvent : Type 0 where
  pub delta : ℤ

-- The oneof of an input event; a member may hold a nil pointer.
pub data InputOneof : Type 0 where
  button_event : Option ButtonEvent → InputOneof
  switch_event : Option SwitchEvent → InputOneof
  encoder_event : Option EncoderEvent → InputOneof

pub record InputEvent : Type 0 where
  pub event : Option InputOneof

-- The oneof of a state update: input, or one of the members that the bridge does not read.
pub data UpdateOneof : Type 0 where
  input : Option InputEvent → UpdateOneof
  unread : ℕ → UpdateOneof

pub record StateUpdate : Type 0 where
  pub state : Option UpdateOneof

-- `timestamp` is a `uint64`.
pub record State : Type 0 where
  pub timestamp : ℕ
  pub updates : List (Option StateUpdate)

-- StateUpdate.GetInput, also of a nil receiver.
unfoldable pub get_input : Option StateUpdate → Option InputEvent
get_input none = none
get_input (some u) = elim u.state [
  | some s ↦ elim s [ input i ↦ i | unread n ↦ none ]
  | none ↦ none
]
