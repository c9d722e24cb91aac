-- ===== src/Calendar/Display.antt =====
-- internal/calendar/display.go: the two lines of the display, and when a frame is pushed.
-- The clock, the tracker's `GetCurrentEvent` and the push client's `PushFrame` are arguments; the
-- texts of the local date and time of an instant are the arguments `date_line` and `time_line`.
pub mod Font
pub mod Render
pub mod Titles
pub mod Policy
mod Tests
use busybar_bridge.Prelude.{
  ℕ, Bool, true, false, not, ◌&&◌, ◌||◌, List, [], Option, none, some, if◌then◌else◌, ltb, length,
  take,
}
use busybar_bridge.Prelude.Int.{ℤ, pos, pos_part, leb_ℤ, time_sub}
use busybar_bridge.Prelude.Text.{Text, codes, is_empty, text_eq, trim_space}
use busybar_bridge.Calendar.Events.{ActiveEvent, idle_event, format_countdown}
use busybar_bridge.Calendar.Display.Render.{
  DisplayMode, display_mode_idle, display_mode_busy, DisplayState, Frame, render_frame,
}

abbrev pub max_display_chars : ℕ
max_display_chars = 14

unfoldable pub truncate_title : Text → ℤ → Text
unfolding trim_space
truncate_title summary max_chars =
    if leb_ℤ max_chars (pos 0)
    then []
    else let trimmed = trim_space summary in
      let title = if is_empty trimmed then codes "Busy" else trimmed in
      if ltb (pos_part max_chars) (length title) then take (pos_part max_chars) title else title

module _ (date_line time_line : ℤ → Text) where
  -- The countdown of an event, computed here if it has none, and cut.
  countdown_line : ActiveEvent → ℤ → Text
  unfolding trim_space format_countdown time_sub
  countdown_line ev now =
      let trimmed = trim_space ev.countdown in
      let text =
        if is_empty trimmed then format_countdown (time_sub ev.end_time now) else trimmed in
      if ltb max_display_chars (length text) then take max_display_chars text else text

  unfoldable pub format_display_state : ActiveEvent → ℤ → DisplayState
  unfolding countdown_line truncate_title
  format_display_state ev now =
      if ev.idle
      then record {
        mode = display_mode_idle;
        top_line = date_line now;
        bottom_line = time_line now;
        updated_at = now;
      }
      else record {
        mode = display_mode_busy;
        top_line = truncate_title ev.summary (pos max_display_chars);
        bottom_line = countdown_line ev now;
        updated_at = now;
      }

-- `enabled` also says that there are a tracker and a push client.
pub record Orchestrator : Type 0 where
  pub enabled : Bool
  pub keep_alive_interval : ℤ
  pub last_state : DisplayState
  pub last_push_at : ℤ
  pub has_pushed : Bool

same_mode : DisplayMode → DisplayMode → Bool
same_mode display_mode_idle display_mode_idle = true
same_mode display_mode_busy display_mode_busy = true
same_mode _ _ = false

-- What one step did: the frame that it pushed, if any, and the error that it returned.
pub record Stepped : Type 0 where
  pub orchestrator : Orchestrator
  pub pushed : Option Frame
  pub error : Option Text

need_push : Orchestrator → DisplayState → ℤ → Bool
unfolding same_mode text_eq time_sub
need_push o state now =
    not o.has_pushed
    || not (same_mode state.mode o.last_state.mode)
    || not (text_eq state.top_line o.last_state.top_line)
    || not (text_eq state.bottom_line o.last_state.bottom_line)
    || leb_ℤ o.keep_alive_interval (time_sub now o.last_push_at)

-- The push of a frame, with what `PushFrame` answers.
push_state : Orchestrator → DisplayState → ℤ → Option Text → Stepped
unfolding render_frame
push_state o state now (some e) = record {
  orchestrator = o;
  pushed = some (render_frame state);
  error = some e;
}
push_state o state now none = record {
  orchestrator = record o { last_state = state; last_push_at = now; has_pushed = true };
  pushed = some (render_frame state);
  error = none;
}

-- With the state at `now`.
step_state : (Frame → Option Text) → Orchestrator → DisplayState → ℤ → Stepped
unfolding need_push push_state
step_state push_frame o state now =
    if need_push o state now
    then push_state o state now (push_frame (render_frame state))
    else record { orchestrator = o; pushed = none; error = none }

module _ (date_line time_line : ℤ → Text) (push_frame : Frame → Option Text) where
  unfoldable pub step : Orchestrator → ActiveEvent → ℤ → Stepped
  unfolding step_state format_display_state
  step o ev now =
      if not o.enabled
      then record { orchestrator = o; pushed = none; error = none }
      else step_state push_frame o (format_display_state date_line time_line ev now) now

-- GetDisplayState of an orchestrator with a tracker.
unfoldable pub get_display_state :
    (ℤ → Text) → (ℤ → Text) → Orchestrator → ActiveEvent → ℤ → DisplayState
unfolding format_display_state
get_display_state date_line time_line o ev now =
    if o.has_pushed then o.last_state else format_display_state date_line time_line ev now
