-- ===== src/Calendar/Display/Policy.antt =====
-- When a frame is pushed.
use busybar_bridge.Prelude.{◌≡◌, ◌⊎◌, true, false, Option, none, some}
use busybar_bridge.Prelude.Int.{ℤ, ◌≤ℤ◌, ◌<ℤ◌, time_sub}
use busybar_bridge.Prelude.Text.{Text}
use busybar_bridge.Calendar.Events.{ActiveEvent}
use busybar_bridge.Calendar.Display.{Orchestrator, Stepped, step, format_display_state}
use busybar_bridge.Calendar.Display.Render.{DisplayState, Frame, render_frame}

-- Two states show the same.
pub record Matches (a b : DisplayState) : Type 0 where
  pub mode : a.mode ≡ b.mode
  pub top_line : a.top_line ≡ b.top_line
  pub bottom_line : a.bottom_line ≡ b.bottom_line

-- A step that pushed nothing: it had pushed what is to be shown, less than the keep-alive interval
-- ago.
pub record Rests (o : Orchestrator) (state : DisplayState) (now : ℤ) (out : Stepped) : Type 0 where
  pub pushed_before : o.has_pushed ≡ true
  pub fresh : Matches state o.last_state
  pub recent : time_sub now o.last_push_at <ℤ o.keep_alive_interval
  pub unchanged : out ≡ record { orchestrator = o; pushed = none; error = none }

-- A step that pushed the frame: it keeps the state and the time if the push succeeds; if not, it
-- reports the error and changes nothing.
pub record Pushes (push_frame : Frame → Option Text) (o : Orchestrator) (state : DisplayState)
    (now : ℤ) (out : Stepped) : Type 0 where
  pub frame : out.pushed ≡ some (render_frame state)
  pub answer : out.error ≡ push_frame (render_frame state)
  pub kept :
      out.error ≡ none
      → out.orchestrator ≡ record o { last_state = state; last_push_at = now; has_pushed = true }
  pub failed : (e : Text) → out.error ≡ some e → out.orchestrator ≡ o

-- Whether something has to be pushed.
abbrev pub IsDue : Orchestrator → DisplayState → ℤ → Type 0
IsDue o state now =
    (o.has_pushed ≡ false)
    ⊎ ((Matches state o.last_state → ⊥) ⊎ (o.keep_alive_interval ≤ℤ time_sub now o.last_push_at))

-- After a step that failed to push the state: a later step that has to show the same pushes it.
abbrev pub IsRetried : (ℤ → Text) → (ℤ → Text) → DisplayState → ℤ → Stepped → Type 0
IsRetried date_line time_line state now out =
    (e : Text) (push_frame : Frame → Option Text) (ev : ActiveEvent) (later : ℤ)
    → out.error ≡ some e
    → now ≤ℤ later
    → format_display_state date_line time_line ev later ≡ state
    → (step date_line time_line push_frame out.orchestrator ev later).pushed
      ≡ some (render_frame state)
