-- ===== src/Calendar/Display/Render/Tests.antt =====
-- A frame of a busy display.
use busybar_bridge.Prelude.Int.{pos}
use busybar_bridge.Prelude.Text.{codes}
use busybar_bridge.Calendar.Display.Render.{DisplayState, display_mode_busy, render_frame}
use busybar_bridge.Calendar.Display.Render.Pixels.{IsPainted, IsOfLine, render_frame-IsPainted}

abbrev state : DisplayState
state = record {
  mode = display_mode_busy;
  top_line = codes "Planning é";
  bottom_line = codes "00:10";
  updated_at = pos 5;
}

render_frame-IsPainted_example : IsPainted (IsOfLine state) (render_frame state).pixels
render_frame-IsPainted_example = render_frame-IsPainted state
