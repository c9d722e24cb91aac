-- ===== src/Calendar/Display/Tests.antt =====
-- A long title, an unchanged display and a changed one.
use busybar_bridge.Prelude.{◌≡◌, ◌≢◌, ◌≤◌, refl, true, false, [], Option, some, length}
use busybar_bridge.Prelude.Int.{ℤ, pos}
use busybar_bridge.Prelude.Text.{Text, codes}
use busybar_bridge.Calendar.Events.{ActiveEvent}
use busybar_bridge.Calendar.Display.{
  Orchestrator, truncate_title, format_display_state, max_display_chars,
}
use busybar_bridge.Calendar.Display.Render.{display_mode_busy, Frame}
use busybar_bridge.Calendar.Display.Titles.{format_display_state-short}

line : ℤ → Text
line now = codes "Thu"

abbrev title : Text
title = codes "  Quarterly planning "

abbrev meeting : ActiveEvent
meeting = record {
  summary = title;
  start_time = pos 1;
  end_time = pos 600_000_000_000;
  countdown = [];
  idle = false;
}

shown-title : truncate_title title (pos 14) ≡ codes "Quarterly plan"
unfolding truncate_title
shown-title = refl

format_display_state-short_example :
    let state = format_display_state line line meeting (pos 60_000_000_000) in
    (length state.top_line ≤ max_display_chars)
    × (state.top_line ≢ [])
    × (length state.bottom_line ≤ max_display_chars)
format_display_state-short_example =
    format_display_state-short line line meeting (pos 60_000_000_000) refl

-- It showed one minute more, ten seconds ago.
abbrev orchestrator : Orchestrator
orchestrator = record {
  enabled = true;
  keep_alive_interval = pos 30_000_000_000;
  last_state = record {
    mode = display_mode_busy;
    top_line = codes "Quarterly plan";
    bottom_line = codes "00:10";
    updated_at = pos 50_000_000_000;
  };
  last_push_at = pos 50_000_000_000;
  has_pushed = true;
}

refuse : Frame → Option Text
refuse frame = some (codes "closed")
