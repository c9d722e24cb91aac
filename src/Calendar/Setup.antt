-- ===== src/Calendar/Setup.antt =====
-- internal/calendar/poller.go and display.go: the settings of the poller and of the display
-- orchestrator, over any types of their dependencies. Their clocks and the poller's HTTP client are
-- left at the defaults.
use busybar_bridge.Prelude.{Bool, Option}
use busybar_bridge.Prelude.Int.{ℤ, pos}
use busybar_bridge.Prelude.Text.{Text}
use busybar_bridge.Calendar.Worker.{interval_or}

pub record PollerConfig (Cal Mgr Tel : Type 0) : Type 0 where
  pub enabled : Bool
  pub poll_interval : ℤ
  pub store : Option Cal
  pub manager : Option Mgr
  pub telemetry : Option Tel
  pub calendar_base_url : Text

-- NewPoller, but for the call of SetCalendarSyncEnabled.
unfoldable pub new_poller :
    {Cal Mgr Tel : Type 0} → PollerConfig Cal Mgr Tel → PollerConfig Cal Mgr Tel
unfolding interval_or
new_poller cfg = record cfg { poll_interval = interval_or cfg.poll_interval (pos 60_000_000_000) }

pub record OrchestratorConfig (Trk Psh : Type 0) : Type 0 where
  pub enabled : Bool
  pub tracker : Option Trk
  pub push_client : Option Psh
  pub eval_interval : ℤ
  pub keep_alive_interval : ℤ

unfoldable pub new_display_orchestrator :
    {Trk Psh : Type 0} → OrchestratorConfig Trk Psh → OrchestratorConfig Trk Psh
unfolding interval_or
new_display_orchestrator cfg = record cfg {
  eval_interval = interval_or cfg.eval_interval (pos 1_000_000_000);
  keep_alive_interval = interval_or cfg.keep_alive_interval (pos 30_000_000_000);
}
