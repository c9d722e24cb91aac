-- ===== src/Runner/Building.antt =====
-- internal/runner/runner.go: the parts that NewRunner builds where no option gave them.
use busybar_bridge.Runner.Parts.{
  StoreRef, built, CalendarPart, ManagerPart, PollerPart, DisplayPart, Runner,
}
use busybar_bridge.Prelude.{
  Bool, true, ◌&&◌, List, [], ◌∷◌, ◌++◌, Option, none, some, if◌then◌else◌,
}
use busybar_bridge.Prelude.Int.{pos, ltb_ℤ}
use busybar_bridge.Busybar.Push.{PushConfig, default_push_config}
use busybar_bridge.Calendar.Setup.{PollerConfig, new_poller, new_display_orchestrator}
use busybar_bridge.Config.App.{AppConfig, is_oauth_configured}
use busybar_bridge.Server.Setup
use busybar_bridge.Server.Setup.{
  Server, ServerOption, with_oauth_configured, with_event_tracker, with_display_provider,
  new_server,
}
use busybar_bridge.Telemetry.Store.{set_push_enabled, set_calendar_sync_enabled}
use busybar_bridge.Telemetry.Types

-- `if r.part == nil && needed { r.part = built }`
unfoldable pub or_built {ℓ} : {A : Type ℓ} → Option A → Bool → A → Option A
or_built (some p) needed new = some p
or_built none needed new = if needed then some new else none

module _ (cfg : AppConfig) where
  poller_config : Runner → PollerConfig CalendarPart ManagerPart StoreRef
  unfolding new_poller
  poller_config r = new_poller (record {
    enabled = cfg.enable_calendar_sync;
    poll_interval = cfg.calendar_poll_interval;
    store = r.calendar_store;
    manager = r.calendar_mgr;
    telemetry = r.store;
    calendar_base_url = [];
  })

  unfoldable pub add_poller : Runner → Runner
  unfolding or_built poller_config
  add_poller r = record r {
    calendar_poller = or_built r.calendar_poller cfg.enable_calendar_sync (built (poller_config r));
  }

  push_config : PushConfig
  unfolding default_push_config
  push_config = record default_push_config {
    enabled = cfg.enable_outbound_push;
    host = cfg.busy_bar_host;
    port = cfg.busy_bar_port;
    api_key = cfg.busy_bar_api_key;
    timeout =
        if ltb_ℤ (pos 0) cfg.push_timeout then cfg.push_timeout else default_push_config.timeout;
  }

  unfoldable pub add_push : StoreRef → Runner → Runner
  unfolding or_built push_config
  add_push ref r = record r {
    push_client =
        or_built r.push_client true (built (record { cfg = push_config; recorder = ref }));
  }

  unfoldable pub add_display : Runner → Runner
  unfolding or_built new_display_orchestrator
  add_display r = record r {
    display_orch = or_built r.display_orch (cfg.enable_outbound_push && cfg.enable_calendar_sync) (
        built (
          new_display_orchestrator (record {
            enabled = true;
            tracker = r.calendar_poller;
            push_client = r.push_client;
            eval_interval = pos 0;
            keep_alive_interval = pos 0;
          })));
  }

  -- `if part != nil { serverOpts = append(serverOpts, option(part)) }`
  option_of : {A B : Type 0} → (Option A → B) → Option A → List B
  option_of option none = []
  option_of option (some a) = option (some a) ∷ []

  unfoldable pub server_options :
      Option CalendarPart
      → Option ManagerPart
      → Option PollerPart
      → Option DisplayPart
      → List (ServerOption StoreRef CalendarPart ManagerPart PollerPart DisplayPart)
  unfolding option_of
  server_options calendar_store calendar_mgr calendar_poller display_orch =
      option_of ServerOption.with_calendar_store calendar_store
      ++ (option_of ServerOption.with_calendar_manager calendar_mgr
          ++ (with_oauth_configured (is_oauth_configured cfg)
              ∷ (option_of with_event_tracker calendar_poller
                  ++ option_of with_display_provider display_orch)))

  unfoldable pub add_server : Runner → Runner
  unfolding or_built server_options new_server
  add_server r = record r {
    server = or_built r.server true (
        built (
          new_server (record Setup.default_config { port = cfg.port }) r.store
            (server_options r.calendar_store r.calendar_mgr r.calendar_poller r.display_orch)));
  }

-- `SetPushEnabled` and `SetCalendarSyncEnabled`; NewPoller makes the latter call once more.
unfoldable pub set_flags : AppConfig → Types.Store → Types.Store
unfolding set_push_enabled set_calendar_sync_enabled
set_flags cfg s =
    set_calendar_sync_enabled (set_push_enabled s cfg.enable_outbound_push) cfg.enable_calendar_sync
