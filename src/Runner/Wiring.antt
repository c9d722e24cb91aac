-- ===== src/Runner/Wiring.antt =====
-- internal/runner/runner.go: `NewRunner`, over the parts and options of Runner/Parts and what Runner/Building
-- builds.
pub mod Wired
pub mod Outcome
mod Tests
use busybar_bridge.Runner.Building.{
  or_built, add_poller, add_push, add_display, add_server, set_flags,
}
use busybar_bridge.Runner.Parts.{
  StoreRef, own, other, Heap, eq_ref, update, Made, given, built, HassPart, PushPart, CalendarPart,
  ManagerPart, PollerPart, DisplayPart, ServerPart, Runner, RunnerOption, with_store,
  with_busy_bar_client, with_decoder, with_hass_client, with_server, with_calendar_store,
  with_calendar_manager, with_oauth_manager, with_calendar_poller, with_push_client,
  with_display_orchestrator, given_part, given_store, apply_option, apply_options,
}
use busybar_bridge.Prelude.{
  ℕ, ◌==◌, Bool, true, false, not, ◌&&◌, List, [], ◌∷◌, ◌++◌, Option, none, some, if◌then◌else◌,
}
use busybar_bridge.Prelude.Int.{ℤ, pos, ltb_ℤ}
use busybar_bridge.Prelude.Result.{Result, ok, err}
use busybar_bridge.Prelude.Text.{Text, codes, is_empty}
use busybar_bridge.Busybar.Client.{Client, default_config, new_client}
use busybar_bridge.Busybar.Push.{PushConfig, default_push_config}
use busybar_bridge.Calendar.Manager
use busybar_bridge.Calendar.Manager.{new_manager}
use busybar_bridge.Calendar.Setup.{
  PollerConfig, new_poller, OrchestratorConfig, new_display_orchestrator,
}
use busybar_bridge.Calendar.Store
use busybar_bridge.Calendar.Store.{CalendarBinding, StoreError, Disk}
use busybar_bridge.Config.App.{
  AppConfig, Url, ConfigError, default_app_config, is_oauth_configured, validate,
}
use busybar_bridge.Hass.Client.{Config}
use busybar_bridge.Hass.Settings
use busybar_bridge.Hass.Settings.{SettingsError, settings_of}
use busybar_bridge.Server.Setup
use busybar_bridge.Server.Setup.{
  Server, ServerOption, with_oauth_configured, with_event_tracker, with_display_provider,
  new_server,
}
use busybar_bridge.Telemetry.Store.{new_store, set_push_enabled, set_calendar_sync_enabled}
use busybar_bridge.Telemetry.Types

pub data RunnerError : Type 0 where
  nil_config : RunnerError
  invalid_config : ConfigError → RunnerError
  no_calendar_store : StoreError → RunnerError
  no_hass_client : SettingsError → RunnerError

-- What NewRunner comes to; a call on a nil store panics.
pub data Built : Type 0 where
  panicked : Built
  failed : RunnerError → Built
  made : Runner → Heap → Built

-- From the options on, with the runner's store.
pub with_parts : AppConfig → Runner → Heap → Option StoreRef → Built
unfolding update set_flags add_poller add_push add_display add_server
with_parts cfg r heap none = panicked
with_parts cfg r heap (some ref) =
    made (add_server cfg (add_display cfg (add_push cfg ref (add_poller cfg r))))
      (update heap ref (set_flags cfg))

pub calendar_path : AppConfig → Text
unfolding default_app_config
calendar_path cfg =
    if is_empty cfg.calendar_store_path
    then default_app_config.calendar_store_path
    else cfg.calendar_store_path

-- `https` URLs of Google's endpoints, which the package `google` has.
pub record Endpoints : Type 0 where
  pub auth_url : Text
  pub token_url : Text

module _ (endpoints : Endpoints) (cfg : AppConfig) where
  calendar_manager : Option ManagerPart
  unfolding new_manager is_oauth_configured
  calendar_manager =
      if is_oauth_configured cfg
      then some (
          built (
            new_manager endpoints.auth_url endpoints.token_url (record {
              client_id = cfg.google_client_id;
              client_secret = cfg.google_client_secret;
              redirect_url = cfg.google_redirect_url;
              auth_url = [];
              token_url = [];
              user_info_url = [];
            })))
      else none

  -- The runner before the options.
  first_runner : Store.Store → Runner
  unfolding default_config new_client settings_of calendar_manager
  first_runner calendar_store = record {
    cfg = cfg;
    store = some own;
    busy_client = some (
        built (
          new_client
            (record default_config { host = cfg.busy_bar_host; port = cfg.busy_bar_port })));
    decoder = some (built cfg.busy_bar_device_id);
    hass_client = some (built (record { cfg = settings_of cfg; store = own }));
    server = none;
    calendar_store = some (built calendar_store);
    calendar_mgr = calendar_manager;
    calendar_poller = none;
    push_client = none;
    display_orch = none;
  }

  -- The heap with the store that NewRunner makes.
  first_heap : Heap → ℤ → Heap
  unfolding update set_push_enabled new_store
  first_heap heap now =
      update heap own (λ s. set_push_enabled (new_store now) cfg.enable_outbound_push)

  -- With the check of the Home Assistant client's settings.
  with_hass : Heap → ℤ → List RunnerOption → Store.Store → Option SettingsError → Built
  unfolding first_runner first_heap apply_options with_parts
  with_hass heap now options calendar_store (some e) = failed (no_hass_client e)
  with_hass heap now options calendar_store none =
      let r = apply_options (first_runner calendar_store) options in
      with_parts cfg r (first_heap heap now) r.store

  module _ (parse_uri : Text → Option Url) where
    -- With the calendar store.
    with_calendar : Heap → ℤ → List RunnerOption → Result StoreError Store.Store → Built
    unfolding with_hass
    with_calendar heap now options (err e) = failed (no_calendar_store e)
    with_calendar heap now options (ok calendar_store) =
        with_hass heap now options calendar_store (Settings.validate parse_uri (settings_of cfg))

    -- With the validation.
    with_validation :
        (Text → Result StoreError Store.Store)
        → Heap
        → ℤ
        → List RunnerOption
        → Option ConfigError
        → Built
    unfolding with_calendar calendar_path
    with_validation open_store heap now options (some e) = failed (invalid_config e)
    with_validation open_store heap now options none =
        with_calendar heap now options (open_store (calendar_path cfg))

-- NewRunner; `open_store` is calendar.NewStore on the disk of the moment, `now` the clock, and `heap`
-- has the stores that options give.
unfoldable pub new_runner :
    Endpoints
    → (Text → Option Url)
    → (Text → Result StoreError Store.Store)
    → Heap
    → ℤ
    → Option AppConfig
    → List RunnerOption
    → Built
unfolding with_validation
new_runner endpoints parse_uri open_store heap now none options = failed nil_config
new_runner endpoints parse_uri open_store heap now (some cfg) options =
    with_validation endpoints cfg parse_uri open_store heap now options (validate parse_uri cfg)
