-- ===== src/Runner/Wiring/Tests.antt =====
-- Runners of one set of settings: one with its own store, one with a store from an option, and one
-- that an option leaves without a store.
use busybar_bridge.Prelude.{◌≡◌, refl, Bool, true, false, [], ◌∷◌, List, Option, none, some}
use busybar_bridge.Prelude.Int.{pos}
use busybar_bridge.Prelude.Result.{Result, ok, err}
use busybar_bridge.Prelude.Text.{Text, codes}
use busybar_bridge.Calendar.Store
use busybar_bridge.Calendar.Store.{StoreError, read_failed}
use busybar_bridge.Config.App.{AppConfig, Url, default_app_config, validate}
use busybar_bridge.Hass.Settings
use busybar_bridge.Runner.Parts.{own, other, Heap, RunnerOption, with_store, with_server}
use busybar_bridge.Runner.Wiring.{
  Endpoints, Built, panicked, failed, made, no_calendar_store, new_runner,
}
use busybar_bridge.Runner.Wiring.Outcome.{Outcome, new_runner-Outcome}
use busybar_bridge.Telemetry.Store.{new_store}

abbrev endpoints : Endpoints
endpoints = record { auth_url = codes "https://a"; token_url = codes "https://t" }

parse_uri : Text → Option Url
parse_uri t = some (record { scheme = codes "http"; host = codes "h" })

opened : Text → Result StoreError Store.Store
opened path = ok (record { path = path; binding = none })

unread : Text → Result StoreError Store.Store
unread path = err read_failed

heap : Heap
unfolding new_store
heap r = new_store (pos 5)

abbrev config : AppConfig
unfolding default_app_config
config = record default_app_config {
  hass_token = codes "abc";
  enable_outbound_push = true;
  enable_calendar_sync = true;
}

abbrev options : List RunnerOption
options = with_server (some 7) ∷ with_store (some 4) ∷ []

new_runner-Outcome_example :
    Outcome endpoints parse_uri opened heap
      (pos 9)
      config
      options
      (new_runner endpoints parse_uri opened heap (pos 9) (some config) options)
new_runner-Outcome_example =
    new_runner-Outcome endpoints parse_uri opened heap (pos 9) config options

new_runner-nil_store :
    new_runner endpoints parse_uri opened heap (pos 9) (some config) (with_store none ∷ [])
    ≡ panicked
unfolding new_runner parse_uri opened validate Settings.validate
new_runner-nil_store = refl

new_runner-unread :
    new_runner endpoints parse_uri unread heap (pos 9) (some config) options
    ≡ failed (no_calendar_store read_failed)
unfolding new_runner parse_uri unread validate
new_runner-unread = refl

-- Whether the two stores have the flag of the calendar.
flags : Built → List Bool
flags panicked = []
flags (failed e) = []
flags (made r h) = (h own).calendar_sync.enabled ∷ (h (other 4)).calendar_sync.enabled ∷ []

flags-own :
    flags (new_runner endpoints parse_uri opened heap (pos 9) (some config) []) ≡ true ∷ false ∷ []
unfolding flags new_runner parse_uri opened heap validate Settings.validate
flags-own = refl

flags-other :
    flags (new_runner endpoints parse_uri opened heap (pos 9) (some config) options)
    ≡ false ∷ true ∷ []
unfolding flags new_runner parse_uri opened heap validate Settings.validate
flags-other = refl
