-- ===== src/Main.antt =====
-- main.go: `run`, which joins the settings, the runner and its life. What the flag package reports is
-- known by its text; `is_help` says whether that is flag.ErrHelp. Signals end the context, which is
-- part of what the frame loop receives.
pub mod Exits
mod Tests
use busybar_bridge.Prelude.{ℕ, Bool, true, false, List, [], Option, none, some, if◌then◌else◌}
use busybar_bridge.Prelude.Int.{ℤ}
use busybar_bridge.Prelude.Result.{Result, ok, err}
use busybar_bridge.Prelude.Text.{Text}
use busybar_bridge.Calendar.Store
use busybar_bridge.Calendar.Store.{StoreError}
use busybar_bridge.Config.App.{
  AppConfig, Url, ParseError, bad_variable, bad_flags, bad_config, parse,
}
use busybar_bridge.Runner.Lifecycle
use busybar_bridge.Runner.Lifecycle.{
  Part, server, hass_client, busy_client, push_client, calendar_poller, display_orch, Action,
  Arrival, World,
}
use busybar_bridge.Runner.Parts.{Heap, Runner}
use busybar_bridge.Runner.Wiring.{RunnerError, Built, panicked, failed, made, Endpoints, new_runner}

-- What the libraries make of the environment and the command line.
pub record Sources : Type 0 where
  pub parse_uri : Text → Option Url
  pub parse_duration : Text → Result Text ℤ
  pub parse_bool : Text → Result Text Bool
  pub getenv : Text → Text
  pub apply_flags : AppConfig → Result Text AppConfig
  pub is_help : Text → Bool

-- What the bridge meets while it runs.
pub record Life (Frame : Type 0) : Type 0 where
  pub endpoints : Endpoints
  pub open_store : Text → Result StoreError Store.Store
  pub heap : Heap
  pub now : ℤ
  pub start_error : Part → Option Text
  pub arrivals : List (Arrival Frame)
  pub left : List Frame

is_some {ℓ} : {A : Type ℓ} → Option A → Bool
is_some none = false
is_some (some a) = true

pub has_part : Runner → Part → Bool
unfolding is_some
has_part r server = is_some r.server
has_part r hass_client = is_some r.hass_client
has_part r busy_client = is_some r.busy_client
has_part r push_client = is_some r.push_client
has_part r calendar_poller = is_some r.calendar_poller
has_part r display_orch = is_some r.display_orch

-- The exit code, and what the runner did; a panic exits with 2.
pub record Exit (Frame : Type 0) : Type 0 where
  pub code : ℕ
  pub actions : List (Action Frame)

module _ {Frame : Type 0} (sources : Sources) (life : Life Frame) where
  pub world_of : Runner → World Frame
  unfolding has_part
  world_of r = record {
    has = has_part r;
    start_error = life.start_error;
    has_store = is_some r.store;
    arrivals = life.arrivals;
    left = life.left;
  }

  -- After `r.Run(ctx)`.
  exit_of : List (Action Frame) × Option Text → Exit Frame
  exit_of (actions, none) = record { code = 0; actions = actions }
  exit_of (actions, some e) = record { code = 1; actions = actions }

  after_new_runner : Built → Exit Frame
  unfolding exit_of world_of Lifecycle.run
  after_new_runner panicked = record { code = 2; actions = [] }
  after_new_runner (failed e) = record { code = 1; actions = [] }
  after_new_runner (made r heap) = exit_of (Lifecycle.run (world_of r) false)

  -- errors.Is(err, flag.ErrHelp)
  pub is_help_error : ParseError → Bool
  is_help_error (bad_flags e) = sources.is_help e
  is_help_error (bad_variable e) = false
  is_help_error (bad_config e) = false

  after_parse : Result ParseError AppConfig → Exit Frame
  unfolding after_new_runner is_help_error
  after_parse (err e) =
      if is_help_error e
      then record { code = 0; actions = [] }
      else record { code = 1; actions = [] }
  after_parse (ok cfg) =
      after_new_runner (
        new_runner life.endpoints sources.parse_uri life.open_store life.heap life.now (some cfg)
          [])

  pub parsed : Result ParseError AppConfig
  parsed =
      parse sources.parse_uri sources.parse_duration sources.parse_bool sources.getenv
        sources.apply_flags

  pub run : Exit Frame
  unfolding after_parse parsed
  run = after_parse parsed
