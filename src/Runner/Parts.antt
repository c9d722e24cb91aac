-- ===== src/Runner/Parts.antt =====
-- internal/runner/runner.go: the runner, its parts and its options. The parts share telemetry stores
-- by pointers: a store is a reference into a heap, `own` for the one that NewRunner makes. A part is
-- one that an option gave, or is built from its settings and the parts that it points to.
use busybar_bridge.Prelude.{
  ℕ, ◌==◌, Bool, true, false, List, [], ◌∷◌, Option, none, some, if◌then◌else◌,
}
use busybar_bridge.Prelude.Text.{Text}
use busybar_bridge.Busybar.Client.{Client}
use busybar_bridge.Busybar.Push.{PushConfig}
use busybar_bridge.Calendar.Manager
use busybar_bridge.Calendar.Manager.{new_manager}
use busybar_bridge.Calendar.Setup.{PollerConfig, OrchestratorConfig}
use busybar_bridge.Calendar.Store
use busybar_bridge.Calendar.Store.{CalendarBinding, StoreError, Disk}
use busybar_bridge.Config.App.{AppConfig}
use busybar_bridge.Hass.Client.{Config}
use busybar_bridge.Server.Setup.{Server}
use busybar_bridge.Telemetry.Types

pub data StoreRef : Type 0 where
  own : StoreRef
  other : ℕ → StoreRef

abbrev pub Heap : Type 0
Heap = StoreRef → Types.Store

unfoldable pub eq_ref : StoreRef → StoreRef → Bool
eq_ref own own = true
eq_ref (other m) (other n) = m == n
eq_ref _ _ = false

-- A call of a method on a store.
unfoldable pub update : Heap → StoreRef → (Types.Store → Types.Store) → Heap
unfolding eq_ref
update h ref f r = if eq_ref ref r then f (h r) else h r

pub data Made (A : Type 0) : Type 0 where
  given : ℕ → Made A
  built : A → Made A

pub record HassPart : Type 0 where
  pub cfg : Config
  pub store : StoreRef

pub record PushPart : Type 0 where
  pub cfg : PushConfig
  pub recorder : StoreRef

abbrev pub CalendarPart : Type 0
CalendarPart = Made Store.Store

abbrev pub ManagerPart : Type 0
ManagerPart = Made Manager.Manager

abbrev pub PollerPart : Type 0
PollerPart = Made (PollerConfig CalendarPart ManagerPart StoreRef)

abbrev pub DisplayPart : Type 0
DisplayPart = Made (OrchestratorConfig PollerPart (Made PushPart))

abbrev pub ServerPart : Type 0
ServerPart = Made (Server StoreRef CalendarPart ManagerPart PollerPart DisplayPart)

pub record Runner : Type 0 where
  pub cfg : AppConfig
  pub store : Option StoreRef
  pub busy_client : Option (Made Client)
  pub decoder : Option (Made Text)
  pub hass_client : Option (Made HassPart)
  pub server : Option ServerPart
  pub calendar_store : Option CalendarPart
  pub calendar_mgr : Option ManagerPart
  pub calendar_poller : Option PollerPart
  pub push_client : Option (Made PushPart)
  pub display_orch : Option DisplayPart

-- What an option is given: nil or a part.
pub data RunnerOption : Type 0 where
  with_store with_busy_bar_client with_decoder : Option ℕ → RunnerOption
  with_hass_client with_server with_calendar_store : Option ℕ → RunnerOption
  with_calendar_manager with_oauth_manager with_calendar_poller : Option ℕ → RunnerOption
  with_push_client with_display_orchestrator : Option ℕ → RunnerOption

unfoldable pub given_part : {A : Type 0} → Option ℕ → Option (Made A)
given_part none = none
given_part (some n) = some (given n)

unfoldable pub given_store : Option ℕ → Option StoreRef
given_store none = none
given_store (some n) = some (other n)

unfoldable pub apply_option : Runner → RunnerOption → Runner
unfolding given_part given_store
apply_option r (with_store p) = record r { store = given_store p }
apply_option r (with_busy_bar_client p) = record r { busy_client = given_part p }
apply_option r (with_decoder p) = record r { decoder = given_part p }
apply_option r (with_hass_client p) = record r { hass_client = given_part p }
apply_option r (with_server p) = record r { server = given_part p }
apply_option r (with_calendar_store p) = record r { calendar_store = given_part p }
apply_option r (with_calendar_manager p) = record r { calendar_mgr = given_part p }
apply_option r (with_oauth_manager p) = record r { calendar_mgr = given_part p }
apply_option r (with_calendar_poller p) = record r { calendar_poller = given_part p }
apply_option r (with_push_client p) = record r { push_client = given_part p }
apply_option r (with_display_orchestrator p) = record r { display_orch = given_part p }

unfoldable pub apply_options : Runner → List RunnerOption → Runner
unfolding apply_option
apply_options r [] = r
apply_options r (o ∷ os) = apply_options (apply_option r o) os
