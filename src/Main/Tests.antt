-- ===== src/Main/Tests.antt =====
-- A bridge that serves three frames, one whose settings lack the token, and one that shows its help.
use busybar_bridge.Prelude.{ℕ, ◌≡◌, refl, Bool, true, [], ◌∷◌, Option, none, some, if◌then◌else◌}
use busybar_bridge.Prelude.Int.{ℤ, pos}
use busybar_bridge.Prelude.Result.{Result, ok, err}
use busybar_bridge.Prelude.Text.{Text, codes, text_eq}
use busybar_bridge.Calendar.Store
use busybar_bridge.Calendar.Store.{StoreError}
use busybar_bridge.Config.App.{AppConfig, Url, parse}
use busybar_bridge.Hass.Settings
use busybar_bridge.Main.{Sources, Life, run}
use busybar_bridge.Main.Exits.{Exits, run-Exits}
use busybar_bridge.Runner.Lifecycle.{Part, frame, closed}
use busybar_bridge.Runner.Parts.{Heap}
use busybar_bridge.Runner.Wiring.{new_runner}
use busybar_bridge.Telemetry.Store.{new_store}

parse_uri : Text → Option Url
parse_uri t = some (record { scheme = codes "http"; host = codes "h" })

parse_duration : Text → Result Text ℤ
parse_duration t = ok (pos 1_000_000_000)

parse_bool : Text → Result Text Bool
parse_bool t = ok true

has_token : Text → Text
unfolding text_eq
has_token name = if text_eq name (codes "HASS_TOKEN") then codes "abc" else []

no_token : Text → Text
no_token name = []

no_flags : AppConfig → Result Text AppConfig
no_flags c = ok c

asks_help : AppConfig → Result Text AppConfig
asks_help c = err (codes "flag: help requested")

is_help : Text → Bool
unfolding text_eq
is_help e = text_eq e (codes "flag: help requested")

abbrev sources : (Text → Text) → (AppConfig → Result Text AppConfig) → Sources
sources getenv apply_flags = record {
  parse_uri = parse_uri;
  parse_duration = parse_duration;
  parse_bool = parse_bool;
  getenv = getenv;
  apply_flags = apply_flags;
  is_help = is_help;
}

opened : Text → Result StoreError Store.Store
opened path = ok (record { path = path; binding = none })

heap : Heap
unfolding new_store
heap r = new_store (pos 5)

no_error : Part → Option Text
no_error part = none

abbrev life : Life ℕ
life = record {
  endpoints = record { auth_url = codes "https://a"; token_url = codes "https://t" };
  open_store = opened;
  heap = heap;
  now = pos 9;
  start_error = no_error;
  arrivals = frame 1 ∷ frame 2 ∷ closed ∷ [];
  left = 3 ∷ [];
}

run-Exits_example : Exits (sources has_token no_flags) life (run (sources has_token no_flags) life)
run-Exits_example = run-Exits (sources has_token no_flags) life

code-served : (run (sources has_token no_flags) life).code ≡ 0
unfolding run parse new_runner Settings.validate has_token no_flags parse_uri opened no_error
code-served = refl

code-unset : (run (sources no_token no_flags) life).code ≡ 1
unfolding run parse no_token no_flags parse_uri
code-unset = refl

code-helped : run (sources has_token asks_help) life ≡ record { code = 0; actions = [] }
unfolding run parse has_token asks_help is_help parse_uri
code-helped = refl
