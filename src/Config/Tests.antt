-- ===== src/Config/Tests.antt =====
-- Settings from an environment with a token.
use busybar_bridge.Prelude.{◌≡◌, ◌↔◌, refl, Bool, true, [], Option, none, some, if◌then◌else◌}
use busybar_bridge.Prelude.Int.{ℤ, pos}
use busybar_bridge.Prelude.Result.{Result, ok}
use busybar_bridge.Prelude.Text.{Text, codes, text_eq}
use busybar_bridge.Config.App.{AppConfig, Url, default_app_config, validate, parse}
use busybar_bridge.Config.Validation.{IsValid, validate_iff, parse-IsValid}
use busybar_bridge.Hass.Settings
use busybar_bridge.Hass.Settings.{settings_of}

parse_uri : Text → Option Url
parse_uri t = some (record { scheme = codes "http"; host = codes "h" })

parse_duration : Text → Result Text ℤ
parse_duration t = ok (pos 1_000_000_000)

parse_bool : Text → Result Text Bool
parse_bool t = ok true

getenv : Text → Text
unfolding text_eq
getenv name =
    if text_eq name (codes "HASS_TOKEN")
    then codes "abc"
    else if text_eq name (codes "PORT")
    then codes "9000"
    else []

apply_flags : AppConfig → Result Text AppConfig
apply_flags c = ok c

abbrev config : AppConfig
unfolding default_app_config
config = record default_app_config { hass_token = codes "abc"; port = pos 9000 }

parsed : parse parse_uri parse_duration parse_bool getenv apply_flags ≡ ok config
unfolding parse getenv apply_flags parse_uri config
parsed = refl

validate_iff_example : (validate parse_uri config ≡ none) ↔ IsValid parse_uri config
validate_iff_example = validate_iff parse_uri config

parse-IsValid_example :
    IsValid parse_uri config × (Settings.validate parse_uri (settings_of config) ≡ none)
parse-IsValid_example =
    parse-IsValid parse_uri parse_duration parse_bool getenv apply_flags config parsed
