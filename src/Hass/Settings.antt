-- ===== src/Hass/Settings.antt =====
-- internal/hass/config.go: the validation of the client's settings, and (internal/runner/runner.go)
-- the settings that `NewRunner` makes of the bridge's.
use busybar_bridge.Prelude.{not, Option, none}
use busybar_bridge.Prelude.Int.{pos, leb_ℤ}
use busybar_bridge.Prelude.Text.{Text, is_empty, trim_space}
use busybar_bridge.Config.App.{AppConfig, Url, reject, is_http_url}
use busybar_bridge.Hass.Client.{Config, default_config}

pub data SettingsError : Type 0 where
  missing_token invalid_base_url invalid_request_timeout invalid_ttl : SettingsError
  invalid_max_retries invalid_buffer_size invalid_retry_backoff : SettingsError

module _ (parse_uri : Text → Option Url) where
  unfoldable pub validate : Config → Option SettingsError
  unfolding reject is_http_url trim_space
  validate c = reject (is_empty (trim_space c.token)) missing_token (
      reject (is_empty (trim_space c.base_url)) invalid_base_url (
        reject (not (is_http_url parse_uri c.base_url)) invalid_base_url (
          reject (leb_ℤ c.request_timeout (pos 0)) invalid_request_timeout (
            reject (leb_ℤ c.ttl (pos 0)) invalid_ttl (
              reject (leb_ℤ c.max_retries (pos 0)) invalid_max_retries (
                reject (leb_ℤ c.buffer_size (pos 0)) invalid_buffer_size
                  (reject (leb_ℤ c.retry_backoff (pos 0)) invalid_retry_backoff none)))))))

-- `hassCfg` of `NewRunner`.
unfoldable pub settings_of : AppConfig → Config
unfolding default_config
settings_of cfg = record default_config {
  base_url = cfg.hass_url;
  token = cfg.hass_token;
  event_type = cfg.hass_event_type;
  request_timeout = cfg.hass_timeout;
}
