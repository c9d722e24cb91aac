-- ===== src/Config/App.antt =====
-- internal/config/config.go: `AppConfig`, its defaults, its validation and its sources.
-- `url.ParseRequestURI`, `time.ParseDuration` and `strconv.ParseBool` are arguments, and so are the
-- environment and what the package `flag` makes of the command line.
use busybar_bridge.Prelude.{
  Bool, true, false, not, ◌&&◌, ◌||◌, [], ◌++◌, Option, none, some, if◌then◌else◌,
}
use busybar_bridge.Prelude.Decimal.{parse_int}
use busybar_bridge.Prelude.Int.{ℤ, pos, ltb_ℤ, leb_ℤ}
use busybar_bridge.Prelude.Result.{Result, ok, err, ◌>>=◌}
use busybar_bridge.Prelude.Text.{Text, codes, is_empty, text_eq, trim_space}

pub record AppConfig : Type 0 where
  pub busy_bar_host : Text
  pub busy_bar_port : ℤ
  pub busy_bar_device_id : Text
  pub hass_url : Text
  pub hass_token : Text
  pub hass_event_type : Text
  pub hass_timeout : ℤ
  pub forward_state_events : Bool
  pub port : ℤ
  pub shutdown_timeout : ℤ
  pub log_level : Text
  pub google_client_id : Text
  pub google_client_secret : Text
  pub google_redirect_url : Text
  pub calendar_store_path : Text
  pub enable_outbound_push : Bool
  pub busy_bar_api_key : Text
  pub push_timeout : ℤ
  pub enable_calendar_sync : Bool
  pub calendar_poll_interval : ℤ

unfoldable pub default_app_config : AppConfig
default_app_config = record {
  busy_bar_host = codes "192.168.68.196";
  busy_bar_port = pos 80;
  busy_bar_device_id = codes "busybar";
  hass_url = codes "http://homeassistant.local:8123";
  hass_token = [];
  hass_event_type = codes "busybar_event";
  hass_timeout = pos 5_000_000_000;
  forward_state_events = false;
  port = pos 8080;
  shutdown_timeout = pos 10_000_000_000;
  log_level = codes "info";
  google_client_id = [];
  google_client_secret = [];
  google_redirect_url = codes "http://localhost:8080/oauth/google/callback";
  calendar_store_path = codes "/data/calendar_binding.pb";
  enable_outbound_push = false;
  busy_bar_api_key = [];
  push_timeout = pos 3_000_000_000;
  enable_calendar_sync = false;
  calendar_poll_interval = pos 60_000_000_000;
}

unfoldable pub is_oauth_configured : AppConfig → Bool
unfolding trim_space
is_oauth_configured c =
    not (is_empty (trim_space c.google_client_id))
    && not (is_empty (trim_space c.google_client_secret))

pub data ConfigError : Type 0 where
  missing_hass_token invalid_hass_url invalid_port invalid_busy_bar_port : ConfigError
  invalid_hass_timeout invalid_shutdown_timeout invalid_google_redirect_url : ConfigError
  invalid_push_timeout invalid_calendar_poll_interval : ConfigError

-- A URL as far as it is looked at.
pub record Url : Type 0 where
  pub scheme : Text
  pub host : Text

abbrev pub in_port_range : ℤ → Bool
in_port_range p = not (ltb_ℤ p (pos 1) || ltb_ℤ (pos 65535) p)

-- if c { return e }; rest
unfoldable pub reject : {E : Type 0} → Bool → E → Option E → Option E
reject true e rest = some e
reject false e rest = rest

module _ (parse_uri : Text → Option Url) where
  -- Whether an URL can be used: it can be parsed, its scheme is `http` or `https`, it has a host.
  unfoldable pub is_http_url : Text → Bool
  unfolding text_eq
  is_http_url s = elim (parse_uri s) [
    | none ↦ false
    | some u ↦
        (text_eq u.scheme (codes "http") || text_eq u.scheme (codes "https"))
        && not (is_empty u.host)
  ]

  unfoldable pub validate : AppConfig → Option ConfigError
  unfolding reject is_http_url trim_space
  validate c = reject (is_empty (trim_space c.hass_token)) missing_hass_token (
      reject (is_empty (trim_space c.hass_url)) invalid_hass_url (
        reject (not (is_http_url c.hass_url)) invalid_hass_url (
          reject
            (not (is_empty (trim_space c.google_redirect_url))
              && not (is_http_url c.google_redirect_url))
            invalid_google_redirect_url
            (reject (not (in_port_range c.port)) invalid_port (
              reject (not (in_port_range c.busy_bar_port)) invalid_busy_bar_port (
                reject (leb_ℤ c.hass_timeout (pos 0)) invalid_hass_timeout (
                  reject (leb_ℤ c.shutdown_timeout (pos 0)) invalid_shutdown_timeout (
                    reject (leb_ℤ c.push_timeout (pos 0)) invalid_push_timeout (
                      reject (leb_ℤ c.calendar_poll_interval (pos 0)) invalid_calendar_poll_interval
                        none)))))))))

-- if v := os.Getenv(name); v != "" { … }
or_value : Text → Text → Text
or_value v old = if is_empty v then old else v

or_parsed : {A : Type 0} → (Text → Result Text A) → Text → Text → A → Result Text A
or_parsed parse name v old = if is_empty v then ok old else elim (parse v) [
  | ok a ↦ ok a
  | err e ↦ err (codes "invalid " ++ (name ++ (codes ": " ++ e)))
]

-- strconv.Atoi
parse_number : Text → Result Text ℤ
unfolding parse_int
parse_number v = elim (parse_int v) [
  | none ↦ err (codes "strconv.Atoi: parsing failed")
  | some n ↦ ok n
]

-- Why `Parse` fails: a variable, the command line, or the validation.
pub data ParseError : Type 0 where
  bad_variable bad_flags : Text → ParseError
  bad_config : ConfigError → ParseError

unfoldable pub checked : AppConfig → Option ConfigError → Result ParseError AppConfig
checked c none = ok c
checked c (some e) = err (bad_config e)

module _ (parse_uri : Text → Option Url) (parse_duration : Text → Result Text ℤ)
    (parse_bool : Text → Result Text Bool) where
  -- The settings from the environment, over the defaults.
  unfoldable pub load_env : (Text → Text) → Result Text AppConfig
  unfolding default_app_config or_value or_parsed parse_number
  load_env getenv =
      let d = default_app_config in
      or_parsed parse_number (codes "BUSYBAR_PORT") (getenv (codes "BUSYBAR_PORT")) d.busy_bar_port
      >>= (λ busy_bar_port.
          or_parsed parse_duration (codes "HASS_TIMEOUT") (getenv (codes "HASS_TIMEOUT"))
            d.hass_timeout
          >>= (λ hass_timeout.
              or_parsed parse_bool (codes "FORWARD_STATE_EVENTS")
                (getenv (codes "FORWARD_STATE_EVENTS")) d.forward_state_events
              >>= (λ forward_state_events.
                  or_parsed parse_number (codes "PORT") (getenv (codes "PORT")) d.port >>= (λ port.
                    or_parsed parse_duration (codes "SHUTDOWN_TIMEOUT")
                      (getenv (codes "SHUTDOWN_TIMEOUT")) d.shutdown_timeout
                    >>= (λ shutdown_timeout.
                        or_parsed parse_bool (codes "ENABLE_OUTBOUND_PUSH")
                          (getenv (codes "ENABLE_OUTBOUND_PUSH")) d.enable_outbound_push
                        >>= (λ enable_outbound_push.
                            or_parsed parse_duration (codes "PUSH_TIMEOUT")
                              (getenv (codes "PUSH_TIMEOUT")) d.push_timeout
                            >>= (λ push_timeout.
                                or_parsed parse_bool (codes "ENABLE_CALENDAR_SYNC")
                                  (getenv (codes "ENABLE_CALENDAR_SYNC")) d.enable_calendar_sync
                                >>= (λ enable_calendar_sync.
                                    or_parsed parse_duration (codes "CALENDAR_POLL_INTERVAL")
                                      (getenv (codes "CALENDAR_POLL_INTERVAL"))
                                      d.calendar_poll_interval
                                    >>= (λ calendar_poll_interval. ok (record {
                                      busy_bar_host =
                                          or_value (getenv (codes "BUSYBAR_HOST")) d.busy_bar_host;
                                      busy_bar_port = busy_bar_port;
                                      busy_bar_device_id =
                                          or_value (getenv (codes "BUSYBAR_DEVICE_ID"))
                                            d.busy_bar_device_id;
                                      hass_url = or_value (getenv (codes "HASS_URL")) d.hass_url;
                                      hass_token =
                                          or_value (getenv (codes "HASS_TOKEN")) d.hass_token;
                                      hass_event_type =
                                          or_value (getenv (codes "HASS_EVENT_TYPE"))
                                            d.hass_event_type;
                                      hass_timeout = hass_timeout;
                                      forward_state_events = forward_state_events;
                                      port = port;
                                      shutdown_timeout = shutdown_timeout;
                                      log_level = or_value (getenv (codes "LOG_LEVEL")) d.log_level;
                                      google_client_id =
                                          or_value (getenv (codes "GOOGLE_CLIENT_ID"))
                                            d.google_client_id;
                                      google_client_secret =
                                          or_value (getenv (codes "GOOGLE_CLIENT_SECRET"))
                                            d.google_client_secret;
                                      google_redirect_url =
                                          or_value (getenv (codes "GOOGLE_REDIRECT_URL"))
                                            d.google_redirect_url;
                                      calendar_store_path =
                                          or_value (getenv (codes "CALENDAR_STORE_PATH"))
                                            d.calendar_store_path;
                                      enable_outbound_push = enable_outbound_push;
                                      busy_bar_api_key =
                                          or_value (getenv (codes "BUSYBAR_API_KEY"))
                                            d.busy_bar_api_key;
                                      push_timeout = push_timeout;
                                      enable_calendar_sync = enable_calendar_sync;
                                      calendar_poll_interval = calendar_poll_interval;
                                    }))))))))))

  -- `apply_flags` is the command line: it starts from the values of the environment.
  unfoldable pub parse :
      (Text → Text) → (AppConfig → Result Text AppConfig) → Result ParseError AppConfig
  unfolding load_env checked validate
  parse getenv apply_flags = elim (load_env getenv) [
    | err e ↦ err (bad_variable e)
    | ok c ↦ elim (apply_flags c) [
      | err e ↦ err (bad_flags e)
      | ok c' ↦ checked c' (validate parse_uri c')
    ]
  ]
