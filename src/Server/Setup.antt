-- ===== src/Server/Setup.antt =====
-- internal/server/server.go: the server's settings and its optional dependencies, of any types: the
-- telemetry store, the calendar store, the OAuth manager, the tracker and the display.
use busybar_bridge.Prelude.{Bool, List, [], ◌∷◌, Option, none, some, if◌then◌else◌}
use busybar_bridge.Prelude.Decimal.{itoa}
use busybar_bridge.Prelude.Int.{ℤ, pos, ltb_ℤ, leb_ℤ, eq_ℤ}
use busybar_bridge.Prelude.Text.{Text, codes}

pub record Config : Type 0 where
  pub port : ℤ
  pub read_timeout : ℤ
  pub write_timeout : ℤ

unfoldable pub default_config : Config
default_config = record {
  port = pos 8080;
  read_timeout = pos 5_000_000_000;
  write_timeout = pos 10_000_000_000;
}

module _ (Tel Cal Mgr Trk Dsp : Type 0) where
  pub record ServerOptions : Type 0 where
    pub calendar_store : Option Cal
    pub oauth_manager : Option Mgr
    pub calendar_manager : Option Mgr
    pub oauth_configured : Option Bool
    pub event_tracker : Option Trk
    pub display_provider : Option Dsp

  -- `addr` is the address of the inner HTTP server; the template is part of the page.
  pub record Server : Type 0 where
    pub cfg : Config
    pub addr : Text
    pub store : Option Tel
    pub calendar_store : Option Cal
    pub oauth_mgr : Option Mgr
    pub oauth_configured : Option Bool
    pub event_tracker : Option Trk
    pub display_provider : Option Dsp

  pub data ServerOption : Type 0 where
    with_server_options : ServerOptions → ServerOption
    with_calendar_store : Option Cal → ServerOption
    with_oauth_manager with_calendar_manager : Option Mgr → ServerOption
    with_oauth_configured : Bool → ServerOption
    with_event_tracker : Option Trk → ServerOption
    with_display_provider : Option Dsp → ServerOption

-- `if x != nil { old = x }`
given_or {ℓ} : {A : Type ℓ} → Option A → Option A → Option A
given_or none old = old
given_or (some a) old = some a

fill_config : Config → Config
unfolding default_config
fill_config cfg = record {
  port = if eq_ℤ cfg.port (pos 0) then default_config.port else cfg.port;
  read_timeout =
      if leb_ℤ cfg.read_timeout (pos 0) then default_config.read_timeout else cfg.read_timeout;
  write_timeout =
      if leb_ℤ cfg.write_timeout (pos 0) then default_config.write_timeout else cfg.write_timeout;
}

module _ {Tel Cal Mgr Trk Dsp : Type 0} where
  apply_server_options :
      Server Tel Cal Mgr Trk Dsp → ServerOptions Tel Cal Mgr Trk Dsp → Server Tel Cal Mgr Trk Dsp
  unfolding given_or
  apply_server_options s o = record s {
    calendar_store = given_or o.calendar_store s.calendar_store;
    oauth_mgr = given_or o.oauth_manager (given_or o.calendar_manager s.oauth_mgr);
    oauth_configured = given_or o.oauth_configured s.oauth_configured;
    event_tracker = given_or o.event_tracker s.event_tracker;
    display_provider = given_or o.display_provider s.display_provider;
  }

  apply_option :
      Server Tel Cal Mgr Trk Dsp → ServerOption Tel Cal Mgr Trk Dsp → Server Tel Cal Mgr Trk Dsp
  unfolding apply_server_options
  apply_option s (with_server_options o) = apply_server_options s o
  apply_option s (with_calendar_store c) = record s { calendar_store = c }
  apply_option s (with_oauth_manager m) = record s { oauth_mgr = m }
  apply_option s (with_calendar_manager m) = record s { oauth_mgr = m }
  apply_option s (with_oauth_configured b) = record s { oauth_configured = some b }
  apply_option s (with_event_tracker t) = record s { event_tracker = t }
  apply_option s (with_display_provider d) = record s { display_provider = d }

  apply_options :
      Server Tel Cal Mgr Trk Dsp
      → List (ServerOption Tel Cal Mgr Trk Dsp)
      → Server Tel Cal Mgr Trk Dsp
  unfolding apply_option
  apply_options s [] = s
  apply_options s (o ∷ os) = apply_options (apply_option s o) os

  -- New, which NewServer and NewWithOptions call.
  unfoldable pub new_server :
      Config → Option Tel → List (ServerOption Tel Cal Mgr Trk Dsp) → Server Tel Cal Mgr Trk Dsp
  unfolding fill_config apply_options itoa
  new_server config store options =
      let cfg = fill_config config in
      apply_options
        (record {
          cfg = cfg;
          addr = if ltb_ℤ cfg.port (pos 0) then codes ":0" else b':' ∷ itoa cfg.port;
          store = store;
          calendar_store = none;
          oauth_mgr = none;
          oauth_configured = none;
          event_tracker = none;
          display_provider = none;
        })
        options
