-- ===== src/Server/Routes.antt =====
-- internal/server/server.go: the routes of the server, and the requests one after the other. The
-- multiplexer sees a clean path; one with `.`, `..` or an empty part is redirected before any handler.
mod Tests
pub mod Guarded
use busybar_bridge.Prelude.{
  Bool, true, false, not, ◌&&◌, List, [], ◌∷◌, Option, none, some, if◌then◌else◌,
}
use busybar_bridge.Prelude.Int.{ℤ}
use busybar_bridge.Prelude.Result.{Result, err}
use busybar_bridge.Prelude.Text.{Text, codes, text_eq}
use busybar_bridge.Telemetry.Types
use busybar_bridge.Calendar.Store.{CalendarBinding, Store, Disk, Calls}
use busybar_bridge.Calendar.Events.{ActiveEvent}
use busybar_bridge.Calendar.Display.Render.{DisplayState}
use busybar_bridge.Server.Http.{Request, Reply, is_get_or_head}
use busybar_bridge.Server.Oauth.{
  Called, store_is_bound, is_oauth_configured, handle_login, handle_callback,
}
use busybar_bridge.Server.Page.{PageWorld, status_data, handle_status}
use busybar_bridge.Server.Probes.{handle_healthz, handle_ready}
use busybar_bridge.Server.Setup
use busybar_bridge.Server.Setup.{Server}

-- The OAuth manager by what its methods answer.
pub record Manager : Type 0 where
  pub generated : Result Text (Text × Text)
  pub exchange_code : Text → Result Text CalendarBinding
  pub says_configured : Bool

-- The server over the values of its dependencies.
abbrev pub LiveServer : Type 0
LiveServer = Server Types.Store Store Manager ActiveEvent DisplayState

-- The handlers.
pub data Route : Type 0 where
  healthz ready status oauth_login oauth_callback : Route

-- The patterns but `/` match one path each; `/` matches every other path.
pub route_of : Text → Route
unfolding text_eq
route_of path =
    if text_eq path (codes "/healthz")
    then healthz
    else if text_eq path (codes "/ready")
    then ready
    else if text_eq path (codes "/oauth/google/login")
    then oauth_login
    else if text_eq path (codes "/oauth/google/callback")
    then oauth_callback
    else status

says_of : Option Manager → Option Bool
says_of none = none
says_of (some m) = some m.says_configured

pub exchange_of : Option Manager → Option (Text → Result Text CalendarBinding)
exchange_of none = none
exchange_of (some m) = some m.exchange_code

-- The reply, or none where the handler panics; and the calendar store and its disk.
pub record Served (Bytes : Type 0) : Type 0 where
  pub reply : Option Reply
  pub calendar_store : Option Store
  pub disk : Disk Bytes

module _ {Bytes : Type 0} (marshal : CalendarBinding → Option Bytes) (dir : Text → Text)
    (escape : Text → Text) (w : PageWorld) where
  kept_store : LiveServer → Disk Bytes → Option Reply → Served Bytes
  kept_store s disk reply = record { reply = reply; calendar_store = s.calendar_store; disk = disk }

  -- handleOAuthGoogleLogin; a call of the method of a nil manager panics.
  login : LiveServer → Request → Option Manager → Option Reply
  unfolding handle_login
  login s r (some m) =
      some (handle_login s.calendar_store s.oauth_configured (some m.says_configured) m.generated r)
  login s r none =
      if is_get_or_head r
        && not (store_is_bound s.calendar_store)
        && is_oauth_configured s.oauth_configured none
      then none
      else some (handle_login s.calendar_store s.oauth_configured none (err []) r)

  pub serve_route : Calls Bytes → LiveServer → Disk Bytes → Text → Request → Route → Served Bytes
  unfolding kept_store login exchange_of
  serve_route calls s disk path r healthz = kept_store s disk (some (handle_healthz r))
  serve_route calls s disk path r ready = kept_store s disk (some (handle_ready s.store r))
  serve_route calls s disk path r status = kept_store s disk (
      some (
        handle_status w path
          (status_data w s.store s.oauth_configured (says_of s.oauth_mgr) s.calendar_store
            s.event_tracker s.display_provider r)
          r))
  serve_route calls s disk path r oauth_login = kept_store s disk (login s r s.oauth_mgr)
  serve_route calls s disk path r oauth_callback =
      let out =
        handle_callback marshal dir escape calls s.calendar_store disk (exchange_of s.oauth_mgr)
          r in
      record { reply = some out.reply; calendar_store = out.store; disk = out.disk }

  pub serve : Calls Bytes → LiveServer → Disk Bytes → Text → Request → Served Bytes
  unfolding serve_route
  serve calls s disk path r = serve_route calls s disk path r (route_of path)

  -- Requests one after the other, each with its path and what the system calls of its save answer.
  pub serve_all :
      LiveServer → Disk Bytes → List (Text × Request × Calls Bytes) → LiveServer × Disk Bytes
  unfolding serve
  serve_all s disk [] = (s, disk)
  serve_all s disk ((path, r, calls) ∷ rest) =
      let out = serve calls s disk path r in
      serve_all (record s { calendar_store = out.calendar_store }) out.disk rest
