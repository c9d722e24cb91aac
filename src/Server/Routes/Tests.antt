-- ===== src/Server/Routes/Tests.antt =====
-- A server with a calendar store and a manager: a callback, a page and a wrong method.
use busybar_bridge.Prelude.{◌≡◌, refl, true, [], ◌∷◌, Option, none, some}
use busybar_bridge.Prelude.Int.{ℤ, pos}
use busybar_bridge.Prelude.Result.{Result, ok}
use busybar_bridge.Prelude.Text.{Text, codes}
use busybar_bridge.Calendar.Store.{CalendarBinding, Disk, Calls}
use busybar_bridge.Server.Http.{Request, Reply}
use busybar_bridge.Server.Oauth.{handle_callback}
use busybar_bridge.Server.Probes.{handle_healthz}
use busybar_bridge.Server.Page.{PageWorld, StatusData, handle_status}
use busybar_bridge.Server.Routes.{LiveServer, Manager, route_of, serve, serve_all}
use busybar_bridge.Server.Routes.Guarded.{IsGuarded, serve-IsGuarded}
use busybar_bridge.Server.Setup.{
  default_config, new_server, with_calendar_store, with_calendar_manager, with_oauth_configured,
}

abbrev eve : CalendarBinding
eve = record {
  email = codes "eve";
  access_token = codes "t1";
  refresh_token = codes "t2";
  token_expiry_unix = pos 9;
  calendar_id = codes "work";
  linked_at_unix = pos 7;
}

exchange_code : Text → Result Text CalendarBinding
exchange_code code = ok eve

manager : Manager
manager = record {
  generated = ok (codes "https://a", codes "x");
  exchange_code = exchange_code;
  says_configured = true;
}

server : LiveServer
server = new_server default_config none (
    with_calendar_store (some (record { path = codes "/d/b"; binding = none }))
    ∷ with_calendar_manager (some manager)
    ∷ with_oauth_configured true
    ∷ [])

no_text : ℤ → Text
no_text t = []

encode : StatusData → Text
encode d = codes "{}"

world : PageWorld
world = record {
  uptime = pos 0;
  now = pos 0;
  accept = codes "text/html, application/json";
  format_time = no_text;
  date_line = no_text;
  time_line = no_text;
  encode = encode;
  execute = none;
}

marshal : CalendarBinding → Option CalendarBinding
marshal b = some b

dir : Text → Text
dir path = codes "/d"

same : Text → Text
same t = t

abbrev all_succeed : Calls CalendarBinding
all_succeed = record {
  mkdir = true;
  create = true;
  created = eve;
  torn = none;
  sync = true;
  close = true;
  chmod = true;
  rename = true;
  remove = true;
}

abbrev no_file : Disk CalendarBinding
no_file = record { file = none; temp = none }

abbrev callback : Request
callback = record {
  method = codes "GET";
  query = (codes "state", codes "x") ∷ (codes "code", codes "y") ∷ [];
  oauth_state = some (codes "x");
}

abbrev posted : Request
posted = record { method = codes "POST"; query = []; oauth_state = none }

abbrev got : Request
got = record { method = codes "GET"; query = []; oauth_state = none }

abbrev callback_path : Text
callback_path = codes "/oauth/google/callback"

serve-IsGuarded_example :
    IsGuarded marshal dir same world all_succeed server no_file callback_path callback
      (serve marshal dir same world all_succeed server no_file callback_path callback)
serve-IsGuarded_example =
    serve-IsGuarded marshal dir same world all_succeed server no_file callback_path callback

-- The page as JSON, a wrong method, an unknown path; then a callback, and a second one.
file-run :
    (serve_all marshal dir same world server no_file (
      (codes "/status", got, all_succeed)
      ∷ (codes "/ready", posted, all_succeed)
      ∷ (callback_path, callback, all_succeed)
      ∷ (callback_path, callback, all_succeed)
      ∷ [])).1.file
    ≡ some eve
unfolding serve_all server new_server world marshal dir exchange_code manager encode no_text
    route_of handle_callback
file-run = refl

status_of : Option Reply → Option Text
status_of none = none
status_of (some r) = some r.body

json-run :
    status_of (serve marshal dir same world all_succeed server no_file (codes "/") got).reply
    ≡ some (codes "{}")
unfolding serve server new_server world encode no_text status_of route_of handle_status
json-run = refl

posted-run :
    status_of
      (serve marshal dir same world all_succeed server no_file (codes "/healthz") posted).reply
    ≡ some (codes "Method Not Allowed")
unfolding serve server new_server status_of route_of handle_healthz
posted-run = refl
