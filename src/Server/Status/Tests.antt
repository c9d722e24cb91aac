-- ===== src/Server/Status/Tests.antt =====
-- The status page after a callback that links a calendar.
use busybar_bridge.Prelude.{◌≡◌, refl, true, [], ◌∷◌, Option, none, some}
use busybar_bridge.Prelude.Int.{ℤ, pos}
use busybar_bridge.Prelude.Result.{Result, ok}
use busybar_bridge.Prelude.Text.{Text, codes}
use busybar_bridge.Calendar.Store.{CalendarBinding, Store, Disk, Calls}
use busybar_bridge.Server.Http.{Request}
use busybar_bridge.Server.Oauth.{handle_callback}
use busybar_bridge.Server.Status.{calendar_status}

eve : CalendarBinding
eve = record {
  email = codes "eve";
  access_token = codes "t1";
  refresh_token = codes "t2";
  token_expiry_unix = pos 9;
  calendar_id = codes "work";
  linked_at_unix = pos 7;
}

format : ℤ → Text
format t = codes "1970-01-01T00:00:07Z"

marshal : CalendarBinding → Option CalendarBinding
marshal b = some b

dir : Text → Text
dir path = codes "/srv"

same : Text → Text
same t = t

all_succeed : Calls CalendarBinding
all_succeed = record {
  mkdir = true;
  create = true;
  created = eve;
  torn = none;
  sync = true;
  close = true;
  chmod = true;
  rename = true;
  remove = true;
}

abbrev unbound : Option Store
unbound = some (record { path = codes "/srv/c.pb"; binding = none })

abbrev no_file : Disk CalendarBinding
no_file = record { file = none; temp = none }

exchange_code : Text → Result Text CalendarBinding
exchange_code code = ok eve

abbrev callback : Request
callback = record {
  method = codes "GET";
  query = (codes "state", codes "x") ∷ (codes "code", codes "y") ∷ [];
  oauth_state = some (codes "x");
}

email-status :
    (calendar_status format none
      (some true)
      (handle_callback marshal dir same all_succeed unbound no_file
        (some exchange_code)
        callback).store
      none).email
    ≡ codes "eve"
unfolding calendar_status handle_callback exchange_code marshal dir all_succeed eve
email-status = refl
