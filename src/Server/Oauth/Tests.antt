-- ===== src/Server/Oauth/Tests.antt =====
-- A callback that links a calendar.
use busybar_bridge.Prelude.{◌≡◌, ◌⊎◌, refl, true, [], ◌∷◌, Option, none, some}
use busybar_bridge.Prelude.Int.{pos}
use busybar_bridge.Prelude.Result.{Result, ok}
use busybar_bridge.Prelude.Text.{Text, codes}
use busybar_bridge.Calendar.Store.{CalendarBinding, Store, Disk, Calls}
use busybar_bridge.Server.Http.{Request}
use busybar_bridge.Server.Oauth.{handle_callback}
use busybar_bridge.Server.Oauth.Linking.{Unchanged, Linked, handle_callback-Linked}

ann : CalendarBinding
ann = record {
  email = codes "ann";
  access_token = codes "a";
  refresh_token = codes "r";
  token_expiry_unix = pos 5;
  calendar_id = codes "primary";
  linked_at_unix = pos 4;
}

marshal : CalendarBinding → Option CalendarBinding
marshal b = some b

dir : Text → Text
dir path = codes "/data"

escape : Text → Text
escape t = t

calls : Calls CalendarBinding
calls = record {
  mkdir = true;
  create = true;
  created = ann;
  torn = none;
  sync = true;
  close = true;
  chmod = true;
  rename = true;
  remove = true;
}

abbrev store : Option Store
store = some (record { path = codes "/data/b.pb"; binding = none })

abbrev disk : Disk CalendarBinding
disk = record { file = none; temp = none }

exchange_code : Text → Result Text CalendarBinding
exchange_code code = ok ann

abbrev request : Request
request = record {
  method = codes "GET";
  query = (codes "state", codes "s1") ∷ (codes "code", codes "c1") ∷ [];
  oauth_state = some (codes "s1");
}

linked-status :
    (handle_callback marshal dir escape calls store disk
      (some exchange_code)
      request).reply.location
    ≡ some (codes "/status?success=linked")
unfolding handle_callback exchange_code marshal calls dir
linked-status = refl

handle_callback-Linked_example :
    let out = handle_callback marshal dir escape calls store disk (some exchange_code) request in
    Unchanged marshal dir escape calls store disk out
    ⊎ Linked marshal dir escape calls store (some exchange_code) request out
handle_callback-Linked_example =
    handle_callback-Linked marshal dir escape calls store disk (some exchange_code) request
