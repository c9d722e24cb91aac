-- ===== src/Server/Oauth/Flow/Tests.antt =====
-- A login and a callback with the state of its cookie.
use busybar_bridge.Prelude.{ℕ, ◌≡◌, refl, true, List, [], ◌∷◌, ◌++◌, Option, none, some, arith}
use busybar_bridge.Prelude.Int.{ℤ, pos}
use busybar_bridge.Prelude.Result.{Result, ok}
use busybar_bridge.Prelude.Text.{Text, codes}
use busybar_bridge.Telemetry.Types.{zero_time}
use busybar_bridge.Calendar.Store.{CalendarBinding, Store, Disk, Calls}
use busybar_bridge.Calendar.Manager.{
  OauthConfig, Manager, Google, Token, UserInfo, generate_auth_url, exchange_code,
}
use busybar_bridge.Calendar.Manager.Exchange.{Granted, exchange_code_iff}
use busybar_bridge.Server.Http.{Request, query_get, is_get_or_head}
use busybar_bridge.Server.Oauth.{handle_login, handle_callback, is_oauth_configured}
use busybar_bridge.Server.Oauth.Granting.{exchanger}
use busybar_bridge.Server.Oauth.Flow.{Returns, linked, handle_callback-handle_login}

abbrev manager : Manager
manager = record {
  cfg = record {
    client_id = codes "id";
    client_secret = codes "secret";
    redirect_url = [];
    auth_url = [];
    token_url = [];
    user_info_url = [];
  };
  oauth_config = record {
    client_id = codes "id";
    client_secret = codes "secret";
    redirect_url = [];
    scopes = [];
    auth_url = codes "https://a";
    token_url = codes "https://t";
  };
  user_info_url = codes "https://u";
}

auth_code_url : OauthConfig → Text → Text
auth_code_url c state = state

abbrev eight : List ℕ
eight = 9 ∷ 8 ∷ 7 ∷ 6 ∷ 5 ∷ 4 ∷ 3 ∷ 250 ∷ []

abbrev nonce : List ℕ
nonce = eight ++ (eight ++ (eight ++ eight))

abbrev token : Token
token = record { access_token = codes "at"; refresh_token = codes "rt"; expiry = zero_time }

exchange : Text → Result Text Token
exchange code = ok token

no_error : Text → Option Text
no_error url = none

info : Text → Token → Result Text UserInfo
info url t = ok (record { status = pos 200; body = []; profile = ok (codes "eve@x") })

google : Google
google = record { exchange = exchange; bad_request = no_error; user_info = info }

abbrev eve : CalendarBinding
eve = record {
  email = codes "eve@x";
  access_token = codes "at";
  refresh_token = codes "rt";
  token_expiry_unix = pos 0;
  calendar_id = codes "primary";
  linked_at_unix = pos 4;
}

abbrev now : ℤ
now = pos 62_135_596_804_000_000_000

marshal : CalendarBinding → Option CalendarBinding
marshal b = some b

dir : Text → Text
dir path = codes "/data"

escape : Text → Text
escape t = t

abbrev calls : Calls CalendarBinding
calls = record {
  mkdir = true;
  create = true;
  created = eve;
  torn = none;
  sync = true;
  close = true;
  chmod = true;
  rename = true;
  remove = true;
}

abbrev store : Store
store = record { path = codes "/data/b.pb"; binding = none }

abbrev disk : Disk CalendarBinding
disk = record { file = none; temp = none }

abbrev login : Request
login = record { method = codes "GET"; query = []; oauth_state = none }

abbrev state : Text
state = codes "CQgHBgUEA_oJCAcGBQQD-gkIBwYFBAP6CQgHBgUEA_o="

abbrev back : Request
back = record {
  method = codes "GET";
  query = (codes "state", state) ∷ (codes "code", codes "c1") ∷ [];
  oauth_state = some state;
}

back-Returns : Returns state (codes "c1") back
unfolding query_get is_get_or_head
back-Returns = record {
  method = refl;
  cookie = refl;
  state_back = refl;
  no_error = refl;
  code_back = refl;
}

granted : Granted google manager now (codes "c1") eve
unfolding exchange_code google exchange no_error info
granted = (exchange_code_iff google manager now (codes "c1") eve).0 refl

handle_callback-handle_login_example :
    handle_callback marshal dir escape calls
      (some store)
      disk
      (some (exchanger google manager now))
      back
    ≡ linked store eve eve
unfolding handle_login is_oauth_configured generate_auth_url is_get_or_head marshal
handle_callback-handle_login_example =
    handle_callback-handle_login marshal dir escape calls store disk google manager now none
      (some true) auth_code_url nonce login back state (codes "c1") eve eve refl refl (omega arith)
      refl refl refl back-Returns granted
      (record {
        marshalled = refl;
        mkdir = refl;
        create = refl;
        torn = refl;
        sync = refl;
        close = refl;
        chmod = refl;
        rename = refl;
      })
