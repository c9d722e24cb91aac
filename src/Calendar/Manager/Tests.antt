-- ===== src/Calendar/Manager/Tests.antt =====
-- A nonce of 32 bytes, the known texts of RFC 4648, and an exchange.
use busybar_bridge.Prelude.{
  ℕ, ◌≡◌, ◌↔◌, refl, true, List, [], ◌∷◌, ◌++◌, Option, none, some, arith, length,
}
use busybar_bridge.Prelude.Int.{ℤ, pos}
use busybar_bridge.Prelude.Result.{Result, ok, err}
use busybar_bridge.Prelude.Text.{Text, codes}
use busybar_bridge.Calendar.Store.{CalendarBinding}
use busybar_bridge.Calendar.Manager.{
  OauthConfig, Manager, Google, Token, UserInfo, new_manager, is_configured, encode_base64,
  generate_auth_url, exchange_code, missing_email,
}
use busybar_bridge.Calendar.Manager.Nonce.{decode_base64, generate_auth_url-decodes}
use busybar_bridge.Calendar.Manager.Exchange.{Granted, exchange_code_iff}

abbrev manager : Manager
manager = record {
  cfg = record {
    client_id = codes "id";
    client_secret = codes "secret";
    redirect_url = [];
    auth_url = [];
    token_url = [];
    user_info_url = [];
  };
  oauth_config = record {
    client_id = codes "id";
    client_secret = codes "secret";
    redirect_url = [];
    scopes = [];
    auth_url = codes "https://a";
    token_url = codes "https://t";
  };
  user_info_url = codes "https://u";
}

foobar : encode_base64 (codes "foobar") ≡ codes "Zm9vYmFy"
unfolding encode_base64
foobar = refl

fooba : encode_base64 (codes "fooba") ≡ codes "Zm9vYmE="
unfolding encode_base64
fooba = refl

high : encode_base64 (251 ∷ 239 ∷ 255 ∷ 254 ∷ []) ≡ codes "--___g=="
unfolding encode_base64
high = refl

auth_code_url : OauthConfig → Text → Text
auth_code_url c state = c.auth_url ++ (codes "?state=" ++ state)

abbrev eight : List ℕ
eight = 0 ∷ 255 ∷ 7 ∷ 62 ∷ 63 ∷ 128 ∷ 1 ∷ 200 ∷ []

abbrev nonce : List ℕ
nonce = eight ++ (eight ++ (eight ++ eight))

generate_auth_url-decodes_example :
    (state : Text) × (generate_auth_url auth_code_url manager (ok nonce)
      ≡ ok (auth_code_url manager.oauth_config state, state))
    × (length state ≡ 44)
    × (decode_base64 state ≡ nonce)
generate_auth_url-decodes_example =
    generate_auth_url-decodes auth_code_url manager nonce (omega arith) refl

token : Token
token = record {
  access_token = codes "at";
  refresh_token = codes "rt";
  expiry = pos 62_135_596_807_500_000_000;
}

exchange : Text → Result Text Token
exchange code = ok token

no_error : Text → Option Text
no_error url = none

info : Text → Text → Token → Result Text UserInfo
info email url t = ok (record { status = pos 200; body = []; profile = ok email })

google : Text → Google
google email = record { exchange = exchange; bad_request = no_error; user_info = info email }

abbrev eve : CalendarBinding
eve = record {
  email = codes "eve@x";
  access_token = codes "at";
  refresh_token = codes "rt";
  token_expiry_unix = pos 7;
  calendar_id = codes "primary";
  linked_at_unix = pos 4;
}

abbrev now : ℤ
now = pos 62_135_596_804_000_000_000

exchange_code_iff_example :
    (exchange_code (google (codes "eve@x")) manager now (codes "c") ≡ ok eve)
    ↔ Granted (google (codes "eve@x")) manager now (codes "c") eve
exchange_code_iff_example = exchange_code_iff (google (codes "eve@x")) manager now (codes "c") eve

granted-run : exchange_code (google (codes "eve@x")) manager now (codes "c") ≡ ok eve
unfolding exchange_code google exchange token no_error info
granted-run = refl

refused-run : exchange_code (google (codes " ")) manager now (codes "c") ≡ err missing_email
unfolding exchange_code google exchange token no_error info
refused-run = refl

configured-run :
    is_configured (some (new_manager (codes "https://a") (codes "https://t") manager.cfg)) ≡ true
unfolding is_configured new_manager
configured-run = refl
