-- ===== src/Calendar/Manager.antt =====
-- internal/calendar/manager.go: the OAuth manager. The packages `oauth2` and `http` are the record
-- `Google`: what the token endpoint and the user-info endpoint answer. Their 10 seconds of timeout
-- come as errors of those answers; `rand.Read` is the argument `nonce`.
pub mod Nonce
pub mod Visible
pub mod Exchange
mod Tests
use busybar_bridge.Prelude.{
  ℕ, ◌+◌, ◌-◌, ◌*◌, ◌/◌, ◌%◌, ◌==◌, Bool, true, false, not, ◌&&◌, List, [], ◌∷◌, ◌++◌, Option, none,
  some, if◌then◌else◌, ltb,
}
use busybar_bridge.Prelude.Decimal.{itoa}
use busybar_bridge.Prelude.Int.{ℤ, pos, negsuc, ◌-ℤ◌, eq_ℤ}
use busybar_bridge.Prelude.Result.{Result, ok, err}
use busybar_bridge.Prelude.Text.{Text, codes, is_empty, trim_space}
use busybar_bridge.Telemetry.Types.{zero_time}
use busybar_bridge.Calendar.Store.{CalendarBinding}

pub record ManagerConfig : Type 0 where
  pub client_id : Text
  pub client_secret : Text
  pub redirect_url : Text
  pub auth_url : Text
  pub token_url : Text
  pub user_info_url : Text

-- oauth2.Config
pub record OauthConfig : Type 0 where
  pub client_id : Text
  pub client_secret : Text
  pub redirect_url : Text
  pub scopes : List Text
  pub auth_url : Text
  pub token_url : Text

pub record Manager : Type 0 where
  pub cfg : ManagerConfig
  pub oauth_config : OauthConfig
  pub user_info_url : Text

abbrev default_user_info_url : Text
default_user_info_url = codes "https://www.googleapis.com/oauth2/v2/userinfo"

abbrev scopes_of_manager : List Text
scopes_of_manager =
    codes "https://www.googleapis.com/auth/calendar.events.readonly"
    ∷ codes "https://www.googleapis.com/auth/userinfo.email"
    ∷ []

-- `if x == "" { x = default }`
or_default : Text → Text → Text
or_default x d = if is_empty x then d else x

-- The first two arguments are the URLs of `google.Endpoint`.
unfoldable pub new_manager : Text → Text → ManagerConfig → Manager
unfolding or_default
new_manager google_auth_url google_token_url cfg = record {
  cfg = cfg;
  oauth_config = record {
    client_id = cfg.client_id;
    client_secret = cfg.client_secret;
    redirect_url = cfg.redirect_url;
    scopes = scopes_of_manager;
    auth_url = or_default cfg.auth_url google_auth_url;
    token_url = or_default cfg.token_url google_token_url;
  };
  user_info_url = or_default cfg.user_info_url default_user_info_url;
}

-- IsConfigured, also of a nil manager.
unfoldable pub is_configured : Option Manager → Bool
unfolding trim_space
is_configured none = false
is_configured (some m) =
    not (is_empty (trim_space m.cfg.client_id)) && not (is_empty (trim_space m.cfg.client_secret))

-- The alphabet of base64.URLEncoding: A-Z, a-z, 0-9, '-' and '_'.
pub digit64 : ℕ → ℕ
digit64 n =
    if ltb n 26
    then 65 + n
    else if ltb n 52
    then 71 + n
    else if ltb n 62
    then n - 4
    else if n == 62
    then b'-'
    else b'_'

-- base64.URLEncoding.EncodeToString: three bytes make four digits, and the end is padded.
pub encode_base64 : List ℕ → Text
unfolding digit64
encode_base64 [] = []
encode_base64 (a ∷ []) = digit64 (a / 4) ∷ digit64 (a % 4 * 16) ∷ b'=' ∷ b'=' ∷ []
encode_base64 (a ∷ b ∷ []) =
    digit64 (a / 4) ∷ digit64 (a % 4 * 16 + b / 16) ∷ digit64 (b % 16 * 4) ∷ b'=' ∷ []
encode_base64 (a ∷ b ∷ c ∷ rest) =
    digit64 (a / 4)
    ∷ digit64 (a % 4 * 16 + b / 16)
    ∷ digit64 (b % 16 * 4 + c / 64)
    ∷ digit64 (c % 64)
    ∷ encode_base64 rest

-- GenerateAuthURL: the URL and the state. `auth_code_url` is oauth2's AuthCodeURL with offline access
-- and the consent prompt; `nonce` is what `rand.Read` fills 32 bytes with, or its error.
unfoldable pub generate_auth_url :
    (OauthConfig → Text → Text) → Manager → Result Text (List ℕ) → Result Text (Text × Text)
unfolding encode_base64
generate_auth_url auth_code_url m (err e) =
    err (codes "failed to generate random state nonce: " ++ e)
generate_auth_url auth_code_url m (ok nonce) =
    let state = encode_base64 nonce in ok (auth_code_url m.oauth_config state, state)

-- oauth2.Token, with its expiry as an instant.
pub record Token : Type 0 where
  pub access_token : Text
  pub refresh_token : Text
  pub expiry : ℤ

-- The reply of the user-info endpoint: `profile` is the email in its JSON body, or the error of the
-- decoder.
pub record UserInfo : Type 0 where
  pub status : ℤ
  pub body : Text
  pub profile : Result Text Text

pub record Google : Type 0 where
  pub exchange : Text → Result Text Token
  -- the error of `http.NewRequestWithContext` for a URL
  pub bad_request : Text → Option Text
  pub user_info : Text → Token → Result Text UserInfo

pub data ExchangeError : Type 0 where
  empty_code missing_email : ExchangeError
  failed : Text → ExchangeError

-- Time.Unix of an instant: the seconds since 1970, rounded down.
pub unix_of : ℤ → ℤ
unfolding ◌-ℤ◌
unix_of (pos n) = pos (n / 1_000_000_000) -ℤ pos 62_135_596_800
unix_of (negsuc n) = negsuc (n / 1_000_000_000) -ℤ pos 62_135_596_800

pub expiry_unix : ℤ → ℤ
unfolding unix_of
expiry_unix t = if eq_ℤ t zero_time then pos 0 else unix_of t

binding_of : Token → Text → ℤ → CalendarBinding
unfolding expiry_unix unix_of
binding_of token email now = record {
  email = email;
  access_token = token.access_token;
  refresh_token = token.refresh_token;
  token_expiry_unix = expiry_unix token.expiry;
  calendar_id = codes "primary";
  linked_at_unix = unix_of now;
}

-- With the profile.
with_profile : Token → ℤ → Result Text Text → Result ExchangeError CalendarBinding
unfolding binding_of trim_space
with_profile token now (err e) = err (failed (codes "failed to decode userinfo response: " ++ e))
with_profile token now (ok email) =
    if is_empty (trim_space email) then err missing_email else ok (binding_of token email now)

-- With the answer of `client.Do`.
with_response : Token → ℤ → Result Text UserInfo → Result ExchangeError CalendarBinding
unfolding with_profile itoa
with_response token now (err e) = err (failed (codes "failed to execute userinfo request: " ++ e))
with_response token now (ok resp) =
    if not (eq_ℤ resp.status (pos 200))
    then err (
        failed (
          codes "userinfo request returned status "
          ++ (itoa resp.status ++ (codes ": " ++ resp.body))))
    else with_profile token now resp.profile

-- With the answer of `http.NewRequestWithContext`.
with_request : Google → Manager → Token → ℤ → Option Text → Result ExchangeError CalendarBinding
unfolding with_response
with_request google m token now (some e) =
    err (failed (codes "failed to create userinfo request: " ++ e))
with_request google m token now none =
    with_response token now (google.user_info m.user_info_url token)

-- With the answer of the token endpoint.
with_token : Google → Manager → ℤ → Result Text Token → Result ExchangeError CalendarBinding
unfolding with_request
with_token google m now (err e) =
    err (failed (codes "failed to exchange authorization code: " ++ e))
with_token google m now (ok token) =
    with_request google m token now (google.bad_request m.user_info_url)

unfoldable pub exchange_code : Google → Manager → ℤ → Text → Result ExchangeError CalendarBinding
unfolding with_token trim_space
exchange_code google m now code =
    if is_empty (trim_space code)
    then err empty_code
    else with_token google m now (google.exchange code)

-- The messages of the errors.
error_text : ExchangeError → Text
error_text empty_code = codes "authorization code cannot be empty"
error_text missing_email = codes "user profile response did not contain an email address"
error_text (failed e) = e

-- The answer to a caller that reads the error as a text.
unfoldable pub described : {A : Type 0} → Result ExchangeError A → Result Text A
unfolding error_text
described (ok a) = ok a
described (err e) = err (error_text e)
