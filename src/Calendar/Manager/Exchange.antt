-- ===== src/Calendar/Manager/Exchange.antt =====
-- What `ExchangeCode` returns a binding for.
use busybar_bridge.Prelude.{
  ◌≡◌, inl, inr, refl, ◌↔◌, true, false, Option, none, some, arith, Bool-cases,
}
use mathlib.Core.Path.{subst}
use busybar_bridge.Prelude.Int.{ℤ, pos, eq_ℤ}
use busybar_bridge.Prelude.Result.{Result, ok, err}
use busybar_bridge.Prelude.Text.{Text, codes, is_empty, trim_space}
use busybar_bridge.Calendar.Store.{CalendarBinding}
use busybar_bridge.Calendar.Manager.{
  Manager, Google, Token, UserInfo, unix_of, expiry_unix, binding_of, with_profile, with_response,
  with_request, with_token, exchange_code,
}

-- Google granted the binding for the code: it gave a token for the code, and for the token the
-- profile of a user with an email.
pub record Granted (google : Google) (m : Manager) (now : ℤ) (code : Text) (b : CalendarBinding)
    : Type 0 where
  pub token : Token
  pub info : UserInfo
  pub code_given : is_empty (trim_space code) ≡ false
  pub exchanged : google.exchange code ≡ ok token
  pub request : google.bad_request m.user_info_url ≡ none
  pub answered : google.user_info m.user_info_url token ≡ ok info
  pub status : eq_ℤ info.status (pos 200) ≡ true
  pub profile : info.profile ≡ ok b.email
  pub email_given : is_empty (trim_space b.email) ≡ false
  pub access_token : b.access_token ≡ token.access_token
  pub refresh_token : b.refresh_token ≡ token.refresh_token
  pub expiry : b.token_expiry_unix ≡ expiry_unix token.expiry
  pub calendar : b.calendar_id ≡ codes "primary"
  pub linked_at : b.linked_at_unix ≡ unix_of now

module _ (google : Google) (m : Manager) (now : ℤ) (code : Text) (b : CalendarBinding) where
  with_profile-Granted :
      (token : Token) (info : UserInfo) (profile : Result Text Text)
      → is_empty (trim_space code) ≡ false
      → google.exchange code ≡ ok token
      → google.bad_request m.user_info_url ≡ none
      → google.user_info m.user_info_url token ≡ ok info
      → eq_ℤ info.status (pos 200) ≡ true
      → info.profile ≡ profile
      → with_profile token now profile ≡ ok b
      → Granted google m now code b
  unfolding with_profile binding_of
  with_profile-Granted token info (err e) c x r a s p h = absurd (ground arith)
  with_profile-Granted token info (ok email) c x r a s p h =
      elim (Bool-cases (is_empty (trim_space email))) [
        | inl none_given ↦ absurd (ground arith)
        | inr given ↦
            let e : binding_of token email now ≡ b = ground arith in
            subst (Granted google m now code) e (record {
              token = token;
              info = info;
              code_given = c;
              exchanged = x;
              request = r;
              answered = a;
              status = s;
              profile = p;
              email_given = given;
              access_token = refl;
              refresh_token = refl;
              expiry = refl;
              calendar = refl;
              linked_at = refl;
            })
      ]

  with_response-Granted :
      (token : Token) (answer : Result Text UserInfo)
      → is_empty (trim_space code) ≡ false
      → google.exchange code ≡ ok token
      → google.bad_request m.user_info_url ≡ none
      → google.user_info m.user_info_url token ≡ answer
      → with_response token now answer ≡ ok b
      → Granted google m now code b
  unfolding with_response
  with_response-Granted token (err e) c x r a h = absurd (ground arith)
  with_response-Granted token (ok info) c x r a h = elim (Bool-cases (eq_ℤ info.status (pos 200))) [
    | inl fine ↦ with_profile-Granted token info info.profile c x r a fine refl (ground arith)
    | inr other ↦ absurd (ground arith)
  ]

  with_request-Granted :
      (token : Token) (bad : Option Text)
      → is_empty (trim_space code) ≡ false
      → google.exchange code ≡ ok token
      → google.bad_request m.user_info_url ≡ bad
      → with_request google m token now bad ≡ ok b
      → Granted google m now code b
  unfolding with_request
  with_request-Granted token (some e) c x r h = absurd (ground arith)
  with_request-Granted token none c x r h = with_response-Granted token _ c x r refl h

  with_token-Granted :
      (answer : Result Text Token)
      → is_empty (trim_space code) ≡ false
      → google.exchange code ≡ answer
      → with_token google m now answer ≡ ok b
      → Granted google m now code b
  unfolding with_token
  with_token-Granted (err e) c x h = absurd (ground arith)
  with_token-Granted (ok token) c x h = with_request-Granted token _ c x refl h

  exchange_code-Granted : exchange_code google m now code ≡ ok b → Granted google m now code b
  unfolding exchange_code
  exchange_code-Granted h = elim (Bool-cases (is_empty (trim_space code))) [
    | inl none_given ↦ absurd (ground arith)
    | inr given ↦ with_token-Granted _ given refl (ground arith)
  ]

  Granted-exchange_code : Granted google m now code b → exchange_code google m now code ≡ ok b
  unfolding exchange_code with_token with_request with_response with_profile binding_of
  Granted-exchange_code v = ground arith

  -- `ExchangeCode` returns a binding exactly when Google grants it: the code is not blank, the token
  -- endpoint gives a token for it, a request for the user's profile can be made and is answered with
  -- status 200 and a profile whose email is not blank; the binding has this email, the tokens and the
  -- expiry of the token (0 if it has none), the primary calendar, and the time of the exchange.
  pub exchange_code_iff : (exchange_code google m now code ≡ ok b) ↔ Granted google m now code b
  exchange_code_iff = (exchange_code-Granted, Granted-exchange_code)
