-- ===== src/Server/Oauth.antt =====
-- internal/server/server.go: the two handlers that link a Google calendar.
-- `GenerateAuthURL` and `ExchangeCode` call Google through a library; what they answer is an
-- argument. `url.QueryEscape` is the argument `escape`. A handler runs alone: a second link that
-- is made while it waits for Google is met by the store's own check in `Save`.
pub mod Linking
pub mod Granting
pub mod Flow
mod Tests
use busybar_bridge.Prelude.{
  Bool, true, false, not, ◌&&◌, ◌||◌, ◌++◌, Option, none, some, if◌then◌else◌,
}
use busybar_bridge.Prelude.Result.{Result, ok, err}
use busybar_bridge.Prelude.Text.{Text, codes, is_empty, text_eq, trim_space}
use busybar_bridge.Calendar.Store.{
  CalendarBinding, Store, StoreError, already_bound, Disk, Calls, Saved, is_bound, save,
}
use busybar_bridge.Server.Http.{
  Request, query_get, is_get_or_head, Cookie, set, Reply, error_reply, redirect, clearing,
}

-- isOAuthConfigured: the setting, or what the manager says of itself, if there is one.
pub is_oauth_configured : Option Bool → Option Bool → Bool
is_oauth_configured (some b) manager = b
is_oauth_configured none none = false
is_oauth_configured none (some b) = b

pub store_is_bound : Option Store → Bool
unfolding is_bound
store_is_bound none = false
store_is_bound (some s) = is_bound s

-- handleOAuthGoogleLogin; `generated` is the answer of `GenerateAuthURL`: the URL and the state.
unfoldable pub handle_login :
    Option Store → Option Bool → Option Bool → Result Text (Text × Text) → Request → Reply
unfolding store_is_bound is_oauth_configured is_get_or_head
handle_login store configured manager generated r =
    if not (is_get_or_head r)
    then error_reply (codes "Method Not Allowed") 405
    else if store_is_bound store
    then error_reply (codes "conflict: calendar already bound") 409
    else if not (is_oauth_configured configured manager)
    then redirect (codes "/status?error=oauth_unconfigured") 303
    else elim generated [
      | err e ↦ error_reply (codes "Internal Server Error") 500
      | ok (url, state) ↦ record (redirect url 307) { cookie = set state }
    ]

-- The reply of the callback, and the calendar store with its disk after it.
pub record Called (Bytes : Type 0) : Type 0 where
  pub reply : Reply
  pub store : Option Store
  pub disk : Disk Bytes

-- errors.Is(err, calendar.ErrAlreadyBound)
is_already_bound : StoreError → Bool
is_already_bound already_bound = true
is_already_bound _ = false

module _ {Bytes : Type 0} where
  -- A reply that leaves the store as it is.
  replied : Option Store → Disk Bytes → Reply → Called Bytes
  replied store disk reply = record { reply = reply; store = store; disk = disk }

  -- After `Save`.
  after_save : Saved Bytes → Option StoreError → Called Bytes
  unfolding is_already_bound
  after_save out none = record {
    reply = clearing (redirect (codes "/status?success=linked") 303);
    store = some out.store;
    disk = out.disk;
  }
  after_save out (some e) = record {
    reply = clearing (
        if is_already_bound e
        then error_reply (codes "conflict: calendar already bound") 409
        else redirect (codes "/status?error=save_failed") 303);
    store = some out.store;
    disk = out.disk;
  }

  module _ (marshal : CalendarBinding → Option Bytes) (dir : Text → Text) (escape : Text → Text)
      (calls : Calls Bytes) where
    -- With the answer of `ExchangeCode`.
    link : Option Store → Disk Bytes → Result Text CalendarBinding → Called Bytes
    unfolding after_save replied save
    link store disk (err e) =
        replied store disk (clearing (redirect (codes "/status?error=exchange_failed") 303))
    link none disk (ok b) =
        replied none disk (clearing (redirect (codes "/status?success=linked") 303))
    link (some s) disk (ok b) =
        let out = save marshal dir calls s disk (some b) in after_save out out.error

    -- With the manager's `ExchangeCode`, if there is a manager.
    exchange :
        Option Store
        → Disk Bytes
        → Option (Text → Result Text CalendarBinding)
        → Text
        → Called Bytes
    unfolding link replied
    exchange store disk none code =
        replied store disk (clearing (redirect (codes "/status?error=oauth_unconfigured") 303))
    exchange store disk (some exchange_code) code = link store disk (exchange_code code)

    -- With the value of the cookie.
    check_state :
        Option Store
        → Disk Bytes
        → Option (Text → Result Text CalendarBinding)
        → Request
        → Text
        → Called Bytes
    unfolding exchange replied query_get text_eq trim_space
    check_state store disk manager r cookie =
        let state = query_get r (codes "state") in
        let oauth_err = query_get r (codes "error") in
        let code = query_get r (codes "code") in
        if is_empty (trim_space cookie)
        then replied store disk (error_reply (codes "bad request: missing oauth_state cookie") 400)
        else if is_empty state || not (text_eq state cookie)
        then replied store disk
            (error_reply (codes "bad request: invalid or mismatched state parameter") 400)
        else if not (is_empty oauth_err)
        then replied store disk
            (clearing (redirect (codes "/status?error=" ++ escape oauth_err) 303))
        else if is_empty (trim_space code)
        then replied store disk (error_reply (codes "bad request: missing authorization code") 400)
        else exchange store disk manager code

    check_cookie :
        Option Store
        → Disk Bytes
        → Option (Text → Result Text CalendarBinding)
        → Request
        → Option Text
        → Called Bytes
    unfolding check_state replied
    check_cookie store disk manager r none =
        replied store disk (error_reply (codes "bad request: missing oauth_state cookie") 400)
    check_cookie store disk manager r (some cookie) = check_state store disk manager r cookie

    -- handleOAuthGoogleCallback
    unfoldable pub handle_callback :
        Option Store
        → Disk Bytes
        → Option (Text → Result Text CalendarBinding)
        → Request
        → Called Bytes
    unfolding check_cookie replied store_is_bound is_get_or_head
    handle_callback store disk manager r =
        if not (is_get_or_head r)
        then replied store disk (error_reply (codes "Method Not Allowed") 405)
        else if store_is_bound store
        then replied store disk (error_reply (codes "conflict: calendar already bound") 409)
        else check_cookie store disk manager r r.oauth_state
