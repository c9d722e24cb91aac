-- ===== src/Server/Oauth/Flow.antt =====
-- A user who follows the login to Google and back.
mod Tests
use mathlib.Core.Path.{subst}
use busybar_bridge.Prelude.{
  ℕ, ◌<◌, ◌≡◌, ◌⊎◌, inl, inr, refl, sym, ap, ◌∙◌, Bool, true, false, not, ◌||◌, ◌&&◌, List, [], ◌∷◌,
  ◌++◌, Option, none, some, arith, if_false, All, length,
}
use busybar_bridge.Prelude.Int.{ℤ}
use busybar_bridge.Prelude.Result.{Result, ok, err}
use busybar_bridge.Prelude.Text.{Text, codes, is_empty, text_eq, text_eq_refl, trim_space}
use busybar_bridge.Calendar.Manager.{
  OauthConfig, Manager, Google, described, encode_base64, generate_auth_url, exchange_code,
}
use busybar_bridge.Calendar.Manager.Exchange.{Granted, exchange_code_iff}
use busybar_bridge.Calendar.Manager.Visible.{state_kept}
use busybar_bridge.Calendar.Store.{CalendarBinding, Store, Disk, Calls, save}
use busybar_bridge.Server.Http.{Request, query_get, is_get_or_head, Reply, set, redirect, clearing}
use busybar_bridge.Server.Oauth.{
  is_oauth_configured, handle_login, Called, handle_callback, link, check_state, check_cookie,
  store_is_bound, after_save,
}
use busybar_bridge.Server.Oauth.Granting.{exchanger}

-- The browser comes back with the state that it was given, and with a code.
pub record Returns (state code : Text) (r : Request) : Type 0 where
  pub method : is_get_or_head r ≡ true
  pub cookie : r.oauth_state ≡ some state
  pub state_back : query_get r (codes "state") ≡ state
  pub no_error : query_get r (codes "error") ≡ []
  pub code_back : query_get r (codes "code") ≡ code

-- What a successful link comes to.
abbrev pub linked : {Bytes : Type 0} → Store → CalendarBinding → Bytes → Called Bytes
linked s b bytes = record {
  reply = clearing (redirect (codes "/status?success=linked") 303);
  store = some (record s { binding = some b });
  disk = record { file = some bytes; temp = none };
}

set-injective : {a b : Text} → set a ≡ set b → a ≡ b
set-injective h = ground arith

described-code :
    (google : Google) (m : Manager) (now : ℤ) (code : Text) (b : CalendarBinding)
    → Granted google m now code b
    → exchanger google m now code ≡ ok b
unfolding described
described-code google m now code b v = rw ((exchange_code_iff google m now code b).1 v) refl

module _ {Bytes : Type 0} (marshal : CalendarBinding → Option Bytes) (dir : Text → Text)
    (escape : Text → Text) (calls : Calls Bytes) where
  -- Every system call of the save succeeds, and the binding can be encoded.
  pub record Saves (b : CalendarBinding) (bytes : Bytes) : Type 0 where
    pub marshalled : marshal b ≡ some bytes
    pub mkdir : calls.mkdir ≡ true
    pub create : calls.create ≡ true
    pub torn : calls.torn ≡ none
    pub sync : calls.sync ≡ true
    pub close : calls.close ≡ true
    pub chmod : calls.chmod ≡ true
    pub rename : calls.rename ≡ true

  save-Saves :
      (s : Store) (disk : Disk Bytes) (b : CalendarBinding) (bytes : Bytes)
      → s.binding ≡ none
      → Saves b bytes
      → save marshal dir calls s disk (some b) ≡ record {
        store = record s { binding = some b };
        disk = record { file = some bytes; temp = none };
        error = none;
      }
  unfolding save
  save-Saves s disk b bytes u v = ground arith

  link-Saves :
      (s : Store) (disk : Disk Bytes) (b : CalendarBinding) (bytes : Bytes)
      (answer : Result Text CalendarBinding)
      → s.binding ≡ none
      → answer ≡ ok b
      → Saves b bytes
      → link marshal dir escape calls (some s) disk answer ≡ linked s b bytes
  unfolding link
  link-Saves s disk b bytes answer u a w = rw a (rw (save-Saves s disk b bytes u w) refl)

  check_cookie-some :
      (store : Option Store) (disk : Disk Bytes)
      (manager : Option (Text → Result Text CalendarBinding)) (r : Request) (state : Text)
      (cookie : Option Text)
      → cookie ≡ some state
      → check_cookie marshal dir escape calls store disk manager r cookie
        ≡ check_state marshal dir escape calls store disk manager r state
  unfolding check_cookie
  check_cookie-some store disk manager r state cookie e = rw e refl

  store_is_bound-none : (s : Store) → s.binding ≡ none → store_is_bound (some s) ≡ false
  unfolding store_is_bound
  store_is_bound-none s e = ground arith

  module _ (s : Store) (disk : Disk Bytes) (exchange_code : Text → Result Text CalendarBinding)
      (state code : Text) (r : Request) (b : CalendarBinding) (bytes : Bytes)
      (unbound : s.binding ≡ none) (given : is_empty state ≡ false)
      (visible : is_empty (trim_space state) ≡ false) (back : Returns state code r)
      (code_given : is_empty (trim_space code) ≡ false) (answered : exchange_code code ≡ ok b)
      (saves : Saves b bytes) where
    check_state-Returns :
        check_state marshal dir escape calls (some s) disk (some exchange_code) r state
        ≡ linked s b bytes
    unfolding check_state
    check_state-Returns =
        if_false _ _ _ visible
        ∙ if_false
            (is_empty (query_get r (codes "state"))
              || not (text_eq (query_get r (codes "state")) state))
            _ _ (ground (arith, given, back.state_back, text_eq_refl state))
        ∙ if_false (not (is_empty (query_get r (codes "error")))) _ _ (ground arith)
        ∙ if_false _ _ _ (ap (λ t. is_empty (trim_space t)) back.code_back ∙ code_given)
        ∙ link-Saves s disk b bytes _ unbound (ap exchange_code back.code_back ∙ answered) saves

    callback-Returns :
        handle_callback marshal dir escape calls (some s) disk (some exchange_code) r
        ≡ linked s b bytes
    unfolding handle_callback
    callback-Returns =
        if_false (not (is_get_or_head r)) _ _ (ground arith)
        ∙ if_false (store_is_bound (some s)) _ _ (store_is_bound-none s unbound)
        ∙ check_cookie-some (some s) disk (some exchange_code) r state r.oauth_state back.cookie
        ∙ check_state-Returns

  -- The reply to a login sets the state of its nonce as the cookie.
  handle_login-cookie :
      (s : Store) (configured has_manager : Option Bool) (auth_code_url : OauthConfig → Text → Text)
      (m : Manager) (nonce : List ℕ) (r : Request)
      → s.binding ≡ none
      → is_oauth_configured configured has_manager ≡ true
      → is_get_or_head r ≡ true
      → (handle_login
          (some s)
          configured
          has_manager
          (generate_auth_url auth_code_url m (ok nonce))
          r).cookie
        ≡ set (encode_base64 nonce)
  unfolding handle_login generate_auth_url
  handle_login-cookie s configured has_manager auth_code_url m nonce r u c g =
      ap (λ (x : Reply). x.cookie)
        (if_false (not (is_get_or_head r)) _ _ (ground arith)
          ∙ if_false (store_is_bound (some s)) _ _ (store_is_bound-none s u)
          ∙ if_false (not (is_oauth_configured configured has_manager)) _ _ (ground arith))

  visible-state :
      (nonce : List ℕ) (state : Text)
      → All (λ b. b < 256) nonce
      → length nonce ≡ 32
      → set (encode_base64 nonce) ≡ set state
      → (is_empty state ≡ false) × (is_empty (trim_space state) ≡ false)
  visible-state [] state h n e = absurd (omega (arith, n))
  visible-state (a ∷ rest) state h n e =
      subst (λ t. (is_empty t ≡ false) × (is_empty (trim_space t) ≡ false)) (set-injective e)
        (state_kept a rest h.0)

  -- Linking a calendar works. A user opens the login of a bridge with an OAuth client and no linked
  -- calendar, and comes back to the callback with the state that the login set as a cookie, with no
  -- error and with a code for which Google grants a binding. If the binding can be encoded and the
  -- system calls of the save succeed, then the calendar store and its file hold the binding, and the
  -- user is told so and loses the cookie.
  pub handle_callback-handle_login :
      (s : Store) (disk : Disk Bytes) (google : Google) (m : Manager) (now : ℤ)
      (configured has_manager : Option Bool) (auth_code_url : OauthConfig → Text → Text)
      (nonce : List ℕ) (login r : Request) (state code : Text) (b : CalendarBinding) (bytes : Bytes)
      → s.binding ≡ none
      → is_oauth_configured configured has_manager ≡ true
      → All (λ b. b < 256) nonce
      → length nonce ≡ 32
      → is_get_or_head login ≡ true
      → (handle_login
          (some s)
          configured
          has_manager
          (generate_auth_url auth_code_url m (ok nonce))
          login).cookie
        ≡ set state
      → Returns state code r
      → Granted google m now code b
      → Saves b bytes
      → handle_callback marshal dir escape calls (some s) disk (some (exchanger google m now)) r
        ≡ linked s b bytes
  handle_callback-handle_login s disk google m now configured has_manager auth_code_url nonce login
        r state code b bytes u c h n g e back v w =
      let kept = visible-state nonce state h n (
        sym (handle_login-cookie s configured has_manager auth_code_url m nonce login u c g) ∙ e) in
      callback-Returns s disk (exchanger google m now) state code r b bytes u kept.0 kept.1 back
        v.code_given (described-code google m now code b v) w
