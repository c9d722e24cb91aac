-- ===== src/Server/Status.antt =====
-- internal/server/server.go: `calendarStatus`, the part of the status page that is about the link to
-- the calendar. `format` is the RFC 3339 form of a time in seconds, of the library.
mod Tests
use busybar_bridge.Prelude.{
  ◌≡◌, ◌⊎◌, inl, inr, refl, sym, ap, ◌∙◌, Bool, true, false, List, [], Option, none, some,
  if◌then◌else◌, arith,
}
use mathlib.Core.Path.{subst}
use mathlib.Core.Option.{some-injective}
use busybar_bridge.Prelude.Int.{ℤ, pos, ltb_ℤ}
use busybar_bridge.Prelude.Result.{Result, ok}
use busybar_bridge.Prelude.Text.{Text, codes}
use busybar_bridge.Calendar.Store.{CalendarBinding, Store, Disk, Calls, is_bound, get}
use busybar_bridge.Server.Http.{Request, query_get, redirect, clearing}
use busybar_bridge.Server.Oauth.{is_oauth_configured, handle_callback}
use busybar_bridge.Server.Oauth.Linking.{Unchanged, Linked, handle_callback-Linked}

pub record CalendarStatus : Type 0 where
  pub configured : Bool
  pub bound : Bool
  pub email : Text
  pub linked_at : Text
  pub flash_error : Text
  pub flash_success : Text

module _ (format : ℤ → Text) where
  -- `if binding.GetLinkedAtUnix() > 0 { … }`
  pub linked_at_of : CalendarBinding → Text
  linked_at_of b = if ltb_ℤ (pos 0) b.linked_at_unix then format b.linked_at_unix else []

  -- `if binding, ok := s.calendarStore.Get(); ok && binding != nil { … }`
  with_binding : Option CalendarBinding → CalendarStatus → CalendarStatus
  unfolding linked_at_of
  with_binding none status = status
  with_binding (some b) status = record status { email = b.email; linked_at = linked_at_of b }

  -- `if s.calendarStore != nil { … }`
  with_store : Option Store → CalendarStatus → CalendarStatus
  unfolding with_binding is_bound get
  with_store none status = status
  with_store (some s) status = with_binding (get s) (record status { bound = is_bound s })

  -- The parameters of the query, if there is a request.
  flash : Option Request → Text → Text
  flash none name = []
  flash (some r) name = query_get r name

  pub calendar_status : Option Bool → Option Bool → Option Store → Option Request → CalendarStatus
  unfolding with_store flash
  calendar_status configured manager store r = with_store store (record {
    configured = is_oauth_configured configured manager;
    bound = false;
    email = [];
    linked_at = [];
    flash_error = flash r (codes "error");
    flash_success = flash r (codes "success");
  })

  module _ {Bytes : Type 0} (marshal : CalendarBinding → Option Bytes) (dir : Text → Text)
      (escape : Text → Text) (calls : Calls Bytes) (configured has_manager : Option Bool) where
    -- The status page shows the binding that the manager got for the code, and the callback had said
    -- that it is linked.
    pub record Shown (exchange_code : Text → Result Text CalendarBinding) (r : Request)
        (status : CalendarStatus) : Type 0 where
      pub binding : CalendarBinding
      pub exchanged : exchange_code (query_get r (codes "code")) ≡ ok binding
      pub bound : status.bound ≡ true
      pub email : status.email ≡ binding.email
      pub linked_at : status.linked_at ≡ linked_at_of binding

    bound-Shown :
        (exchange_code f : Text → Result Text CalendarBinding) (r : Request) (page : Option Request)
        (before : Store) (b : CalendarBinding) (store : Option Store)
        → some exchange_code ≡ some f
        → f (query_get r (codes "code")) ≡ ok b
        → store ≡ some (record before { binding = some b })
        → Shown exchange_code r (calendar_status configured has_manager store page)
    unfolding calendar_status
    bound-Shown exchange_code f r page before b store m e h =
        subst
          (λ (s : Option Store).
            Shown exchange_code r (calendar_status configured has_manager s page))
          (sym h)
          (record {
            binding = b;
            exchanged =
                ap (λ (g : Text → Result Text CalendarBinding). g (query_get r (codes "code")))
                  (some-injective _ _ m)
                ∙ e;
            bound = refl;
            email = refl;
            linked_at = refl;
          })

    -- After an OAuth callback that has a manager, a request for the status page gets either the same
    -- status of the calendar as before the callback, or one that is bound, with the email and the
    -- time of the binding for which the manager exchanged the code of the callback.
    pub calendar_status-handle_callback :
        (store : Option Store) (disk : Disk Bytes)
        (exchange_code : Text → Result Text CalendarBinding) (r : Request) (page : Option Request)
        → let out = handle_callback marshal dir escape calls store disk (some exchange_code) r in
          let status = calendar_status configured has_manager out.store page in
          (status ≡ calendar_status configured has_manager store page)
          ⊎ Shown exchange_code r status
    unfolding calendar_status
    calendar_status-handle_callback store disk exchange_code r page =
        elim (handle_callback-Linked marshal dir escape calls store disk (some exchange_code) r) [
          | inl v ↦ inl (ap (λ s. calendar_status configured has_manager s page) v.store_kept)
          | inr v ↦ inr (
              bound-Shown exchange_code v.exchange_code r page v.before v.binding _ v.has_manager
                v.exchanged v.linked)
        ]
