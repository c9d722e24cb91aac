-- ===== src/Server/Oauth/Granting.antt =====
-- The handlers that link a calendar together with the OAuth manager.
use mathlib.Core.Option.{some-injective}
use busybar_bridge.Prelude.{◌≡◌, ◌⊎◌, inl, inr, ap, ◌∙◌, Option, none, some, arith}
use busybar_bridge.Prelude.Int.{ℤ}
use busybar_bridge.Prelude.Result.{Result, ok, err}
use busybar_bridge.Prelude.Text.{Text, codes}
use busybar_bridge.Calendar.Manager.{Manager, Google, ExchangeError, described, exchange_code}
use busybar_bridge.Calendar.Manager.Exchange.{Granted, exchange_code_iff}
use busybar_bridge.Calendar.Store.{CalendarBinding, Store, Disk, Calls}
use busybar_bridge.Server.Http.{Request, query_get}
use busybar_bridge.Server.Oauth.{handle_callback}
use busybar_bridge.Server.Oauth.Linking.{Unchanged, handle_callback-Linked}

-- The method `ExchangeCode` of the manager, as the server calls it.
abbrev pub exchanger : Google → Manager → ℤ → Text → Result Text CalendarBinding
exchanger google m now code = described (exchange_code google m now code)

described-ok : {A : Type 0} (r : Result ExchangeError A) (a : A) → described r ≡ ok a → r ≡ ok a
unfolding described
described-ok (ok x) a h = ground arith
described-ok (err e) a h = absurd (ground arith)

module _ {Bytes : Type 0} (marshal : CalendarBinding → Option Bytes) (dir : Text → Text)
    (escape : Text → Text) (calls : Calls Bytes) (google : Google) (m : Manager) (now : ℤ) where
  -- The store got the binding that Google granted for the code.
  pub record Bound (store after : Option Store) (code : Text) : Type 0 where
    pub before : Store
    pub binding : CalendarBinding
    pub stored : store ≡ some before
    pub unbound : before.binding ≡ none
    pub bound : after ≡ some (record before { binding = some binding })
    pub granted : Granted google m now code binding

  -- With the bridge's own OAuth manager, a callback leaves the calendar store and its file as they
  -- were, or binds an unbound store to what Google granted for the code of the callback.
  pub handle_callback-Granted :
      (store : Option Store) (disk : Disk Bytes) (r : Request)
      → let out =
          handle_callback marshal dir escape calls store disk (some (exchanger google m now)) r in
        Unchanged marshal dir escape calls store disk out
        ⊎ Bound store out.store (query_get r (codes "code"))
  handle_callback-Granted store disk r =
      elim (handle_callback-Linked marshal dir escape calls store disk
        (some (exchanger google m now)) r) [
          | inl v ↦ inl v
          | inr v ↦ inr (record {
            before = v.before;
            binding = v.binding;
            stored = v.stored;
            unbound = v.unbound;
            bound = v.linked;
            granted = (exchange_code_iff google m now _ v.binding).0 (
                described-ok _ v.binding (
                  ap (λ (f : Text → Result Text CalendarBinding). f (query_get r (codes "code")))
                    (some-injective _ _ v.has_manager)
                  ∙ v.exchanged));
          })
        ]
