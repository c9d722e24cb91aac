-- ===== src/Server/Probes.antt =====
-- internal/server/server.go: the probes `/healthz` and `/ready`.
mod Tests
use busybar_bridge.Prelude.{
  ℕ, ◌≡◌, ◌⊎◌, inl, inr, refl, sym, ap, ◌∙◌, Bool, true, false, not, ◌||◌, List, [], ◌∷◌, Option,
  none, some, arith, if◌then◌else◌,
}
use busybar_bridge.Prelude.Int.{ℤ}
use busybar_bridge.Prelude.Text.{Text, codes}
use busybar_bridge.Telemetry.Types.{Store}
use busybar_bridge.Telemetry.Store.{new_store, is_connected, set_connected}
use busybar_bridge.Telemetry.Store.Calls.{
  Call, connected, event, outcome, push_result, calendar_poll, step, run,
}
use busybar_bridge.Server.Http.{Request, is_get_or_head, Reply, error_reply, kept}

plain : Text → ℕ → Reply
plain body status = record { status = status; location = none; cookie = kept; body = body }

unfoldable pub handle_healthz : Request → Reply
unfolding plain is_get_or_head
handle_healthz r =
    if not (is_get_or_head r)
    then error_reply (codes "Method Not Allowed") 405
    else plain (codes "ok\n") 200

-- `s.store != nil && s.store.IsConnected()`
store_is_connected : Option Store → Bool
unfolding is_connected
store_is_connected none = false
store_is_connected (some s) = is_connected s

unfoldable pub handle_ready : Option Store → Request → Reply
unfolding plain is_get_or_head store_is_connected
handle_ready store r =
    if not (is_get_or_head r)
    then error_reply (codes "Method Not Allowed") 405
    else if store_is_connected store
    then plain (codes "ready\n") 200
    else plain (codes "not ready\n") 503

-- The last connection state that was reported, if one was.
pub last_reported : Bool → List Call → Bool
last_reported b [] = b
last_reported b (connected c now ∷ cs) = last_reported c cs
last_reported b (_ ∷ cs) = last_reported b cs

connected-step :
    (s : Store) (c : Call) (cs : List Call)
    → last_reported (step s c).connection.connected cs
      ≡ last_reported s.connection.connected (c ∷ cs)
unfolding step set_connected last_reported
connected-step s (connected true now) cs = refl
connected-step s (connected false now) cs = refl
connected-step s (event t m now) cs = refl
connected-step s (outcome i o l e) cs = refl
connected-step s (push_result b l e now) cs = refl
connected-step s (calendar_poll b m e now) cs = refl
connected-step s _ cs = refl

connected-run :
    (s : Store) (cs : List Call)
    → (run s cs).connection.connected ≡ last_reported s.connection.connected cs
unfolding run last_reported
connected-run s [] = refl
connected-run s (c ∷ cs) = connected-run (step s c) cs ∙ connected-step s c cs

-- After any calls on a new telemetry store, the readiness probe answers a GET or HEAD request with
-- 200 if the connection state that was reported last is connected, and with 503 if it is not or none
-- was reported; the liveness probe answers 200 in both cases.
pub handle_ready-run :
    (start : ℤ) (cs : List Call) (r : Request)
    → is_get_or_head r ≡ true
    → ((handle_ready (some (run (new_store start) cs)) r).status
        ≡ (if last_reported false cs then 200 else 503))
      × ((handle_healthz r).status ≡ 200)
unfolding handle_ready handle_healthz is_connected new_store
handle_ready-run start cs r h =
    let last = connected-run (new_store start) cs in (ground arith, ground arith)
