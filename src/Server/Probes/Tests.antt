-- ===== src/Server/Probes/Tests.antt =====
-- The probes after the bar went away.
use busybar_bridge.Prelude.{◌≡◌, refl, true, false, List, [], ◌∷◌, none}
use busybar_bridge.Prelude.Int.{pos}
use busybar_bridge.Prelude.Text.{codes}
use busybar_bridge.Prelude.{some}
use busybar_bridge.Telemetry.Store.{new_store}
use busybar_bridge.Telemetry.Store.Calls.{Call, connected, event, step, run}
use busybar_bridge.Server.Http.{Request, is_get_or_head}
use busybar_bridge.Server.Probes.{handle_ready, handle_healthz}

abbrev history : List Call
history =
    connected true (pos 1)
    ∷ event (codes "button") (codes "x") (pos 2)
    ∷ connected false (pos 3)
    ∷ []

abbrev request : Request
request = record { method = codes "HEAD"; query = []; oauth_state = none }

status-gone : (handle_ready (some (run (new_store (pos 0)) history)) request).status ≡ 503
unfolding handle_ready run step new_store is_get_or_head
status-gone = refl

status-alive : (handle_healthz request).status ≡ 200
unfolding handle_healthz is_get_or_head
status-alive = refl
