-- ===== src/Runner/Lifecycle/Tests.antt =====
-- A bridge without a push client: three frames, one of them left in the channel.
use busybar_bridge.Prelude.{ℕ, ◌≡◌, refl, Bool, true, false, [], ◌∷◌, Option, none, some}
use busybar_bridge.Prelude.Text.{Text, codes}
use busybar_bridge.Runner.Lifecycle.{
  Part, server, hass_client, busy_client, push_client, calendar_poller, display_orch, starts,
  handles, disconnects, closes, closes_together, shuts_down_server, frame, closed, World, run,
}
use busybar_bridge.Runner.Lifecycle.Shutdown.{Outcome, run-Outcome}

no_push : Part → Bool
no_push server = true
no_push hass_client = true
no_push busy_client = true
no_push push_client = false
no_push calendar_poller = true
no_push display_orch = true

no_error : Part → Option Text
no_error part = none

no_hass : Part → Option Text
no_hass server = none
no_hass hass_client = some (codes "no url")
no_hass busy_client = none
no_hass push_client = none
no_hass calendar_poller = none
no_hass display_orch = none

world : (Part → Option Text) → World ℕ
world errors = record {
  has = no_push;
  start_error = errors;
  has_store = true;
  arrivals = frame 1 ∷ frame 2 ∷ closed ∷ [];
  left = 3 ∷ [];
}

run-Outcome_example : Outcome (world no_error) (run (world no_error) false)
run-Outcome_example = run-Outcome (world no_error)

actions-run : run (world no_error) false ≡ (
  starts server
      ∷ starts hass_client
      ∷ starts busy_client
      ∷ starts calendar_poller
      ∷ starts display_orch
      ∷ handles 1
      ∷ handles 2
      ∷ disconnects
      ∷ closes busy_client
      ∷ handles 3
      ∷ closes_together (display_orch ∷ hass_client ∷ calendar_poller ∷ [])
      ∷ shuts_down_server
      ∷ [],
  none,
)
unfolding run world no_push no_error
actions-run = refl

actions-run_failed : run (world no_hass) false ≡ (
  starts server ∷ starts hass_client ∷ [],
  some (codes "failed to start Home Assistant dispatcher: no url"),
)
unfolding run world no_push no_hass
actions-run_failed = refl
