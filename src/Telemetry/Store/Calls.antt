-- ===== src/Telemetry/Store/Calls.antt =====
-- A run of the store: any method that changes it, in any order.
use busybar_bridge.Prelude.{ℕ, Bool, List, [], ◌∷◌, Option}
use busybar_bridge.Prelude.Int.{ℤ}
use busybar_bridge.Prelude.Text.{Text}
use busybar_bridge.Telemetry.Types.{ForwardingOutcome, Store}
use busybar_bridge.Telemetry.Store.{
  set_connected, increment_reconnect_count, record_event, record_forward_outcome, set_push_enabled,
  record_push_attempt, record_push_result, record_push_drop, record_drop, set_calendar_sync_enabled,
  record_calendar_poll,
}

-- A call of any method that changes the store, with what the clock returns.
pub data Call : Type 0 where
  connected : Bool → ℤ → Call
  reconnect : Call
  event : Text → Text → ℤ → Call
  outcome : ℕ → ForwardingOutcome → ℤ → Option Text → Call
  push_enabled : Bool → Call
  push_attempt : Call
  push_result : Bool → ℤ → Option Text → ℤ → Call
  push_drop : Call
  drop : Call
  calendar_enabled : Bool → Call
  calendar_poll : Bool → Text → Option Text → ℤ → Call

unfoldable pub step : Store → Call → Store
unfolding set_connected increment_reconnect_count record_event record_forward_outcome
    set_push_enabled record_push_attempt record_push_result record_push_drop record_drop
    set_calendar_sync_enabled record_calendar_poll
step s (connected b now) = set_connected s b now
step s reconnect = increment_reconnect_count s
step s (event event_type summary now) = (record_event s event_type summary now).0
step s (outcome id o latency err) = record_forward_outcome s id o latency err
step s (push_enabled b) = set_push_enabled s b
step s push_attempt = record_push_attempt s
step s (push_result b latency err now) = record_push_result s b latency err now
step s push_drop = record_push_drop s
step s drop = record_drop s
step s (calendar_enabled b) = set_calendar_sync_enabled s b
step s (calendar_poll b summary err now) = record_calendar_poll s b summary err now

unfoldable pub run : Store → List Call → Store
run s [] = s
run s (c ∷ cs) = run (step s c) cs
