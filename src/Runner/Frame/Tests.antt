-- ===== src/Runner/Frame/Tests.antt =====
-- A frame of three events for a queue with room for two.
use busybar_bridge.Prelude.{ℕ, ◌+◌, ◌*◌, refl, true, [], ◌∷◌, Option, some, arith}
use busybar_bridge.Prelude.Int.{pos}
use busybar_bridge.Prelude.Map.{Value}
use busybar_bridge.Prelude.Text.{Text, codes}
use busybar_bridge.Proto.Upstream.{State, StateUpdate, input, encoder_event}
use busybar_bridge.Proto.Normalized.{NormalizedEvent, encoder}
use busybar_bridge.Busybar.Decoder.{decode}
use busybar_bridge.Telemetry.Store.{new_store}
use busybar_bridge.Hass.Client.{default_config, Client, new_client}
use busybar_bridge.Runner.Frame.{Clock, handle_frame}
use busybar_bridge.Runner.Frame.Delivery.{runner, Flows}
use busybar_bridge.Runner.Frame.Flow.{handle_frame-Flows}

turn : ℕ → Option StateUpdate
turn n = some (record {
  state =
      some
        (input (some (record { event = some (encoder_event (some (record { delta = pos n }))) })));
})

abbrev sample : State
sample = record { timestamp = 7; updates = turn 1 ∷ turn 2 ∷ turn 3 ∷ [] }

abbrev bar : Text
bar = codes "bar"

abbrev turned : ℕ → NormalizedEvent
turned n = record {
  device = bar;
  timestamp = pos 7;
  event = some (encoder (some (record { device = bar; delta = pos n; timestamp = pos 7 })));
}

abbrev small_client : Client
unfolding default_config
small_client = new_client (record default_config { buffer_size = pos 2 }) (some (new_store (pos 0)))

clock : ℕ → Clock
clock i = record {
  translated_at = pos (10 * i + 1);
  recorded_at = pos (10 * i + 2);
  queued_at = pos (10 * i + 3);
}

print : Value → Text
print v = codes "?"

handle_frame-Flows_example :
    Flows clock
      (new_store (pos 0))
      small_client
      (some true)
      (turned 1 ∷ turned 2 ∷ turned 3 ∷ [])
      0
      (handle_frame print
        (runner (new_store (pos 0)) small_client (some true))
        (some (λ (q : State). (decode (λ (s : State). some s) bar (pos 9) q).events))
        sample
        clock
        (pos 50))
unfolding decode turn
handle_frame-Flows_example =
    handle_frame-Flows (λ (s : State). some s) print (new_store (pos 0)) small_client (some true)
      clock (pos 50) bar (pos 9) sample (turned 1 ∷ turned 2 ∷ turned 3 ∷ []) (λ h. ground arith)
      (omega arith) refl
