-- ===== src/Hass/Client/Tests.antt =====
-- A client with a queue of two.
use busybar_bridge.Prelude.{ℕ, List, [], ◌∷◌, some}
use busybar_bridge.Prelude.Int.{pos}
use busybar_bridge.Prelude.Text.{codes}
use busybar_bridge.Telemetry.Store.{new_store}
use busybar_bridge.Hass.Event.{Event, new_encoder_event}
use busybar_bridge.Hass.Client.{Config, default_config}
use busybar_bridge.Hass.Client.Queue.{
  Call, enqueues, starts, receives, closes, fresh, run, IsFifo, run-fresh-IsFifo,
}

turn : ℕ → Event
unfolding new_encoder_event
turn n = new_encoder_event (codes "bar") (pos n) (pos 5) (pos 6)

abbrev small_config : Config
unfolding default_config
small_config = record default_config { buffer_size = pos 2 }

-- The third event finds the queue full, the fifth the client closed.
abbrev calls : List Call
calls =
    starts
    ∷ enqueues (turn 1) (pos 1)
    ∷ enqueues (turn 2) (pos 2)
    ∷ enqueues (turn 3) (pos 3)
    ∷ receives
    ∷ enqueues (turn 4) (pos 4)
    ∷ closes
    ∷ enqueues (turn 5) (pos 5)
    ∷ receives
    ∷ []

run-fresh-IsFifo_example :
    IsFifo small_config (run (fresh small_config (some (new_store (pos 0)))) calls)
run-fresh-IsFifo_example = run-fresh-IsFifo small_config (some (new_store (pos 0))) calls
