-- ===== src/Telemetry/Store/Tests.antt =====
-- Runs of the telemetry store.
use busybar_bridge.Prelude.{◌≡◌, refl, List, [], ◌∷◌, none, some, arith, map}
use busybar_bridge.Prelude.Int.{pos}
use busybar_bridge.Prelude.Text.{codes}
use busybar_bridge.Telemetry.Types.{success, failure}
use busybar_bridge.Telemetry.Store.{new_store}
use busybar_bridge.Telemetry.Store.Calls.{Call, event, outcome, drop, calendar_poll, step, run}
use busybar_bridge.Telemetry.Store.Log.{log_run, Refines, run-new_store-Refines}
use busybar_bridge.Telemetry.Store.Counts.{IsConsistent, run-IsConsistent, new_store-IsConsistent}
use mathlib.Core.Bool.{false}

-- Twelve events, of which the ring keeps ten; the outcomes of the first and of the fourth.
abbrev history : List Call
history =
    press
    ∷ press
    ∷ press
    ∷ turn
    ∷ turn
    ∷ turn
    ∷ press
    ∷ press
    ∷ press
    ∷ press
    ∷ press
    ∷ press
    ∷ outcome 1 success (pos 7_000_000) none
    ∷ outcome 4 failure (pos 9_000_000) (some (codes "x"))
    ∷ drop
    ∷ calendar_poll false [] (some (codes "y")) (pos 5)
    ∷ []
  where
    press : Call
    press = event (codes "Button") (codes "button ok press") (pos 1)

    turn : Call
    turn = event (codes "encoder") (codes "encoder 1") (pos 2)

run_ids :
    map (λ t. t.id) (run (new_store (pos 0)) history).ring_buffer
    ≡ 3 ∷ 4 ∷ 5 ∷ 6 ∷ 7 ∷ 8 ∷ 9 ∷ 10 ∷ 11 ∷ 12 ∷ []
unfolding new_store run step
run_ids = refl

run-new_store-Refines_example : Refines (run (new_store (pos 0)) history) (log_run [] history)
run-new_store-Refines_example = run-new_store-Refines (pos 0) history (omega arith)

run-IsConsistent_example : IsConsistent (run (new_store (pos 0)) history)
run-IsConsistent_example =
    run-IsConsistent (new_store (pos 0)) history (new_store-IsConsistent (pos 0))
