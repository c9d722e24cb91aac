-- ===== src/Calendar/Worker/Tests.antt =====
-- A poller that is closed during its first poll, and a worker that counts its bodies.
use busybar_bridge.Prelude.{ℕ, ◌+◌, ◌≡◌, refl, true, false, List, [], ◌∷◌, Option, none}
use busybar_bridge.Prelude.Int.{ℤ, pos}
use busybar_bridge.Prelude.Text.{Text}
use busybar_bridge.Calendar.Events.{idle_event}
use busybar_bridge.Calendar.Poller.{Poller, not_created}
use busybar_bridge.Calendar.Worker.{
  Worker, Event, start_checks, start_claims, start_arms, start_launches, close_marks, close_cancels,
  close_returns, notices, first, tick, new_worker, has_ended, step, run, poller_messages,
  orchestrator_messages, Polled, poll_body,
}
use busybar_bridge.Calendar.Worker.Stopping.{closing, run-stops}

parse_time : Text → Option ℤ
parse_time t = none

abbrev poller : Poller
poller = record { enabled = true; store = none; telemetry = none; active_event = idle_event }

abbrev polled : Polled
polled = record { now = pos 5; reply = not_created []; moment = pos 5 }

-- The poller is started.
abbrev events : List (Event Polled)
events = start_checks ∷ start_claims ∷ start_arms ∷ start_launches ∷ []

-- A `Start` comes while `Close` is on its way, and is refused.
abbrev between : List (Event Polled)
between = start_checks ∷ start_claims ∷ []

-- After the close: another `Start`, and a tick.
abbrev later : List (Event Polled)
later = start_checks ∷ start_claims ∷ start_arms ∷ start_launches ∷ tick polled ∷ []

run-stops_example :
    let w =
      run poller_messages
        (poll_body parse_time)
        (run poller_messages (poll_body parse_time) (new_worker poller) events)
        (closing poller_messages (poll_body parse_time) between [] polled) in
    (has_ended w ≡ true)
    × ((step poller_messages (poll_body parse_time) w close_returns).returned ≡ true)
    × (has_ended (run poller_messages (poll_body parse_time) w later) ≡ true)
    × ((run poller_messages (poll_body parse_time) w later).state ≡ w.state)
unfolding run new_worker
run-stops_example =
    run-stops poller_messages (poll_body parse_time) poller events between [] later polled refl refl
      refl

count : ℕ → ℕ → ℕ
count n k = n + k

-- The tick before the start and those after the end do nothing.
bodies-run :
    (run orchestrator_messages count (new_worker 0) (
      tick 1
      ∷ start_checks
      ∷ start_claims
      ∷ start_arms
      ∷ start_launches
      ∷ first 10
      ∷ tick 100
      ∷ start_checks
      ∷ start_claims
      ∷ notices
      ∷ tick 1000
      ∷ close_marks
      ∷ close_cancels
      ∷ tick 10000
      ∷ notices
      ∷ close_returns
      ∷ tick 100000
      ∷ start_checks
      ∷ first 1000000
      ∷ [])).state
    ≡ 11110
unfolding run new_worker count
bodies-run = refl

-- `Close` runs to its return after `Start` has seen an open worker: the loop starts nevertheless, and
-- runs its body.
abbrev raced : Worker ℕ
raced = run orchestrator_messages count (new_worker 0) (
    start_checks
    ∷ close_marks
    ∷ close_cancels
    ∷ close_returns
    ∷ start_claims
    ∷ start_arms
    ∷ start_launches
    ∷ first 10
    ∷ notices
    ∷ tick 100
    ∷ [])

raced-run : (raced.returned ≡ true) × (has_ended raced ≡ false) × (raced.state ≡ 110)
unfolding run new_worker count has_ended
raced-run = (refl, refl, refl)
