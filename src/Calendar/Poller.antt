-- ===== src/Calendar/Poller.antt =====
-- internal/calendar/poller.go: the current event of the bound calendar.
-- Instants and durations are in nanoseconds. What the Calendar API answers is an argument; the events
-- are in Calendar/Events, the request itself is in Request.
pub mod Countdown
pub mod Selection
pub mod Outage
pub mod Request
pub mod Query
pub mod Window
mod Tests
use busybar_bridge.Prelude.{
  ℕ, ◌+◌, ◌-◌, ◌==◌, Bool, true, false, not, ◌&&◌, ◌||◌, List, [], ◌∷◌, ◌++◌, Option, none, some,
  if◌then◌else◌,
}
use busybar_bridge.Prelude.Decimal.{itoa, pad2}
use busybar_bridge.Prelude.Int.{ℤ, pos, ◌+ℤ◌, ltb_ℤ, leb_ℤ, eq_ℤ, quot, rem, wrap64, time_sub}
use busybar_bridge.Prelude.Result.{Result, ok, err}
use busybar_bridge.Prelude.Text.{Text, codes, is_empty, equal_fold, text_lt}
use busybar_bridge.Telemetry.Types
use busybar_bridge.Telemetry.Types.{zero_time}
use busybar_bridge.Telemetry.Store.{record_calendar_poll}
use busybar_bridge.Calendar.Store.{CalendarBinding, is_bound, get}
use busybar_bridge.Calendar.Store
use busybar_bridge.Calendar.Events.{
  ActiveEvent, EventItem, idle_event, format_countdown, sort_events, collect,
}

pub record Poller : Type 0 where
  pub enabled : Bool
  pub store : Option Store.Store
  pub telemetry : Option Types.Store
  pub active_event : ActiveEvent

-- What an active event is at a time.
current_of : ActiveEvent → ℤ → ActiveEvent
unfolding format_countdown time_sub
current_of ev now =
    if ev.idle || eq_ℤ ev.end_time zero_time
    then idle_event
    else if not (ltb_ℤ now ev.end_time)
    then idle_event
    else if ltb_ℤ now ev.start_time
    then idle_event
    else record ev { countdown = format_countdown (time_sub ev.end_time now); idle = false }

unfoldable pub get_current_event : Poller → ℤ → ActiveEvent
unfolding current_of
get_current_event p now = current_of p.active_event now

-- What becomes of the request: it cannot be made, it has no answer, or it is answered with a status,
-- a body and what `encoding/json` reads of the body.
pub data Reply : Type 0 where
  not_created no_answer : Text → Reply
  answered : ℕ → Text → Result Text (List EventItem) → Reply

-- `if p.telemetry != nil { p.telemetry.RecordCalendarPoll(…) }`
record_poll : Bool → Text → Option Text → ℤ → Poller → Poller
unfolding record_calendar_poll
record_poll succeeded summary e moment p = elim p.telemetry [
  | none ↦ p
  | some t ↦ record p { telemetry = some (record_calendar_poll t succeeded summary e moment) }
]

handle_poll_failure : Poller → ℤ → Text → ℤ → Poller
unfolding record_poll format_countdown time_sub
handle_poll_failure p now e moment =
    let ev = p.active_event in
    if not ev.idle && not (eq_ℤ ev.end_time zero_time)
    then if not (ltb_ℤ now ev.end_time)
      then record_poll false [] (some e) moment (record p { active_event = idle_event })
      else record_poll false ev.summary (some e) moment (record p {
        active_event = record ev { countdown = format_countdown (time_sub ev.end_time now) };
      })
    else record_poll false [] (some e) moment p

-- With the eligible events, sorted.
settle : Poller → List ActiveEvent → ℤ → Poller
unfolding record_poll
settle p [] moment = record_poll true [] none moment (record p { active_event = idle_event })
settle p (winner ∷ rest) moment =
    record_poll true winner.summary none moment (record p { active_event = winner })

-- The poller and the error that `Poll` returns.
handle_reply : (Text → Option ℤ) → Poller → Text → ℤ → Reply → ℤ → Poller × Option Text
unfolding handle_poll_failure settle collect sort_events itoa
handle_reply parse_time p email now (not_created e) moment =
    (handle_poll_failure p now (codes "failed to create calendar request: " ++ e) moment, some e)
handle_reply parse_time p email now (no_answer e) moment =
    (handle_poll_failure p now (codes "failed to execute calendar request: " ++ e) moment, some e)
handle_reply parse_time p email now (answered status body decoded) moment =
    if status == 200
    then elim decoded [
      | err e ↦ (
        handle_poll_failure p now (codes "failed to decode calendar response: " ++ e) moment,
        some e,
      )
      | ok items ↦ (settle p (sort_events (collect parse_time email now items)) moment, none)
    ]
    else let e =
        codes "calendar API returned status " ++ (itoa (pos status) ++ (codes ": " ++ body)) in
      (handle_poll_failure p now e moment, some e)

-- The binding that `Poll` works with: none where the poller is disabled, has no store or is unbound.
pub bound : Poller → Option CalendarBinding
unfolding is_bound get
bound p =
    if p.enabled
    then elim p.store [ none ↦ none | some s ↦ if is_bound s then get s else none ]
    else none

-- `moment` is the clock of the telemetry store.
unfoldable pub poll : (Text → Option ℤ) → Poller → ℤ → Reply → ℤ → Poller × Option Text
unfolding bound handle_reply
poll parse_time p now reply moment = elim (bound p) [
  | none ↦ (record p { active_event = idle_event }, none)
  | some b ↦ handle_reply parse_time p b.email now reply moment
]
