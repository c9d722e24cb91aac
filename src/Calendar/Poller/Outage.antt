-- ===== src/Calendar/Poller/Outage.antt =====
-- What `GetCurrentEvent` shows, also while polls fail.
use busybar_bridge.Prelude.{
  ◌==◌, ◌≡◌, ◌≢◌, ◌⊎◌, refl, Bool, false, not, ◌&&◌, if-cases, [], Option, some, arith, ap, ◌∙◌,
}
use busybar_bridge.Prelude.Int.{ℤ, ◌≤ℤ◌, ◌<ℤ◌, eq_ℤ, ltb_ℤ, time_sub}
use busybar_bridge.Prelude.Result.{ok, err}
use busybar_bridge.Prelude.Text.{Text}
use busybar_bridge.Telemetry.Types.{zero_time}
use busybar_bridge.Calendar.Store.{CalendarBinding}
use busybar_bridge.Calendar.Events.{ActiveEvent, idle_event, format_countdown}
use busybar_bridge.Calendar.Poller.{
  Poller, Reply, not_created, no_answer, answered, get_current_event, record_poll, current_of,
  handle_poll_failure, handle_reply, bound, poll,
}

-- The event that is shown at `now`, if one is: that of the poller, which has begun and is not over,
-- with the countdown to its end.
pub record IsCurrent (p : Poller) (now : ℤ) (shown : ActiveEvent) : Type 0 where
  pub begun : shown.start_time ≤ℤ now
  pub not_over : now <ℤ shown.end_time
  pub countdown : shown.countdown ≡ format_countdown (time_sub shown.end_time now)
  pub summary : shown.summary ≡ p.active_event.summary

-- At any time `GetCurrentEvent` shows nothing, or an event that has begun and is not over with the
-- countdown from now to its end; whatever the last poll left, an event is never shown before its
-- start or from its end on.
pub get_current_event-IsCurrent :
    (p : Poller) (now : ℤ)
    → (get_current_event p now ≡ idle_event) ⊎ IsCurrent p now (get_current_event p now)
unfolding get_current_event
get_current_event-IsCurrent p now = ground arith

-- Replies that a poll reports as an error.
abbrev pub IsFailure : Reply → Type 0
IsFailure (not_created e) = Unit {0}
IsFailure (no_answer e) = Unit {0}
IsFailure (answered status body (err e)) = Unit {0}
IsFailure (answered status body (ok items)) = status ≢ 200

-- An update of the telemetry changes nothing of what is shown.
get_current_event-record_poll :
    (succeeded : Bool) (summary : Text) (e : Option Text) (moment : ℤ) (p : Poller) (t : ℤ)
    → get_current_event (record_poll succeeded summary e moment p) t ≡ current_of p.active_event t
unfolding record_poll get_current_event
get_current_event-record_poll succeeded summary e moment p t =
    let same : (record_poll succeeded summary e moment p).active_event ≡ p.active_event =
      ground arith in
    ap (λ x. current_of x t) same

-- Nor does dropping an event that is over, or a new countdown.
current_of-over :
    (ev : ActiveEvent) (now t : ℤ)
    → ltb_ℤ now ev.end_time ≡ false
    → now ≤ℤ t
    → current_of idle_event t ≡ current_of ev t
unfolding current_of
current_of-over ev now t e h = ground arith

current_of-countdown :
    (ev : ActiveEvent) (c : Text) (t : ℤ)
    → current_of (record ev { countdown = c }) t ≡ current_of ev t
unfolding current_of
current_of-countdown ev c t = refl

handle_poll_failure_lem :
    (p : Poller) (now t : ℤ) (e : Text) (moment : ℤ)
    → now ≤ℤ t
    → get_current_event (handle_poll_failure p now e moment) t ≡ get_current_event p t
unfolding handle_poll_failure get_current_event
handle_poll_failure_lem p now t e moment h =
    let ev = p.active_event in
    let countdown = format_countdown (time_sub ev.end_time now) in
    if-cases (λ q. get_current_event q t ≡ current_of ev t)
      (not ev.idle && not (eq_ℤ ev.end_time zero_time)) _ _
      (λ k.
        if-cases (λ q. get_current_event q t ≡ current_of ev t) (not (ltb_ℤ now ev.end_time)) _ _
          (λ o.
            get_current_event-record_poll false [] (some e) moment
              (record p { active_event = idle_event }) t
            ∙ current_of-over ev now t (ground arith) h)
          (λ o.
            get_current_event-record_poll false ev.summary (some e) moment
              (record p { active_event = record ev { countdown = countdown } }) t
            ∙ current_of-countdown ev countdown t))
      (λ k. get_current_event-record_poll false [] (some e) moment p t)

handle_reply-failure :
    (parse_time : Text → Option ℤ) (p : Poller) (email : Text) (now t moment : ℤ) (reply : Reply)
    → IsFailure reply
    → now ≤ℤ t
    → get_current_event (handle_reply parse_time p email now reply moment).0 t
      ≡ get_current_event p t
unfolding handle_reply
handle_reply-failure parse_time p email now t moment (not_created e) f h =
    handle_poll_failure_lem p now t _ moment h
handle_reply-failure parse_time p email now t moment (no_answer e) f h =
    handle_poll_failure_lem p now t _ moment h
handle_reply-failure parse_time p email now t moment (answered status body (err e)) f h =
    if-cases (λ (q : Poller × Option Text). get_current_event q.0 t ≡ get_current_event p t)
      (status == 200) _ _ (λ k. handle_poll_failure_lem p now t _ moment h)
      (λ k. handle_poll_failure_lem p now t _ moment h)
handle_reply-failure parse_time p email now t moment (answered status body (ok items)) f h =
    if-cases (λ (q : Poller × Option Text). get_current_event q.0 t ≡ get_current_event p t)
      (status == 200) _ _ (λ k. absurd (f (ground arith)))
      (λ k. handle_poll_failure_lem p now t _ moment h)

-- An outage does not disturb the display: a poll that fails (no request, no answer, another status
-- than 200 or a body that cannot be decoded) changes nothing of what `GetCurrentEvent` shows at any
-- time from the poll on. The calendar is bound; the clock does not run backwards.
pub get_current_event-poll_failure :
    (parse_time : Text → Option ℤ) (p : Poller) (now t moment : ℤ) (reply : Reply)
    (b : CalendarBinding)
    → bound p ≡ some b
    → IsFailure reply
    → now ≤ℤ t
    → get_current_event (poll parse_time p now reply moment).0 t ≡ get_current_event p t
unfolding poll
get_current_event-poll_failure parse_time p now t moment reply b e f h =
    rw (e, poll) (handle_reply-failure parse_time p b.email now t moment reply f h)
