-- ===== src/Calendar/Events.antt =====
-- internal/calendar/poller.go: the events of the calendar, the countdown, and which events are on.
-- `time.Parse` of an RFC 3339 text is an argument.
use busybar_bridge.Prelude.{
  Bool, true, false, not, ◌&&◌, ◌||◌, List, [], ◌∷◌, ◌++◌, Option, none, some, if◌then◌else◌,
}
use busybar_bridge.Prelude.Decimal.{pad2}
use busybar_bridge.Prelude.Int.{ℤ, pos, ◌+ℤ◌, ltb_ℤ, leb_ℤ, eq_ℤ, quot, rem, wrap64, time_sub}
use busybar_bridge.Prelude.Text.{Text, codes, is_empty, equal_fold, text_lt}
use busybar_bridge.Telemetry.Types.{zero_time}

pub record ActiveEvent : Type 0 where
  pub summary : Text
  pub start_time : ℤ
  pub end_time : ℤ
  pub countdown : Text
  pub idle : Bool

pub record EventTime : Type 0 where
  pub date_time : Text
  pub date : Text
  pub time_zone : Text

pub record Attendee : Type 0 where
  pub email : Text
  pub self : Bool
  pub response_status : Text

pub record EventItem : Type 0 where
  pub id : Text
  pub summary : Text
  pub status : Text
  pub transparency : Text
  pub start : EventTime
  pub end : EventTime
  pub attendees : List Attendee

-- ActiveEvent{Idle: true}
abbrev pub idle_event : ActiveEvent
idle_event = record {
  summary = [];
  start_time = zero_time;
  end_time = zero_time;
  countdown = [];
  idle = true;
}

-- Minutes rounded up; the sum before the division is an `int64`.
unfoldable pub format_countdown : ℤ → Text
unfolding wrap64 ◌+ℤ◌ quot rem pad2
format_countdown remaining =
    if leb_ℤ remaining (pos 0)
    then codes "00:00"
    else let total = quot (wrap64 (remaining +ℤ pos 59_999_999_999)) 60_000_000_000 in
      pad2 (quot total 60) ++ (b':' ∷ pad2 (rem total 60))

-- `a.Self || (userEmail != "" && strings.EqualFold(a.Email, userEmail))`
is_user : Text → Attendee → Bool
unfolding equal_fold
is_user email a = a.self || (not (is_empty email) && equal_fold a.email email)

declines : Attendee → Bool
unfolding equal_fold
declines a = equal_fold a.response_status (codes "declined")

-- The first loop: whether the user is among the attendees, and one of these declines.
has_user : Text → List Attendee → Bool
unfolding is_user
has_user email [] = false
has_user email (a ∷ rest) = is_user email a || has_user email rest

user_declines : Text → List Attendee → Bool
unfolding is_user declines
user_declines email [] = false
user_declines email (a ∷ rest) = (is_user email a && declines a) || user_declines email rest

any_declines : List Attendee → Bool
unfolding declines
any_declines [] = false
any_declines (a ∷ rest) = declines a || any_declines rest

pub is_declined : List Attendee → Text → Bool
unfolding has_user user_declines any_declines
is_declined attendees email =
    user_declines email attendees || (not (has_user email attendees) && any_declines attendees)

-- The order of the sort: earliest end, then latest start, then summary.
unfoldable pub before : ActiveEvent → ActiveEvent → Bool
unfolding text_lt
before a b =
    if not (eq_ℤ a.end_time b.end_time)
    then ltb_ℤ a.end_time b.end_time
    else if not (eq_ℤ a.start_time b.start_time)
    then ltb_ℤ b.start_time a.start_time
    else text_lt a.summary b.summary

-- `sort.Slice`: events that the order does not separate have the same fields.
unfoldable pub insert_event : ActiveEvent → List ActiveEvent → List ActiveEvent
unfolding before
insert_event a [] = a ∷ []
insert_event a (b ∷ bs) =
    let rest = insert_event a bs in if before b a then b ∷ rest else a ∷ b ∷ bs

unfoldable pub sort_events : List ActiveEvent → List ActiveEvent
unfolding insert_event
sort_events [] = []
sort_events (a ∷ rest) = insert_event a (sort_events rest)

-- `continue`, or `append`.
unfoldable pub collect_round : Option ActiveEvent → List ActiveEvent → List ActiveEvent
collect_round none found = found
collect_round (some a) found = a ∷ found

module _ (parse_time : Text → Option ℤ) (email : Text) (now : ℤ) where
  -- `now.Equal(start) || now.After(start)`, and `now.Before(end)`
  unfoldable pub active_event_of : EventItem → ℤ → ℤ → Option ActiveEvent
  unfolding format_countdown time_sub
  active_event_of item start end =
      if (eq_ℤ now start || ltb_ℤ start now) && ltb_ℤ now end
      then some (record {
        summary = item.summary;
        start_time = start;
        end_time = end;
        countdown = format_countdown (time_sub end now);
        idle = false;
      })
      else none

  -- The times of an item, if both are given and can be read.
  unfoldable pub timed : EventItem → Option (ℤ × ℤ)
  timed item =
      if is_empty item.start.date_time || is_empty item.end.date_time
      then none
      else elim (parse_time item.start.date_time) [
        | none ↦ none
        | some start ↦ elim (parse_time item.end.date_time) [
          | none ↦ none
          | some end ↦ some (start, end)
        ]
      ]

  -- One round of the loop; `none` is a `continue`.
  unfoldable pub consider : EventItem → Option ActiveEvent
  unfolding equal_fold timed is_declined active_event_of
  consider item =
      if equal_fold item.status (codes "cancelled")
      then none
      else if equal_fold item.transparency (codes "transparent")
      then none
      else elim (timed item) [
        | none ↦ none
        | some (start, end) ↦
            if is_declined item.attendees email then none else active_event_of item start end
      ]

  unfoldable pub collect : List EventItem → List ActiveEvent
  unfolding consider collect_round
  collect [] = []
  collect (item ∷ rest) = collect_round (consider item) (collect rest)
