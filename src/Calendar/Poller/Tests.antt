-- ===== src/Calendar/Poller/Tests.antt =====
-- Meetings of one afternoon; times are given in minutes by their texts.
use mathlib.Core.Path.{subst}
use mathlib.Core.Option.{some-injective}
use busybar_bridge.Prelude.{
  ℕ, inl, inr, ◌⊎◌, sym, Bool-cases, if◌then◌else◌, ◌*◌, ◌≡◌, refl, true, false, List, [], ◌∷◌,
  Option, none, some, arith,
}
use busybar_bridge.Prelude.Decimal.{read_ℕ, itoa}
use busybar_bridge.Prelude.Int.{ℤ, pos, ◌≤ℤ◌, ◌-ℤ◌, ◌+ℤ◌, quot, leb_ℤ}
use busybar_bridge.Prelude.Result.{ok}
use busybar_bridge.Prelude.Text.{Text, codes}
use busybar_bridge.Telemetry.Store.{new_store}
use busybar_bridge.Calendar.Store.{CalendarBinding}
use busybar_bridge.Calendar.Events.{EventTime, EventItem, idle_event, format_countdown}
use busybar_bridge.Calendar.Poller.{
  Poller, Reply, no_answer, answered, get_current_event, bound, poll,
}
use busybar_bridge.Calendar.Poller.Countdown.{Shows, format_countdown-Shows}
use busybar_bridge.Calendar.Poller.Selection.{Selects, poll-Selects}
use busybar_bridge.Calendar.Poller.Request.{Request, request_url, poll_with}
use busybar_bridge.Calendar.Poller.Window.{
  Answers, IsWritten, window, nothing, serves, leaves_out, poll_with-Serves,
}
use busybar_bridge.Calendar.Poller.Query.{window_of}
use busybar_bridge.Prelude.Search.{has_rune}
use busybar_bridge.Calendar.Poller.Outage.{get_current_event-poll_failure}

binding : CalendarBinding
binding = record {
  email = codes "ann";
  access_token = codes "a";
  refresh_token = codes "r";
  token_expiry_unix = pos 5;
  calendar_id = codes "primary";
  linked_at_unix = pos 4;
}

minutes : ℕ → ℤ
minutes n = pos (n * 60_000_000_000)

parse_minutes : Text → Option ℤ
unfolding read_ℕ minutes
parse_minutes t = elim (read_ℕ t) [ none ↦ none | some n ↦ some (minutes n) ]

at_time : Text → EventTime
at_time t = record { date_time = t; date = []; time_zone = [] }

meeting : Text → Text → Text → Text → EventItem
unfolding at_time
meeting summary status start end = record {
  id = summary;
  summary = summary;
  status = status;
  transparency = [];
  start = at_time start;
  end = at_time end;
  attendees = [];
}

-- Of the two that are on at minute 100, the second ends first; the third is cancelled.
abbrev items : List EventItem
items =
    meeting (codes "long") (codes "confirmed") (codes "90") (codes "180")
    ∷ meeting (codes "short") (codes "confirmed") (codes "95") (codes "120")
    ∷ meeting (codes "off") (codes "Cancelled") (codes "95") (codes "110")
    ∷ meeting (codes "later") (codes "confirmed") (codes "101") (codes "105")
    ∷ []

abbrev poller : Poller
poller = record {
  enabled = true;
  store = some (record { path = codes "p"; binding = some binding });
  telemetry = some (new_store (pos 0));
  active_event = idle_event;
}

bound-poller : bound poller ≡ some binding
unfolding bound
bound-poller = refl

abbrev polled : Poller
polled = (poll parse_minutes poller (minutes 100) (answered 200 [] (ok items)) (pos 3)).0

summary-polled : polled.active_event.summary ≡ codes "short"
unfolding poll parse_minutes meeting minutes binding
summary-polled = refl

poll-Selects_example :
    Selects parse_minutes binding.email
      (minutes 100)
      items
      (poll parse_minutes poller (minutes 100) (answered 200 [] (ok items)) (pos 3)).0.active_event
poll-Selects_example =
    poll-Selects parse_minutes poller (minutes 100) (pos 3) [] items binding bound-poller

-- A poller that shows a meeting, at minute 110.
abbrev showing : Poller
showing = record poller {
  active_event = record {
    summary = codes "short";
    start_time = minutes 95;
    end_time = minutes 120;
    countdown = codes "00:20";
    idle = false;
  };
}

bound-showing : bound showing ≡ some binding
unfolding bound
bound-showing = refl

get_current_event-poll_failure_example :
    get_current_event
      (poll parse_minutes showing (minutes 110) (no_answer (codes "timeout")) (pos 3)).0
      (minutes 112)
    ≡ get_current_event showing (minutes 112)
unfolding minutes
get_current_event-poll_failure_example =
    get_current_event-poll_failure parse_minutes showing (minutes 110) (minutes 112) (pos 3)
      (no_answer (codes "timeout")) binding bound-showing tt (omega arith)

format_countdown-Shows_example : Shows 90_000_000_001 (format_countdown (pos 90_000_000_001))
format_countdown-Shows_example = format_countdown-Shows 90_000_000_001 (omega arith) (omega arith)

-- The longest duration, which `Time.Sub` gives for an event that ends in the far future.
countdown_overflow : format_countdown (pos 9_223_372_036_854_775_807) ≡ codes "-2562047:-46"
unfolding format_countdown
countdown_overflow = refl

-- A meeting of the day after the next, and one that is on at minute 1000.
abbrev tomorrow : EventItem
tomorrow = meeting (codes "tomorrow") (codes "confirmed") (codes "3000") (codes "3010")

abbrev today : EventItem
today = meeting (codes "today") (codes "confirmed") (codes "990") (codes "1200")

start-tomorrow : (s : ℤ) → parse_minutes tomorrow.start.date_time ≡ some s → minutes 3000 ≡ s
unfolding parse_minutes minutes meeting at_time
start-tomorrow s h = some-injective _ _ h

same : Text → Text
same t = t

no_escape : Text → Text
no_escape t = codes "primary"

no_escape-plain : (t : Text) → has_rune b'?' (no_escape t) ≡ false
unfolding no_escape has_rune
no_escape-plain t = refl

instant : ℤ → Text
unfolding itoa
instant t = itoa (quot t 60_000_000_000)

-- A calendar that leaves out the later meeting if the window ends before it.
reply_for : Option (ℤ × ℤ) → Reply
reply_for none = no_answer (codes "no window")
reply_for (some (from, to)) =
    answered 200 [] (ok (if leb_ℤ to (minutes 3000) then today ∷ [] else tomorrow ∷ today ∷ []))

asked : Text → Option (ℤ × ℤ)
asked url = window_of (λ v. parse_minutes (same v)) url

answers : Request → Reply
unfolding reply_for
answers r = reply_for (asked r.url)

reply_for-Answers :
    (from to : ℤ)
    → Answers parse_minutes from to (tomorrow ∷ today ∷ []) (reply_for (some (from, to)))
unfolding reply_for
reply_for-Answers from to = elim (Bool-cases (leb_ℤ to (minutes 3000))) [
  | inl e ↦ rw e (record {
    served = today ∷ [];
    body = [];
    answer = refl;
    serves =
        leaves_out tomorrow
          (record {
            outside = λ s t h k. inr (subst (λ x. to ≤ℤ x) (start-tomorrow s h) (ground arith));
          })
          (serves today nothing);
  })
  | inr e ↦ rw e (record {
    served = tomorrow ∷ today ∷ [];
    body = [];
    answer = refl;
    serves = serves tomorrow (serves today nothing);
  })
]

answers-Answers :
    (r : Request) (from to : ℤ)
    → window parse_minutes no_escape same same instant r.url ≡ some (from, to)
    → Answers parse_minutes from to (tomorrow ∷ today ∷ []) (answers r)
unfolding answers asked
answers-Answers r from to h =
    subst (λ w. Answers parse_minutes from to (tomorrow ∷ today ∷ []) (reply_for w)) (sym h)
      (reply_for-Answers from to)

min-IsWritten :
    IsWritten parse_minutes no_escape same same instant
      (minutes 1000 -ℤ pos 43_200_000_000_000)
      (minutes 280)
unfolding parse_minutes minutes same instant ◌-ℤ◌ ◌+ℤ◌ has_rune quot
min-IsWritten = record { plain = refl; read = refl; cut = omega arith; close = omega arith }

max-IsWritten :
    IsWritten parse_minutes no_escape same same instant
      (minutes 1000 +ℤ pos 86_400_000_000_000)
      (minutes 2440)
unfolding parse_minutes minutes same instant ◌+ℤ◌ has_rune quot
max-IsWritten = record { plain = refl; read = refl; cut = omega arith; close = omega arith }

poll_with-Serves_example :
    let out =
      poll_with no_escape same instant false true [] parse_minutes poller
        (minutes 1000)
        answers
        (pos 3) in
    ((bound poller ≡ none)
      ⊎ ((r : Request) × (out.0 ≡ some r)
          × (window parse_minutes no_escape same same instant r.url
              ≡ some (minutes 280, minutes 2440))))
    × (out.1
        ≡ (poll parse_minutes poller
            (minutes 1000)
            (answered 200 [] (ok (tomorrow ∷ today ∷ [])))
            (pos 3)).0)
unfolding has_rune
poll_with-Serves_example =
    poll_with-Serves parse_minutes no_escape same same instant false true [] poller answers
      (tomorrow ∷ today ∷ []) [] (minutes 1000) (pos 3) (minutes 280) (minutes 2440) refl
      no_escape-plain min-IsWritten max-IsWritten answers-Answers

url-written :
    request_url same same instant (codes "http://local//") binding (minutes 1000)
    ≡ codes "http://local/primary/events?timeMin=280&timeMax=2440&singleEvents=true"
unfolding request_url same instant binding minutes quot
url-written = refl
