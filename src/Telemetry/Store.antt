-- ===== src/Telemetry/Store.antt =====
-- internal/telemetry/store.go: the methods of the telemetry store.
-- A method that locks the mutex is one atomic step on the record; `time.Now()` is an argument, and
-- an `error` is the text of its message.
pub mod Calls
pub mod Ring
pub mod Log
pub mod Counts
mod Tests
use busybar_bridge.Prelude.{
  ℕ, Bool, true, false, Option, none, some, List, [], ◌∷◌, ◌++◌, ◌||◌, ◌==◌, leb, length,
  if◌then◌else◌, inc64,
}
use busybar_bridge.Prelude.Int.{ℤ, pos, quot}
use busybar_bridge.Prelude.Text.{Text, codes, text_eq, to_lower}
use busybar_bridge.Telemetry.Types.{
  EventCounters, ForwardingTelemetry, ForwardingOutcome, pending, success, failure, EventTrace,
  Store, Snapshot, zero_time,
}

unfoldable pub new_store : ℤ → Store
new_store now = record {
  start_time = now;
  connection = record {
    connected = false;
    reconnect_count = 0;
    last_connected_at = zero_time;
    last_disconnected_at = zero_time;
  };
  counters = record { buttons = 0; switches = 0; encoders = 0; other = 0 };
  forwarding = record { total_dispatched = 0; total_acked = 0; total_failed = 0 };
  push = record {
    enabled = false;
    total_attempts = 0;
    total_successes = 0;
    total_failures = 0;
    total_dropped = 0;
    last_push_at = zero_time;
    last_latency_ms = pos 0;
    last_error = [];
  };
  calendar_sync = record {
    enabled = false;
    total_polls = 0;
    success_polls = 0;
    failed_polls = 0;
    last_poll_at = zero_time;
    last_error = [];
    active_summary = [];
  };
  ring_buffer = [];
  next_id = 0;
  total_events = 0;
  max_ring_capacity = 10;
  drop_count = 0;
}

unfoldable pub set_connected : Store → Bool → ℤ → Store
set_connected s connected now = record s {
  connection =
      if connected
      then record (s.connection) { connected = true; last_connected_at = now }
      else record (s.connection) { connected = false; last_disconnected_at = now };
}

pub increment_reconnect_count : Store → Store
increment_reconnect_count s = record s {
  connection = record (s.connection) { reconnect_count = inc64 s.connection.reconnect_count };
}

-- The `switch` on the lower-cased event type.
count_event : EventCounters → Text → EventCounters
unfolding text_eq to_lower
count_event c event_type =
    let t = to_lower event_type in
    if text_eq t (codes "button") || text_eq t (codes "buttons")
    then record c { buttons = inc64 c.buttons }
    else if text_eq t (codes "switch") || text_eq t (codes "switches")
    then record c { switches = inc64 c.switches }
    else if text_eq t (codes "encoder") || text_eq t (codes "encoders")
    then record c { encoders = inc64 c.encoders }
    else record c { other = inc64 c.other }

-- ringBuffer[1:]
tail : List EventTrace → List EventTrace
tail [] = []
tail (_ ∷ ts) = ts

-- `append`, with the oldest trace evicted when the ring is at capacity.
pub push_trace : ℕ → List EventTrace → EventTrace → List EventTrace
unfolding tail
push_trace capacity ring trace =
    if leb capacity (length ring) then tail ring ++ trace ∷ [] else ring ++ trace ∷ []

new_trace : ℕ → ℤ → Text → Text → EventTrace
new_trace id now event_type summary = record {
  id = id;
  timestamp = now;
  event_type = event_type;
  summary = summary;
  outcome = pending;
  error = [];
  latency_ms = pos 0;
}

unfoldable pub record_event : Store → Text → Text → ℤ → Store × ℕ
unfolding count_event push_trace new_trace
record_event s event_type summary now =
    let id = inc64 s.next_id in
    (
      record s {
        next_id = id;
        total_events = inc64 s.total_events;
        counters = count_event s.counters event_type;
        ring_buffer =
            push_trace s.max_ring_capacity s.ring_buffer (new_trace id now event_type summary);
      },
      id,
    )

-- What the loop writes into the trace that it finds.
set_outcome : ForwardingOutcome → ℤ → Option Text → EventTrace → EventTrace
set_outcome outcome latency err t =
    let t' = record t { outcome = outcome; latency_ms = quot latency 1_000_000 } in
    elim err [ none ↦ t' | some e ↦ record t' { error = e } ]

-- `for i := range ringBuffer`, with the `break` at the first trace that has the id.
pub update_first : ℕ → (EventTrace → EventTrace) → List EventTrace → List EventTrace
update_first id f [] = []
update_first id f (t ∷ ts) = if t.id == id then f t ∷ ts else t ∷ update_first id f ts

count_outcome : ForwardingTelemetry → ForwardingOutcome → ForwardingTelemetry
count_outcome f success = record f {
  total_dispatched = inc64 f.total_dispatched;
  total_acked = inc64 f.total_acked;
}
count_outcome f failure = record f {
  total_dispatched = inc64 f.total_dispatched;
  total_failed = inc64 f.total_failed;
}
count_outcome f pending = record f { total_dispatched = inc64 f.total_dispatched }

unfoldable pub record_forward_outcome : Store → ℕ → ForwardingOutcome → ℤ → Option Text → Store
unfolding count_outcome set_outcome update_first
record_forward_outcome s id outcome latency err = record s {
  forwarding = count_outcome s.forwarding outcome;
  ring_buffer = update_first id (set_outcome outcome latency err) s.ring_buffer;
}

unfoldable pub is_connected : Store → Bool
is_connected s = s.connection.connected

-- The uptime is `time.Since(startTime)`, an argument here.
unfoldable pub snapshot : Store → ℤ → Snapshot
snapshot s uptime = record {
  start_time = s.start_time;
  uptime = uptime;
  connection = s.connection;
  counters = s.counters;
  forwarding = s.forwarding;
  push = s.push;
  calendar_sync = s.calendar_sync;
  total_events = s.total_events;
  recent_events = s.ring_buffer;
}

unfoldable pub set_push_enabled : Store → Bool → Store
set_push_enabled s enabled = record s { push = record (s.push) { enabled = enabled } }

unfoldable pub record_push_attempt : Store → Store
record_push_attempt s = record s {
  push = record (s.push) { total_attempts = inc64 s.push.total_attempts };
}

-- The `error` of a failure, if there is one, replaces the last; without one the last stays.
or_last : Option Text → Text → Text
or_last none last = last
or_last (some e) last = e

unfoldable pub record_push_result : Store → Bool → ℤ → Option Text → ℤ → Store
unfolding or_last
record_push_result s ok latency err now =
    let p = record (s.push) { last_push_at = now; last_latency_ms = quot latency 1_000_000 } in
    record s {
      push =
          if ok
          then record p { total_successes = inc64 s.push.total_successes; last_error = [] }
          else record p {
            total_failures = inc64 s.push.total_failures;
            last_error = or_last err s.push.last_error;
          };
    }

unfoldable pub record_push_drop : Store → Store
record_push_drop s = record s {
  push = record (s.push) { total_dropped = inc64 s.push.total_dropped };
}

-- The reasons are not kept.
unfoldable pub record_drop : Store → Store
record_drop s = record s { drop_count = inc64 s.drop_count }

unfoldable pub set_calendar_sync_enabled : Store → Bool → Store
set_calendar_sync_enabled s enabled = record s {
  calendar_sync = record (s.calendar_sync) { enabled = enabled };
}

unfoldable pub record_calendar_poll : Store → Bool → Text → Option Text → ℤ → Store
unfolding or_last
record_calendar_poll s ok active_summary err now =
    let c = record (s.calendar_sync) {
      total_polls = inc64 s.calendar_sync.total_polls;
      last_poll_at = now;
      active_summary = active_summary;
    } in
    record s {
      calendar_sync =
          if ok
          then record c { success_polls = inc64 s.calendar_sync.success_polls; last_error = [] }
          else record c {
            failed_polls = inc64 s.calendar_sync.failed_polls;
            last_error = or_last err s.calendar_sync.last_error;
          };
    }
