-- ===== src/Server/Page.antt =====
-- internal/server/server.go: `handleStatus`. The clock's readings, the JSON encoder and the template
-- are arguments; without a template `execute` is none. `Accept` is a request's header.
use busybar_bridge.Prelude.{Bool, false, not, ◌||◌, ◌&&◌, [], Option, none, some, if◌then◌else◌}
use busybar_bridge.Prelude.Int.{ℤ, pos}
use busybar_bridge.Prelude.Result.{Result, ok, err}
use busybar_bridge.Prelude.Search.{contains}
use busybar_bridge.Prelude.Text.{Text, codes, text_eq}
use busybar_bridge.Telemetry.Types
use busybar_bridge.Telemetry.Types.{Snapshot, zero_time}
use busybar_bridge.Telemetry.Store.{snapshot}
use busybar_bridge.Calendar.Store.{Store}
use busybar_bridge.Calendar.Events.{ActiveEvent, idle_event}
use busybar_bridge.Calendar.Display.{format_display_state}
use busybar_bridge.Calendar.Display.Render.{DisplayState}
use busybar_bridge.Server.Http.{Request, query_get, is_get_or_head, Reply, kept, error_reply}
use busybar_bridge.Server.Status.{CalendarStatus, calendar_status}

pub record StatusData : Type 0 where
  pub snapshot : Snapshot
  pub calendar : CalendarStatus
  pub active_event : ActiveEvent
  pub display_state : DisplayState

-- The zero value of a snapshot.
zero_snapshot : Snapshot
zero_snapshot = record {
  start_time = zero_time;
  uptime = pos 0;
  connection = record {
    connected = false;
    reconnect_count = 0;
    last_connected_at = zero_time;
    last_disconnected_at = zero_time;
  };
  counters = record { buttons = 0; switches = 0; encoders = 0; other = 0 };
  forwarding = record { total_dispatched = 0; total_acked = 0; total_failed = 0 };
  push = record {
    enabled = false;
    total_attempts = 0;
    total_successes = 0;
    total_failures = 0;
    total_dropped = 0;
    last_push_at = zero_time;
    last_latency_ms = pos 0;
    last_error = [];
  };
  calendar_sync = record {
    enabled = false;
    total_polls = 0;
    success_polls = 0;
    failed_polls = 0;
    last_poll_at = zero_time;
    last_error = [];
    active_summary = [];
  };
  total_events = 0;
  recent_events = [];
}

-- What the page meets: the store's uptime, the clock, the header and the encoders.
pub record PageWorld : Type 0 where
  pub uptime : ℤ
  pub now : ℤ
  pub accept : Text
  pub format_time : ℤ → Text
  pub date_line : ℤ → Text
  pub time_line : ℤ → Text
  -- what the JSON encoder writes, also when it fails
  pub encode : StatusData → Text
  pub execute : Option (StatusData → Result Text Text)

module _ (w : PageWorld) where
  snapshot_of : Option Types.Store → Snapshot
  unfolding snapshot zero_snapshot
  snapshot_of none = zero_snapshot
  snapshot_of (some s) = snapshot s w.uptime

  active_event_of : Option ActiveEvent → ActiveEvent
  active_event_of none = idle_event
  active_event_of (some ev) = ev

  display_state_of : Option DisplayState → ActiveEvent → DisplayState
  unfolding format_display_state
  display_state_of (some d) ev = d
  display_state_of none ev = format_display_state w.date_line w.time_line ev w.now

  -- The tracker and the display are what their methods answer.
  pub status_data :
      Option Types.Store
      → Option Bool
      → Option Bool
      → Option Store
      → Option ActiveEvent
      → Option DisplayState
      → Request
      → StatusData
  unfolding snapshot_of active_event_of display_state_of
  status_data store configured manager calendar_store tracker display r =
      let ev = active_event_of tracker in
      record {
        snapshot = snapshot_of store;
        calendar = calendar_status w.format_time configured manager calendar_store (some r);
        active_event = ev;
        display_state = display_state_of display ev;
      }

  wants_json : Request → Bool
  unfolding contains text_eq
  wants_json r =
      contains (codes "application/json") w.accept
      || text_eq (query_get r (codes "format")) (codes "json")

  page : Text → Reply
  page body = record { status = 200; location = none; cookie = kept; body = body }

  html_page : StatusData → Option (StatusData → Result Text Text) → Reply
  unfolding page
  html_page d none = error_reply (codes "Internal Server Error") 500
  html_page d (some execute) = elim (execute d) [
    | err e ↦ error_reply (codes "Internal Server Error") 500
    | ok body ↦ page body
  ]

  -- handleStatus; the data is built before the reply's form is chosen.
  unfoldable pub handle_status : Text → StatusData → Request → Reply
  unfolding wants_json page html_page is_get_or_head text_eq
  handle_status path d r =
      if not (text_eq path (codes "/status")) && not (text_eq path (codes "/"))
      then error_reply (codes "404 page not found") 404
      else if not (is_get_or_head r)
      then error_reply (codes "Method Not Allowed") 405
      else if wants_json r
      then page (if text_eq r.method (codes "HEAD") then [] else w.encode d)
      else html_page d w.execute
