-- ===== src/Telemetry/Types.antt =====
-- internal/telemetry/store.go: the data of the telemetry store.
-- An `int64` counter is its 64-bit pattern, and an instant counts nanoseconds from the start of
-- year 1, the zero `time.Time`.
use busybar_bridge.Prelude.{ℕ, Bool, List}
use busybar_bridge.Prelude.Int.{ℤ, pos}
use busybar_bridge.Prelude.Text.{Text}

pub record ConnectionStatus : Type 0 where
  pub connected : Bool
  pub reconnect_count : ℕ
  pub last_connected_at : ℤ
  pub last_disconnected_at : ℤ

pub record EventCounters : Type 0 where
  pub buttons : ℕ
  pub switches : ℕ
  pub encoders : ℕ
  pub other : ℕ

pub record ForwardingTelemetry : Type 0 where
  pub total_dispatched : ℕ
  pub total_acked : ℕ
  pub total_failed : ℕ

-- The three values that the program uses of the string type.
pub data ForwardingOutcome : Type 0 where
  pending success failure : ForwardingOutcome

pub record PushTelemetry : Type 0 where
  pub enabled : Bool
  pub total_attempts : ℕ
  pub total_successes : ℕ
  pub total_failures : ℕ
  pub total_dropped : ℕ
  pub last_push_at : ℤ
  pub last_latency_ms : ℤ
  pub last_error : Text

pub record CalendarSyncTelemetry : Type 0 where
  pub enabled : Bool
  pub total_polls : ℕ
  pub success_polls : ℕ
  pub failed_polls : ℕ
  pub last_poll_at : ℤ
  pub last_error : Text
  pub active_summary : Text

pub record EventTrace : Type 0 where
  pub id : ℕ
  pub timestamp : ℤ
  pub event_type : Text
  pub summary : Text
  pub outcome : ForwardingOutcome
  pub error : Text
  pub latency_ms : ℤ

pub record Store : Type 0 where
  pub start_time : ℤ
  pub connection : ConnectionStatus
  pub counters : EventCounters
  pub forwarding : ForwardingTelemetry
  pub push : PushTelemetry
  pub calendar_sync : CalendarSyncTelemetry
  pub ring_buffer : List EventTrace
  pub next_id : ℕ
  pub total_events : ℕ
  pub max_ring_capacity : ℕ
  pub drop_count : ℕ

pub record Snapshot : Type 0 where
  pub start_time : ℤ
  pub uptime : ℤ
  pub connection : ConnectionStatus
  pub counters : EventCounters
  pub forwarding : ForwardingTelemetry
  pub push : PushTelemetry
  pub calendar_sync : CalendarSyncTelemetry
  pub total_events : ℕ
  pub recent_events : List EventTrace

-- The zero `time.Time`.
abbrev pub zero_time : ℤ
zero_time = pos 0
