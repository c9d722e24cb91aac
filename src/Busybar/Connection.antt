-- ===== src/Busybar/Connection.antt =====
-- internal/busybar/client.go: `connectAndSupervise`, one connection with its keepalive pings. What the
-- websocket library answers is an argument. The reads and the pings of the child goroutine interleave
-- as a sequence of events; the last read fails, as only that ends `readLoop`.
pub mod Protocol
mod Tests
use busybar_bridge.Prelude.{
  Bool, true, false, List, [], ◌∷◌, ◌++◌, Option, none, some, ◌&&◌, if◌then◌else◌,
}
use busybar_bridge.Prelude.Int.{ℤ}
use busybar_bridge.Prelude.Text.{Text, codes}
use busybar_bridge.Busybar.Client.{Client, Config, ConnectionStatus, Message, read_message}
use busybar_bridge.Busybar.Endpoint.{endpoint_url}

-- The calls of the websocket library, and what is done to the client's fields and to `connCtx`.
pub data Act : Type 0 where
  dials writes_text : Text → Act
  sets_active clears_active : Act
  connects : ℤ → Act
  pings : Act
  reads : Message → Act
  fails_read : Act
  cancels : Act
  waits_for_pings : Act
  closes_normally closes_with_error : Text → Act

-- A message is read, or the ticker ticks and the ping comes to none or an error.
pub data Event : Type 0 where
  arrives : Message → Event
  ticks : Option Text → Event

-- What the connection meets: the error of the dial, of the context after it and of the first write,
-- the clock after that, the events, and the error of the last read.
pub record Meets : Type 0 where
  pub dial_error : Option Text
  pub context_error : Option Text
  pub write_error : Option Text
  pub connected_at : ℤ
  pub events : List Event
  pub read_error : Text
  -- the child goroutine takes one more tick before it sees that `connCtx` is done
  pub late_tick : Bool

pub record Supervised : Type 0 where
  pub client : Client
  pub acts : List Act
  pub error : Option Text

abbrev pub activation : Text
activation = codes "{\"enable\": true}"

-- The acts in front of those that follow.
before : List Act → Supervised → Supervised
before acts rest = record rest { acts = acts ++ rest.acts }

-- The deferred calls once the connection is there.
abbrev pub conclusion : List Act
conclusion = clears_active ∷ closes_with_error (codes "connection closed") ∷ []

-- The tick that is taken late; a ping on a context that is done fails.
late_ping : Bool → List Act
late_ping late = if late then pings ∷ cancels ∷ [] else []

-- A ping that fails cancels `connCtx` and ends the goroutine; the flag says that it still runs.
supervise : Text → Bool → Client → Bool → List Event → Supervised
unfolding before read_message late_ping
supervise read_error late c pinging [] = record {
  client = c;
  acts =
      fails_read
      ∷ cancels
      ∷ (late_ping (pinging && late) ++ waits_for_pings ∷ cancels ∷ conclusion);
  error = some read_error;
}
supervise read_error late c pinging (arrives m ∷ rest) =
    before (reads m ∷ []) (supervise read_error late (read_message c m) pinging rest)
supervise read_error late c true (ticks none ∷ rest) =
    before (pings ∷ []) (supervise read_error late c true rest)
supervise read_error late c true (ticks (some e) ∷ rest) =
    before (pings ∷ cancels ∷ []) (supervise read_error late c false rest)
supervise read_error late c false (ticks e ∷ rest) = supervise read_error late c false rest

-- `Connected` and `LastConnectedAt` once the activation is written.
connected : Client → ℤ → Client
connected c now = record c {
  status = record c.status { connected = true; last_connected_at = now };
}

-- With the answer of the activation write.
with_write : Client → Meets → Option Text → Supervised
unfolding supervise connected before
with_write c w (some e) = record {
  client = c;
  acts = closes_with_error (codes "activation write failed") ∷ conclusion;
  error = some e;
}
with_write c w none =
    before (connects w.connected_at ∷ [])
      (supervise w.read_error w.late_tick (connected c w.connected_at) true w.events)

-- With `ctx.Err()` after the dial.
with_context : Client → Meets → Option Text → Supervised
unfolding with_write before
with_context c w (some e) = record {
  client = c;
  acts =
      closes_normally (codes "shutting down") ∷ closes_with_error (codes "connection closed") ∷ [];
  error = some e;
}
with_context c w none =
    before (sets_active ∷ writes_text activation ∷ []) (with_write c w w.write_error)

-- With the answer of the dial.
with_dial : Client → Meets → Option Text → Supervised
unfolding with_context
with_dial c w (some e) = record { client = c; acts = []; error = some e }
with_dial c w none = with_context c w w.context_error

unfoldable pub connect_and_supervise : Client → Meets → Supervised
unfolding with_dial before
connect_and_supervise c w =
    before (dials (endpoint_url c.cfg.host c.cfg.port) ∷ []) (with_dial c w w.dial_error)
