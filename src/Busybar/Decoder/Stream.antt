-- ===== src/Busybar/Decoder/Stream.antt =====
-- internal/busybar/decoder.go: the loop of `Run`.
-- The environment of the loop is a list of what its outer `select` receives; for each event it also
-- says which case the inner `select` takes.
pub mod Balance
use busybar_bridge.Prelude.{
  ℕ, suc, ◌+◌, ◌≡◌, refl, ◌≢◌, ◌⊎◌, inl, inr, Option-cases, List, [], ◌∷◌, ◌++◌, Option, none, some,
  arith, length, length-append,
}
use busybar_bridge.Prelude.Int.{ℤ}
use busybar_bridge.Prelude.Text.{Text}
use busybar_bridge.Proto.Upstream.{State}
use busybar_bridge.Proto.Normalized.{NormalizedEvent}
use busybar_bridge.Busybar.Decoder.{
  MetricCall, decode_success, decode_error, dropped_frame, success_call, event_time,
  normalize_updates, decode,
}

-- The context is done; the channel takes the event; neither is ready.
pub data Select : Type 0 where
  done sent full : Select

pub data Arrival (Payload : Type 0) : Type 0 where
  cancelled closed : Arrival Payload
  frame : Payload → ℤ → (ℕ → Select) → Arrival Payload

-- `ctx.Err()`, nil, or none: the loop waits for its next arrival.
pub data Exit : Type 0 where
  context_error clean waiting : Exit

pub record Trace : Type 0 where
  pub exit : Exit
  pub out : List NormalizedEvent
  pub recorded : List MetricCall

-- for _, evt := range events
pub emit : (ℕ → Select) → ℕ → List NormalizedEvent → Trace
emit choose i [] = record { exit = waiting; out = []; recorded = [] }
emit choose i (e ∷ es) =
    let rest = emit choose (i + 1) es in
    elim (choose i) [
      | done ↦ record { exit = context_error; out = []; recorded = [] }
      | sent ↦ record rest { out = e ∷ rest.out }
      | full ↦ record rest { recorded = dropped_frame ∷ rest.recorded }
    ]

-- What follows a frame's events, unless the context was done.
after : Trace → Trace → Trace
after t rest = elim t.exit [
  | waiting ↦ record {
    exit = rest.exit;
    out = t.out ++ rest.out;
    recorded = t.recorded ++ rest.recorded;
  }
  | context_error ↦ t
  | clean ↦ t
]

-- The body of the loop after `Decode`: an error is a `continue`.
emit_decoded : Option (List NormalizedEvent) → List MetricCall → (ℕ → Select) → Trace
unfolding emit
emit_decoded none recorded choose = record { exit = waiting; out = []; recorded = recorded }
emit_decoded (some es) recorded choose =
    let t = emit choose 0 es in record t { recorded = recorded ++ t.recorded }

module _ {Payload : Type 0} (unmarshal : Payload → Option State) (device : Text) where
  unfoldable pub run : List (Arrival Payload) → Trace
  unfolding emit_decoded after
  run [] = record { exit = waiting; out = []; recorded = [] }
  run (cancelled ∷ rest) = record { exit = context_error; out = []; recorded = [] }
  run (closed ∷ rest) = record { exit = clean; out = []; recorded = [] }
  run (frame p now choose ∷ rest) =
      let d = decode unmarshal device now p in
      after (emit_decoded d.events d.recorded choose) (run rest)
