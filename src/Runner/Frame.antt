-- ===== src/Runner/Frame.antt =====
-- internal/runner/runner.go: `handleFrame`.
-- The runner and its Home Assistant client hold the same telemetry store, as `NewRunner` builds
-- them: the store is read and written in one place, the field `store` of the runner.
pub mod Delivery
pub mod Flow
mod Offers
mod Tests
use busybar_bridge.Prelude.{ℕ, ◌+◌, Bool, List, [], ◌∷◌, Option, none, some}
use busybar_bridge.Prelude.Int.{ℤ}
use busybar_bridge.Prelude.Map.{Value}
use busybar_bridge.Prelude.Text.{Text}
use busybar_bridge.Proto.Normalized.{NormalizedEvent}
use busybar_bridge.Telemetry.Types.{Store}
use busybar_bridge.Telemetry.Store.{record_event, set_connected}
use busybar_bridge.Hass.Event.{Event}
use busybar_bridge.Hass.Client.{Client, enqueue}
use busybar_bridge.Runner.Translate.{translate_event, format_summary}

-- Each of these may be nil; `busy_connected` is what the Busy Bar client's `IsConnected` answers.
pub record Runner : Type 0 where
  pub store : Option Store
  pub hass_client : Option Client
  pub busy_connected : Option Bool

-- What the clock reads while an event is handled.
pub record Clock : Type 0 where
  pub translated_at : ℤ
  pub recorded_at : ℤ
  pub queued_at : ℤ

module _ (print : Value → Text) where
  -- The event with its trace id, if there is a store.
  record_trace : Option Store → Event → ℤ → Option Store × Event
  unfolding record_event format_summary
  record_trace none ev now = (none, ev)
  record_trace (some s) ev now =
      let (s', id) = record_event s ev.type (format_summary print ev) now in
      (some s', record ev { trace_id = id })

  -- `Enqueue`, on the client with the shared store.
  forward : Option Store → Option Client → Event → ℤ → Option Store × Option Client
  unfolding enqueue
  forward store none ev now = (store, none)
  forward store (some c) ev now =
      let c' = (enqueue (record c { store = store }) ev now).0 in (c'.store, some c')

  handle_translated : Runner → Option Event → Clock → Runner
  unfolding record_trace forward
  handle_translated r none t = r
  handle_translated r (some ev) t =
      let (store, ev') = record_trace r.store ev t.recorded_at in
      let (store', client) = forward store r.hass_client ev' t.queued_at in
      record r { store = store'; hass_client = client }

  handle_event : Runner → NormalizedEvent → Clock → Runner
  unfolding handle_translated translate_event
  handle_event r norm t = handle_translated r (translate_event (some norm) t.translated_at) t

  -- for _, normEvt := range events, with the clocks of the events from the i-th
  handle_events : Runner → List NormalizedEvent → (ℕ → Clock) → ℕ → Runner
  unfolding handle_event
  handle_events r [] clock i = r
  handle_events r (e ∷ es) clock i = handle_events (handle_event r e (clock i)) es clock (i + 1)

  sync_connected : Runner → ℤ → Runner
  unfolding set_connected
  sync_connected r now = elim r.store [
    | none ↦ r
    | some s ↦ elim r.busy_connected [
      | none ↦ r
      | some b ↦ record r { store = some (set_connected s b now) }
    ]
  ]

  -- With the events of the decoded frame, or its error.
  handle_decoded : Runner → Option (List NormalizedEvent) → (ℕ → Clock) → ℤ → Runner
  unfolding handle_events sync_connected
  handle_decoded r none clock now = r
  handle_decoded r (some es) clock now = sync_connected (handle_events r es clock 0) now

  -- The frame's payload, and the decoder's `Decode`, if there is a decoder.
  pub handle_frame :
      {Payload : Type 0}
      → Runner
      → Option (Payload → Option (List NormalizedEvent))
      → Payload
      → (ℕ → Clock)
      → ℤ
      → Runner
  unfolding handle_decoded
  handle_frame r none frame clock now = r
  handle_frame r (some decode) frame clock now = handle_decoded r (decode frame) clock now
