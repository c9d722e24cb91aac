-- ===== src/Runner/Frame/Delivery.antt =====
-- What becomes of the events of a frame.
use busybar_bridge.Prelude.{
  ℕ, inc64, ◌⊎◌, inl, inr, ◌+◌, ◌%◌, ◌^◌, ◌≡◌, Bool, List, [], ◌∷◌, ◌++◌, Option, some, arith,
  length,
}
use mathlib.Core.Path.{subst}
use mathlib.Core.List.{append_assoc}
use busybar_bridge.Prelude.Int.{ℤ}
use busybar_bridge.Proto.Normalized.{NormalizedEvent}
use busybar_bridge.Telemetry.Types.{Store}
use busybar_bridge.Hass.Event.{Event}
use busybar_bridge.Hass.Client.{Client, stamp}
use busybar_bridge.Runner.Translate.{translate_event}
use busybar_bridge.Runner.Frame.{Runner, Clock}

-- A runner with a store and a client.
abbrev pub runner : Store → Client → Option Bool → Runner
runner s c b = record { store = some s; hass_client = some c; busy_connected = b }

-- The event that is queued for the normalized event `norm`, translated at `now`: what
-- `TranslateEvent` makes of it, with the number of the trace that follows trace `id`.
pub record IsSent (id : ℕ) (norm : NormalizedEvent) (now : ℤ) (e : Event) : Type 0 where
  pub translation : Event
  pub translated : translate_event (some norm) now ≡ some translation
  pub same_id : e.id ≡ translation.id
  pub device : e.device ≡ translation.device
  pub type : e.type ≡ translation.type
  pub timestamp : e.timestamp ≡ translation.timestamp
  pub fields : e.fields ≡ translation.fields
  pub trace_id : e.trace_id ≡ inc64 id

-- The normalized events of a frame, the clock of the first being the i-th, after trace `id`: each is
-- queued, in order, or is one of the refused; each takes the next number of a trace.
pub data Delivered (clock : ℕ → Clock)
    : ℕ → List NormalizedEvent → ℕ → List Event → ℕ → Type 0 where
  all_done : {id i n : ℕ} → n ≡ 0 → Delivered clock id [] i [] n
  queues :
      {id i n : ℕ} {norm : NormalizedEvent} {es : List NormalizedEvent} {e : Event}
      {queued : List Event}
      → IsSent id norm (clock i).translated_at e
      → Delivered clock (inc64 id) es (i + 1) queued n
      → Delivered clock id (norm ∷ es) i (e ∷ queued) n
  refuses :
      {id i n k : ℕ} {norm : NormalizedEvent} {es : List NormalizedEvent} {queued : List Event}
      → n ≡ k + 1
      → Delivered clock (inc64 id) es (i + 1) queued k
      → Delivered clock id (norm ∷ es) i queued n

-- How the events `es`, with the clocks from the i-th, changed the store and the client: some were
-- queued in order behind the others, the rest were counted as drops.
pub record Flow (clock : ℕ → Clock) (s s' : Store) (c c' : Client) (es : List NormalizedEvent)
    (i : ℕ) : Type 0 where
  pub queued : List Event
  pub refused : ℕ
  pub delivered : Delivered clock s.next_id es i queued refused
  pub chan : c'.events_chan ≡ c.events_chan ++ queued
  pub events : s'.total_events % 2 ^ 64 ≡ (s.total_events + length es) % 2 ^ 64
  pub ids : s'.next_id % 2 ^ 64 ≡ (s.next_id + length es) % 2 ^ 64
  pub drops : s'.drop_count % 2 ^ 64 ≡ (s.drop_count + refused) % 2 ^ 64
  pub overflow : c'.overflow_drops % 2 ^ 64 ≡ (c.overflow_drops + refused) % 2 ^ 64

-- The same for one event.
pub record One (s s' : Store) (c c' : Client) (norm : NormalizedEvent) (now : ℤ) : Type 0 where
  pub queued : List Event
  pub refused : ℕ
  pub taken :
      ((e : Event) × (queued ≡ e ∷ []) × (refused ≡ 0) × IsSent s.next_id norm now e)
      ⊎ ((queued ≡ []) × (refused ≡ 1))
  pub chan : c'.events_chan ≡ c.events_chan ++ queued
  pub events : s'.total_events % 2 ^ 64 ≡ (s.total_events + 1) % 2 ^ 64
  pub ids : s'.next_id ≡ inc64 s.next_id
  pub drops : s'.drop_count % 2 ^ 64 ≡ (s.drop_count + refused) % 2 ^ 64
  pub overflow : c'.overflow_drops % 2 ^ 64 ≡ (c.overflow_drops + refused) % 2 ^ 64

Delivered-cons :
    (clock : ℕ → Clock) (id i refused n : ℕ) (norm : NormalizedEvent) (es : List NormalizedEvent)
    (queued more : List Event)
    → ((e : Event) × (queued ≡ e ∷ []) × (refused ≡ 0) × IsSent id norm (clock i).translated_at e)
      ⊎ ((queued ≡ []) × (refused ≡ 1))
    → Delivered clock (inc64 id) es (i + 1) more n
    → Delivered clock id (norm ∷ es) i (queued ++ more) (refused + n)
Delivered-cons clock id i refused n norm es queued more (inl (e, q, z, v)) d =
    let k : refused + n ≡ n = omega (arith, z) in rw (q, k) (queues v d)
Delivered-cons clock id i refused n norm es queued more (inr (q, z)) d =
    rw q (refuses {k = n} (omega (arith, z)) d)

pub Flow-cons :
    (clock : ℕ → Clock) (s s₁ s₂ : Store) (c c₁ c₂ : Client) (norm : NormalizedEvent)
    (es : List NormalizedEvent) (i : ℕ)
    → One s s₁ c c₁ norm (clock i).translated_at
    → Flow clock s₁ s₂ c₁ c₂ es (i + 1)
    → Flow clock s s₂ c c₂ (norm ∷ es) i
Flow-cons clock s s₁ s₂ c c₁ c₂ norm es i a b = record {
  queued = a.queued ++ b.queued;
  refused = a.refused + b.refused;
  delivered =
      Delivered-cons clock s.next_id i a.refused b.refused norm es a.queued b.queued a.taken
        (subst (λ n. Delivered clock n es (i + 1) b.queued b.refused) a.ids b.delivered);
  chan = ground (arith, a.chan, b.chan, append_assoc c.events_chan a.queued b.queued);
  events = omega (arith, a.events, b.events);
  ids = omega (arith, a.ids, b.ids);
  drops = omega (arith, a.drops, b.drops);
  overflow = omega (arith, a.overflow, b.overflow);
}

-- The runner that is left, with the flow of the events to it.
pub record Flows (clock : ℕ → Clock) (s : Store) (c : Client) (b : Option Bool)
    (es : List NormalizedEvent) (i : ℕ) (r : Runner) : Type 0 where
  pub store : Store
  pub client : Client
  pub result : r ≡ runner store client b
  pub flow : Flow clock s store c client es i

pub record OneFlows (s : Store) (c : Client) (b : Option Bool) (norm : NormalizedEvent) (now : ℤ)
    (r : Runner) : Type 0 where
  pub store : Store
  pub client : Client
  pub result : r ≡ runner store client b
  pub one : One s store c client norm now

pub stamp-IsSent :
    (id : ℕ) (norm : NormalizedEvent) (now queued_at : ℤ) (ev : Event)
    → translate_event (some norm) now ≡ some ev
    → IsSent id norm now (stamp (record ev { trace_id = inc64 id }) queued_at)
unfolding stamp
stamp-IsSent id norm now queued_at ev h = record {
  translation = ev;
  translated = h;
  same_id = ground arith;
  device = ground arith;
  type = ground arith;
  timestamp = ground arith;
  fields = ground arith;
  trace_id = ground arith;
}
