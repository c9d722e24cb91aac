-- ===== src/Runner/Frame/Offers.antt =====
-- An event that is offered to the queue: it is there or it is counted.
use busybar_bridge.Prelude.{
  ℕ, ◌+◌, ◌%◌, ◌^◌, ◌≡◌, refl, List, [], ◌∷◌, ◌++◌, some, arith, ◌⊎◌, length, inl, inr, Bool-cases,
  ltb,
}
use mathlib.Core.List.{append-nil}
use busybar_bridge.Prelude.Int.{ℤ, pos_part}
use busybar_bridge.Telemetry.Types.{Store}
use busybar_bridge.Telemetry.Store.{record_drop}
use busybar_bridge.Hass.Event.{Event}
use busybar_bridge.Hass.Client.{Client, enqueue, stamp, if_store}

-- One offer of an event to the client: it is queued with
-- its time, or counted as a drop in the client and the store.
pub record Offered (s : Store) (c c' : Client) (ev : Event) (now : ℤ) : Type 0 where
  pub store : Store
  pub kept : c'.store ≡ some store
  pub queued : List Event
  pub refused : ℕ
  pub chan : c'.events_chan ≡ c.events_chan ++ queued
  pub taken : ((queued ≡ stamp ev now ∷ []) × (refused ≡ 0)) ⊎ ((queued ≡ []) × (refused ≡ 1))
  pub events : store.total_events ≡ s.total_events
  pub ids : store.next_id ≡ s.next_id
  pub drops : store.drop_count % 2 ^ 64 ≡ (s.drop_count + refused) % 2 ^ 64
  pub overflow : c'.overflow_drops % 2 ^ 64 ≡ (c.overflow_drops + refused) % 2 ^ 64

refused-Offered :
    (s : Store) (c c' : Client) (ev : Event) (now : ℤ)
    → c'.store ≡ some (record_drop s)
    → c'.events_chan ≡ c.events_chan
    → c'.overflow_drops ≡ (c.overflow_drops + 1) % 2 ^ 64
    → Offered s c c' ev now
unfolding record_drop
refused-Offered s c c' ev now k e o = record {
  store = record_drop s;
  kept = k;
  queued = [];
  refused = 1;
  chan = ground (arith, e, append-nil c.events_chan);
  taken = inr (refl, refl);
  events = refl;
  ids = refl;
  drops = omega arith;
  overflow = omega (arith, o);
}

queued-Offered :
    (s : Store) (c c' : Client) (ev : Event) (now : ℤ)
    → c'.store ≡ some s
    → c'.events_chan ≡ c.events_chan ++ stamp ev now ∷ []
    → c'.overflow_drops ≡ c.overflow_drops
    → Offered s c c' ev now
queued-Offered s c c' ev now k e o = record {
  store = s;
  kept = k;
  queued = stamp ev now ∷ [];
  refused = 0;
  chan = e;
  taken = inl (refl, refl);
  events = refl;
  ids = refl;
  drops = omega arith;
  overflow = omega (arith, o);
}

pub enqueue-Offered :
    (s : Store) (c : Client) (ev : Event) (now : ℤ)
    → Offered s c (enqueue (record c { store = some s }) ev now).0 ev now
unfolding enqueue if_store
enqueue-Offered s c ev now = elim (Bool-cases c.closed) [
  | inl h ↦ refused-Offered s c _ ev now (ground arith) (ground arith) (ground arith)
  | inr h ↦ elim (Bool-cases (ltb (length c.events_chan) (pos_part c.cfg.buffer_size))) [
    | inl k ↦ queued-Offered s c _ ev now (ground arith) (ground arith) (ground arith)
    | inr k ↦ refused-Offered s c _ ev now (ground arith) (ground arith) (ground arith)
  ]
]
