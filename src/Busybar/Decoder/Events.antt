-- ===== src/Busybar/Decoder/Events.antt =====
-- What `Decode` returns, for every frame.
use mathlib.Core.Path.{subst}
use mathlib.Core.Option.{some-injective}
use busybar_bridge.Prelude.{
  ◌≡◌, refl, List, [], ◌∷◌, ◌++◌, Option, none, some, arith, All, Option-cases, inl, inr,
}
use busybar_bridge.Prelude.Int.{ℤ, pos, ◌<ℤ◌}
use busybar_bridge.Prelude.Text.{Text}
use busybar_bridge.Proto.Upstream.{
  State, StateUpdate, InputEvent, InputOneof, button_event, switch_event, encoder_event, get_input,
}
use busybar_bridge.Proto.Normalized.{NormalizedEvent, EventOneof, button, switch, encoder}
use busybar_bridge.Busybar.Decoder.{
  normalize_oneof, normalize_input, normalize_updates, event_time, decode,
}

-- The member of the oneof is present, and repeats the device and the time of the event.
abbrev pub HasMember : Text → ℤ → Option EventOneof → Type 0
HasMember device ts none = ⊥
HasMember device ts (some (button none)) = ⊥
HasMember device ts (some (button (some b))) = (b.device ≡ device) × (b.timestamp ≡ ts)
HasMember device ts (some (switch none)) = ⊥
HasMember device ts (some (switch (some s))) = (s.device ≡ device) × (s.timestamp ≡ ts)
HasMember device ts (some (encoder none)) = ⊥
HasMember device ts (some (encoder (some e))) = (e.device ≡ device) × (e.timestamp ≡ ts)

-- A complete event of the device, with a positive timestamp.
abbrev pub IsComplete : Text → NormalizedEvent → Type 0
IsComplete device e =
    (e.device ≡ device) × (pos 0 <ℤ e.timestamp) × HasMember device e.timestamp e.event

module _ (device : Text) (ts : ℤ) where
  normalize_oneof-IsComplete :
      (o : Option InputOneof) (e : NormalizedEvent)
      → pos 0 <ℤ ts
      → normalize_oneof device ts o ≡ some e
      → IsComplete device e
  unfolding normalize_oneof
  normalize_oneof-IsComplete (some (button_event (some x))) e h eq =
      subst (IsComplete device) (some-injective _ _ eq) (refl, h, (refl, refl))
  normalize_oneof-IsComplete (some (switch_event (some x))) e h eq =
      subst (IsComplete device) (some-injective _ _ eq) (refl, h, (refl, refl))
  normalize_oneof-IsComplete (some (encoder_event (some x))) e h eq =
      subst (IsComplete device) (some-injective _ _ eq) (refl, h, (refl, refl))
  normalize_oneof-IsComplete _ e h eq = cc

  normalize_input-IsComplete :
      (i : Option InputEvent) (e : NormalizedEvent)
      → pos 0 <ℤ ts
      → normalize_input device ts i ≡ some e
      → IsComplete device e
  unfolding normalize_input
  normalize_input-IsComplete none e h eq = cc
  normalize_input-IsComplete (some i) e h eq = normalize_oneof-IsComplete i.event e h eq

  normalize_updates-IsComplete :
      (us : List (Option StateUpdate))
      → pos 0 <ℤ ts
      → All (IsComplete device) (normalize_updates device ts us)
  unfolding normalize_updates
  normalize_updates-IsComplete [] h = tt
  normalize_updates-IsComplete (u ∷ us) h =
      elim (Option-cases (normalize_input device ts (get_input u))) [
        | inl e ↦ rw (e, normalize_updates) (normalize_updates-IsComplete us h)
        | inr (x, e) ↦
            rw (e, normalize_updates)
              (normalize_input-IsComplete (get_input u) x h e, normalize_updates-IsComplete us h)
      ]

  -- Each update gives at most one event, in the order of the updates.
  normalize_updates-append :
      (us vs : List (Option StateUpdate))
      → normalize_updates device ts (us ++ vs)
        ≡ normalize_updates device ts us ++ normalize_updates device ts vs
  unfolding normalize_updates
  normalize_updates-append [] vs = refl
  normalize_updates-append (u ∷ us) vs = ground (arith, normalize_updates-append us vs)

event_time_pos : (now : ℤ) (s : State) → pos 0 <ℤ now → pos 0 <ℤ event_time now s
unfolding event_time
event_time_pos now s h = ground arith

module _ {Payload : Type 0} (unmarshal : Payload → Option State) where
  -- Every event of a decoded frame is complete: it has the decoder's device and a positive
  -- timestamp, its oneof is set to a non-nil member, and that member repeats both. The clock reads a
  -- positive time.
  pub decode-IsComplete :
      (device : Text) (now : ℤ) (p : Payload) (es : List NormalizedEvent)
      → pos 0 <ℤ now
      → (decode unmarshal device now p).events ≡ some es
      → All (IsComplete device) es
  unfolding decode
  decode-IsComplete device now p es h eq = elim (Option-cases (unmarshal p)) [
    | inl e ↦ ground arith
    | inr (s, e) ↦
        let u : normalize_updates device (event_time now s) s.updates ≡ es = ground arith in
        subst (All (IsComplete device)) u (
          normalize_updates-IsComplete device (event_time now s) s.updates (event_time_pos now s h))
  ]
