-- ===== src/Runner/Frame/Flow.antt =====
-- Where the events of a frame go.
use busybar_bridge.Prelude.{
  ℕ, inl, inr, ◌+◌, ◌≡◌, ◌≢◌, ap, ◌∙◌, refl, sym, Bool, List, [], ◌∷◌, Option, none, some, arith,
  All,
}
use mathlib.Core.Path.{subst}
use mathlib.Core.List.{append-nil}
use busybar_bridge.Prelude.Int.{ℤ, pos, ◌<ℤ◌}
use busybar_bridge.Prelude.Map.{Value}
use busybar_bridge.Prelude.Text.{Text}
use busybar_bridge.Proto.Normalized.{NormalizedEvent}
use busybar_bridge.Busybar.Decoder.Events.{IsComplete, decode-IsComplete}
use busybar_bridge.Busybar.Decoder.{decode}
use busybar_bridge.Proto.Upstream.{State}
use busybar_bridge.Telemetry.Types.{Store}
use busybar_bridge.Telemetry.Store.{record_event, set_connected}
use busybar_bridge.Hass.Event.{Event}
use busybar_bridge.Hass.Client.{Client, enqueue}
use busybar_bridge.Runner.Translate.Agreement.{translate_event-Agrees}
use busybar_bridge.Runner.Translate.{translate_event, format_summary}
use busybar_bridge.Runner.Frame.Offers.{enqueue-Offered}
use busybar_bridge.Runner.Frame.{
  Runner, Clock, record_trace, forward, handle_translated, handle_event, handle_events,
  sync_connected, handle_decoded, handle_frame,
}
use busybar_bridge.Runner.Frame.Delivery.{
  runner, all_done, Flow, OneFlows, Flow-cons, Flows, stamp-IsSent,
}

module _ (print : Value → Text) where
  handle_translated-Flows :
      (s : Store) (c : Client) (b : Option Bool) (norm : NormalizedEvent) (ev : Event) (t : Clock)
      → translate_event (some norm) t.translated_at ≡ some ev
      → OneFlows s c b norm t.translated_at (handle_translated print (runner s c b) (some ev) t)
  unfolding handle_translated record_trace forward record_event
  handle_translated-Flows s c b norm ev t h =
      let recorded = record_event s ev.type (format_summary print ev) t.recorded_at in
      let ev' = record ev { trace_id = recorded.1 } in
      let o = enqueue-Offered recorded.0 c ev' t.queued_at in
      let client = (enqueue (record c { store = some recorded.0 }) ev' t.queued_at).0 in
      record {
        store = o.store;
        client = client;
        result =
            ap (λ x. record { store = x; hass_client = some client; busy_connected = b }) o.kept;
        one = record {
          queued = o.queued;
          refused = o.refused;
          taken = elim o.taken [
            | inl (q, z) ↦
                inl (_, q, z, stamp-IsSent s.next_id norm t.translated_at t.queued_at ev h)
            | inr v ↦ inr v
          ];
          chan = o.chan;
          events = omega (arith, o.events);
          ids = o.ids;
          drops = o.drops;
          overflow = o.overflow;
        };
      }

  handle_events-Flows :
      (s : Store) (c : Client) (b : Option Bool) (es : List NormalizedEvent) (clock : ℕ → Clock)
      (i : ℕ) (device : Text)
      → device ≢ []
      → All (IsComplete device) es
      → Flows clock s c b es i (handle_events print (runner s c b) es clock i)
  unfolding handle_events handle_event
  handle_events-Flows s c b [] clock i device h v = record {
    store = s;
    client = c;
    result = refl;
    flow = record {
      queued = [];
      refused = 0;
      delivered = all_done refl;
      chan = sym (append-nil c.events_chan);
      events = omega arith;
      ids = omega arith;
      drops = omega arith;
      overflow = omega arith;
    };
  }
  handle_events-Flows s c b (e ∷ es) clock i device h v =
      let a = translate_event-Agrees device e (clock i).translated_at h v.0 in
      let one = handle_translated-Flows s c b e a.event (clock i) a.translated in
      let more = handle_events-Flows one.store one.client b es clock (i + 1) device h v.1 in
      record {
        store = more.store;
        client = more.client;
        result =
            ap
              (λ x.
                handle_events print (handle_translated print (runner s c b) x (clock i)) es clock
                  (i + 1))
              a.translated
            ∙ (ap (λ r. handle_events print r es clock (i + 1)) one.result ∙ more.result);
        flow =
            Flow-cons clock s one.store more.store c one.client more.client e es i one.one
              more.flow;
      }

  set_connected-Flow :
      (clock : ℕ → Clock) (s s' : Store) (c c' : Client) (es : List NormalizedEvent) (x : Bool)
      (now : ℤ)
      → Flow clock s s' c c' es 0
      → Flow clock s (set_connected s' x now) c c' es 0
  unfolding set_connected
  set_connected-Flow clock s s' c c' es x now f = record {
    queued = f.queued;
    refused = f.refused;
    chan = f.chan;
    delivered = f.delivered;
    events = f.events;
    ids = f.ids;
    drops = f.drops;
    overflow = f.overflow;
  }

  sync_connected-Flows :
      (clock : ℕ → Clock) (s : Store) (c : Client) (b : Option Bool) (es : List NormalizedEvent)
      (r : Runner) (now : ℤ)
      → Flows clock s c b es 0 r
      → Flows clock s c b es 0 (sync_connected print r now)
  unfolding sync_connected
  sync_connected-Flows clock s c none es r now f = record {
    store = f.store;
    client = f.client;
    result = ap (λ x. sync_connected print x now) f.result;
    flow = f.flow;
  }
  sync_connected-Flows clock s c (some x) es r now f = record {
    store = set_connected f.store x now;
    client = f.client;
    result = ap (λ x. sync_connected print x now) f.result;
    flow = set_connected-Flow clock s f.store c f.client es x now f.flow;
  }

-- A frame that decodes into `n` events counts `n` events in the telemetry store and takes `n` numbers
-- of traces. Each of the `n` events, in their order, is either queued for Home Assistant behind the
-- events that wait, as `TranslateEvent` makes it (its id, device, type, time and fields) and with the
-- number of its own trace, or counted once as a drop by both the client and the store; nothing else
-- is queued. The decoder names its device, and its clock reads a positive time.
pub handle_frame-Flows :
    {Payload : Type 0} (unmarshal : Payload → Option State) (print : Value → Text) (s : Store)
    (c : Client) (b : Option Bool) (clock : ℕ → Clock) (sync : ℤ) (device : Text) (now : ℤ)
    (p : Payload) (es : List NormalizedEvent)
    → device ≢ []
    → pos 0 <ℤ now
    → (decode unmarshal device now p).events ≡ some es
    → Flows clock s c b es 0 (
        handle_frame print
          (runner s c b)
          (some (λ q. (decode unmarshal device now q).events))
          p
          clock
          sync)
unfolding handle_frame handle_decoded
handle_frame-Flows unmarshal print s c b clock sync device now p es h t e =
    subst (λ x. Flows clock s c b es 0 (handle_decoded print (runner s c b) x clock sync)) (sym e)
      (sync_connected-Flows print clock s c b es _ sync (
        handle_events-Flows print s c b es clock 0 device h
          (decode-IsComplete unmarshal device now p es t e)))
