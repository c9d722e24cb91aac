-- ===== src/Telemetry/Store/Log.antt =====
-- The ring of traces against the log of all traces: the ring is the end of the log.
use mathlib.Core.Path.{subst}
use busybar_bridge.Prelude.{
  ℕ, ◌+◌, ◌-◌, ◌^◌, ◌≤◌, ◌<◌, ◌≡◌, refl, List, [], ◌∷◌, ◌++◌, Option, arith, length, inc64,
  length-append, map, some, none, if◌then◌else◌, ◌==◌,
}
use busybar_bridge.Prelude.Int.{ℤ, pos, quot}
use busybar_bridge.Prelude.Text.{Text}
use busybar_bridge.Telemetry.Types.{ForwardingOutcome, pending, EventTrace, Store}
use busybar_bridge.Telemetry.Store.{
  new_store, new_trace, update_first, set_outcome, record_forward_outcome,
}
use busybar_bridge.Telemetry.Store.Calls.{
  Call, connected, event, outcome, push_result, calendar_poll, step, run,
}
use busybar_bridge.Telemetry.Store.Ring.{
  last_n, Numbered, push_trace-last_n, length-update_first, update_first-drop,
  Numbered-update_first, Numbered-append,
}

-- What a reported outcome makes of the trace it is for: the outcome, the latency in whole
-- milliseconds and the message of the error, if there is one; the rest stays.
pub reported : ForwardingOutcome → ℤ → Option Text → EventTrace → EventTrace
reported o latency err t = record {
  id = t.id;
  timestamp = t.timestamp;
  event_type = t.event_type;
  summary = t.summary;
  outcome = o;
  error = elim err [ none ↦ t.error | some e ↦ e ];
  latency_ms = quot latency 1_000_000;
}

-- An outcome reaches every trace with its id, and no other.
report_to : ℕ → ForwardingOutcome → ℤ → Option Text → EventTrace → EventTrace
unfolding reported
report_to id o latency err t = if t.id == id then reported o latency err t else t

-- The specification: a log that forgets nothing, whose traces are numbered from 1.
pub log_step : List EventTrace → Call → List EventTrace
unfolding report_to
log_step log (event event_type summary now) =
    log
    ++ (record {
      id = length log + 1;
      timestamp = now;
      event_type = event_type;
      summary = summary;
      outcome = pending;
      error = [];
      latency_ms = pos 0;
    })
      ∷ []
log_step log (outcome id o latency err) = map (report_to id o latency err) log
log_step log _ = log

pub log_run : List EventTrace → List Call → List EventTrace
log_run log [] = log
log_run log (c ∷ cs) = log_run (log_step log c) cs

-- How the store stands for a log.
pub record Refines (s : Store) (log : List EventTrace) : Type 0 where
  pub capacity : s.max_ring_capacity ≡ 10
  pub ring : s.ring_buffer ≡ last_n 10 log
  pub last_id : s.next_id ≡ length log
  pub total : s.total_events ≡ length log
  pub numbered : Numbered 0 log

new_store-Refines : (now : ℤ) → Refines (new_store now) []
unfolding new_store
new_store-Refines now = ground arith

set_outcome-reported :
    (o : ForwardingOutcome) (latency : ℤ) (err : Option Text) (t : EventTrace)
    → set_outcome o latency err t ≡ reported o latency err t
unfolding set_outcome reported
set_outcome-reported o latency none t = refl
set_outcome-reported o latency (some e) t = refl

-- Below the numbers of the list no trace gets the outcome.
map_absent :
    (id : ℕ) (o : ForwardingOutcome) (latency : ℤ) (err : Option Text) (n : ℕ)
    (ts : List EventTrace)
    → Numbered n ts
    → id ≤ n
    → map (report_to id o latency err) ts ≡ ts
unfolding report_to
map_absent id o latency err n [] h k = refl
map_absent id o latency err n (t ∷ ts) h k =
    ground (arith, map_absent id o latency err (n + 1) ts h.1)

-- In a numbered list the first trace with an id is the only one.
update_first-report :
    (id : ℕ) (o : ForwardingOutcome) (latency : ℤ) (err : Option Text) (n : ℕ)
    (ts : List EventTrace)
    → Numbered n ts
    → update_first id (set_outcome o latency err) ts ≡ map (report_to id o latency err) ts
unfolding update_first report_to
update_first-report id o latency err n [] h = refl
update_first-report id o latency err n (t ∷ ts) h = ground (
  arith,
  set_outcome-reported o latency err t,
  update_first-report id o latency err (n + 1) ts h.1,
  map_absent id o latency err (n + 1) ts h.1,
)

id-set_outcome :
    (o : ForwardingOutcome) (latency : ℤ) (err : Option Text) (t : EventTrace)
    → (set_outcome o latency err t).id ≡ t.id
unfolding set_outcome
id-set_outcome o latency err t = ground arith

outcome-Refines :
    (id : ℕ) (o : ForwardingOutcome) (latency : ℤ) (err : Option Text) (s : Store)
    (log : List EventTrace)
    → Refines s log
    → Refines
        (record_forward_outcome s id o latency err)
        (update_first id (set_outcome o latency err) log)
unfolding record_forward_outcome
outcome-Refines id o latency err s log r =
    let f = set_outcome o latency err in
    let same = length-update_first id f log in
    record {
      capacity = r.capacity;
      ring = rw (same, r.ring) (update_first-drop id f (length log - 10) 0 log r.numbered);
      last_id = omega (arith, r.last_id, same);
      total = omega (arith, r.total, same);
      numbered = Numbered-update_first id f 0 log (id-set_outcome o latency err) r.numbered;
    }

step-Refines :
    (c : Call) (s : Store) (log : List EventTrace)
    → length log + 1 < 2 ^ 64
    → Refines s log
    → Refines (step s c) (log_step log c)
unfolding step log_step
step-Refines (event event_type summary now) s log h r =
    let next : inc64 s.next_id ≡ length log + 1 = omega (arith, r.last_id) in
    let t = new_trace (length log + 1) now event_type summary in
    record {
      capacity = r.capacity;
      ring = rw (next, r.capacity, r.ring) (push_trace-last_n 10 log t (omega arith));
      last_id = omega (arith, next, length-append log (t ∷ []));
      total = omega (arith, r.total, length-append log (t ∷ []));
      numbered = Numbered-append 0 log t r.numbered (unfold new_trace in omega arith);
    }
step-Refines (outcome id o latency err) s log h r =
    subst (Refines (record_forward_outcome s id o latency err))
      (update_first-report id o latency err 0 log r.numbered)
      (outcome-Refines id o latency err s log r)
step-Refines (connected b now) s log h r = ground arith
step-Refines (push_result b latency err now) s log h r = ground arith
step-Refines (calendar_poll b summary err now) s log h r = ground arith
step-Refines _ s log h r = record {
  capacity = r.capacity;
  ring = r.ring;
  last_id = r.last_id;
  total = r.total;
  numbered = r.numbered;
}

length-map : (f : EventTrace → EventTrace) (ts : List EventTrace) → length (map f ts) ≡ length ts
length-map f [] = refl
length-map f (t ∷ ts) = omega (arith, length-map f ts)

length-log_step : (log : List EventTrace) (c : Call) → length (log_step log c) ≤ length log + 1
unfolding log_step
length-log_step log (event event_type summary now) = omega (arith, length-append log (_ ∷ []))
length-log_step log (outcome id o latency err) =
    omega (arith, length-map (report_to id o latency err) log)
length-log_step log _ = omega arith

run-Refines :
    (cs : List Call) (s : Store) (log : List EventTrace)
    → length log + length cs < 2 ^ 64
    → Refines s log
    → Refines (run s cs) (log_run log cs)
unfolding run log_run
run-Refines [] s log h r = r
run-Refines (c ∷ cs) s log h r =
    run-Refines cs (step s c) (log_step log c) (omega (arith, length-log_step log c))
      (step-Refines c s log (omega arith) r)

-- After any sequence of fewer than 2^64 calls of the methods that change a store, on a new store, the
-- ring holds the last ten traces, in order, of the log that keeps every trace. In that log each
-- recorded event is one trace, pending at first, with the event's time, type and summary; the traces
-- are numbered from 1 without a gap; and each outcome that is reported for an id is written, with its
-- latency in milliseconds and its error, to the trace with that id and to no other. The last id
-- given out and the number of events are the length of the log.
pub run-new_store-Refines :
    (now : ℤ) (cs : List Call)
    → length cs < 2 ^ 64
    → Refines (run (new_store now) cs) (log_run [] cs)
run-new_store-Refines now cs h =
    run-Refines cs (new_store now) [] (omega arith) (new_store-Refines now)
