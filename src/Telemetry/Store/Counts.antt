-- ===== src/Telemetry/Store/Counts.antt =====
-- The counters of the store, under every method that changes it.
use busybar_bridge.Prelude.{ℕ, ◌+◌, ◌%◌, ◌^◌, ◌≡◌, ◌≢◌, List, [], ◌∷◌, Option, arith}
use busybar_bridge.Prelude.Int.{ℤ}
use busybar_bridge.Prelude.Text.{Text}
use busybar_bridge.Telemetry.Types.{ForwardingOutcome, pending, EventCounters, Store}
use busybar_bridge.Telemetry.Store.{new_store, count_event, count_outcome, record_forward_outcome}
use busybar_bridge.Telemetry.Store.Calls.{
  Call, connected, event, push_result, calendar_poll, step, run,
}

abbrev pub sum_counters : EventCounters → ℕ
sum_counters c = c.buttons + c.switches + c.encoders + c.other

-- Every event is in one category, and every poll succeeded or failed.
pub record IsConsistent (s : Store) : Type 0 where
  pub events : sum_counters s.counters % 2 ^ 64 ≡ s.total_events
  pub ids : s.next_id ≡ s.total_events
  pub polls :
      (s.calendar_sync.success_polls + s.calendar_sync.failed_polls) % 2 ^ 64
      ≡ s.calendar_sync.total_polls

sum_counters-count_event :
    (c : EventCounters) (t : Text)
    → sum_counters (count_event c t) % 2 ^ 64 ≡ (sum_counters c + 1) % 2 ^ 64
unfolding count_event
sum_counters-count_event c t = ground arith

step-IsConsistent : (s : Store) (c : Call) → IsConsistent s → IsConsistent (step s c)
unfolding step
step-IsConsistent s (connected b now) v = ground arith
step-IsConsistent s (event t summary now) v =
    let n = sum_counters-count_event s.counters t in
    record { events = omega (arith, n, v.events); ids = omega (arith, v.ids); polls = v.polls }
step-IsConsistent s (calendar_poll b summary err now) v = ground arith
step-IsConsistent s (push_result b latency err now) v = ground arith
step-IsConsistent s _ v = record { events = v.events; ids = v.ids; polls = v.polls }

-- Whatever methods are called on a consistent store, as a new one is, in any order: the four event
-- counters add up to the total of events and the successful and failed polls to the total of polls
-- (both modulo 2^64, where an int64 counter wraps), and the last trace id is the number of events.
pub run-IsConsistent : (s : Store) (cs : List Call) → IsConsistent s → IsConsistent (run s cs)
unfolding run
run-IsConsistent s [] v = v
run-IsConsistent s (c ∷ cs) v = run-IsConsistent (step s c) cs (step-IsConsistent s c v)

pub new_store-IsConsistent : (now : ℤ) → IsConsistent (new_store now)
unfolding new_store
new_store-IsConsistent now = ground arith

-- If the acked and failed events add up to the dispatched ones (modulo 2^64), they still do after an
-- outcome other than `pending` is reported.
pub dispatched-record_forward_outcome :
    (s : Store) (id : ℕ) (o : ForwardingOutcome) (latency : ℤ) (err : Option Text)
    → o ≢ pending
    → (s.forwarding.total_acked + s.forwarding.total_failed) % 2 ^ 64
      ≡ s.forwarding.total_dispatched
    → let f = (record_forward_outcome s id o latency err).forwarding in
      (f.total_acked + f.total_failed) % 2 ^ 64 ≡ f.total_dispatched
unfolding record_forward_outcome count_outcome
dispatched-record_forward_outcome s id o latency err h e = ground arith
