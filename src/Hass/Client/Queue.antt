-- ===== src/Hass/Client/Queue.antt =====
-- The queue is a bounded FIFO, and every event that it refuses is counted.
use busybar_bridge.Prelude.{
  ℕ, ◌+◌, ◌%◌, ◌^◌, ◌≤◌, ◌≡◌, Bool, true, false, List, [], ◌∷◌, ◌++◌, Option, none, some, arith,
  length, length-append, List-cases, inl, inr,
}
use busybar_bridge.Prelude.Int.{ℤ, pos_part}
use busybar_bridge.Hass.Event.{Event}
use busybar_bridge.Telemetry.Types.{Store}
use busybar_bridge.Hass.Client.{
  Config, Client, new_client, stamp, ClientError, enqueue, receive, leave, close, start,
}
use busybar_bridge.Prelude.Result.{Result, ok, err}
use mathlib.Core.List.{append_assoc}

-- A step of the client as the runner and the worker drive it.
pub data Call : Type 0 where
  enqueues : Event → ℤ → Call
  starts receives leaves closes : Call

-- The client with all that was accepted and all that was handed to the worker, oldest first, and
-- the number of events that were refused.
pub record Run : Type 0 where
  pub client : Client
  pub accepted : List Event
  pub delivered : List Event
  pub refused : ℕ

abbrev pub fresh : Config → Option Store → Run
fresh cfg store = record {
  client = new_client cfg store;
  accepted = [];
  delivered = [];
  refused = 0;
}

took : Run → Option Event × Client → Run
took r (none, c) = record r { client = c }
took r (some e, c) = record r { client = c; delivered = r.delivered ++ e ∷ [] }

started : Run → Result ClientError Client → Run
started r (ok c) = record r { client = c }
started r (err e) = r

offered : Run → Event → Client × Bool → Run
offered r e (c, true) = record r { client = c; accepted = r.accepted ++ e ∷ [] }
offered r e (c, false) = record r { client = c; refused = r.refused + 1 }

pub step : Run → Call → Run
unfolding offered took started enqueue receive close start leave
step r (enqueues e now) = offered r (stamp e now) (enqueue r.client e now)
step r starts = started r (start r.client)
step r receives = took r (receive r.client)
step r leaves = record r { client = leave r.client }
step r closes = record r { client = close r.client }

pub run : Run → List Call → Run
run r [] = r
run r (c ∷ cs) = run (step r c) cs

abbrev pub drop_count : Option Store → ℕ
drop_count none = 0
drop_count (some s) = s.drop_count

pub record IsFifo (cfg : Config) (r : Run) : Type 0 where
  pub config : r.client.cfg ≡ cfg
  pub bounded : length r.client.events_chan ≤ pos_part cfg.buffer_size
  pub ordered : r.accepted ≡ r.delivered ++ r.client.events_chan
  pub counted : r.client.overflow_drops ≡ r.refused % 2 ^ 64

step-IsFifo : (cfg : Config) (r : Run) (c : Call) → IsFifo cfg r → IsFifo cfg (step r c)
unfolding step
step-IsFifo cfg r (enqueues e now) v = ground (
  arith,
  length-append r.client.events_chan (stamp e now ∷ []),
  append_assoc r.delivered r.client.events_chan (stamp e now ∷ []),
)
step-IsFifo cfg r receives v = elim (List-cases r.client.events_chan) [
  | inl e ↦ ground arith
  | inr (x, xs, e) ↦ ground (arith, e, append_assoc r.delivered (x ∷ []) xs)
]
step-IsFifo cfg r starts v = ground arith
step-IsFifo cfg r leaves v = ground arith
step-IsFifo cfg r closes v = ground arith

run-IsFifo : (cfg : Config) (cs : List Call) (r : Run) → IsFifo cfg r → IsFifo cfg (run r cs)
unfolding run
run-IsFifo cfg [] r v = v
run-IsFifo cfg (c ∷ cs) r v = run-IsFifo cfg cs (step r c) (step-IsFifo cfg r c v)

fresh-IsFifo : (cfg : Config) (store : Option Store) → IsFifo cfg (fresh cfg store)
unfolding new_client
fresh-IsFifo cfg store = ground arith

-- However `Start`, `Enqueue`, the worker's receives and its exit, and `Close` interleave on a new
-- client: the events that `Enqueue` accepted are, in order, those that the worker has received
-- followed by those still queued, the queue is never longer than the configured buffer, and the
-- overflow counter is the number of refused events (modulo 2^64).
pub run-fresh-IsFifo :
    (cfg : Config) (store : Option Store) (cs : List Call) → IsFifo cfg (run (fresh cfg store) cs)
run-fresh-IsFifo cfg store cs = run-IsFifo cfg cs (fresh cfg store) (fresh-IsFifo cfg store)
