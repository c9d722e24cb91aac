-- ===== src/Hass/Client.antt =====
-- internal/hass/client.go: the bounded queue of the dispatcher, and its life cycle.
-- A method that locks the mutex is one atomic step. The channel is the list of the events in it,
-- oldest first. The telemetry store is optional, as the pointer is.
pub mod Queue
mod Tests
use busybar_bridge.Prelude.{
  ℕ, ◌+◌, Bool, true, false, ◌||◌, List, [], ◌∷◌, ◌++◌, Option, none, some, inc64, length, ltb,
  if◌then◌else◌,
}
use busybar_bridge.Prelude.Int.{ℤ, pos, eq_ℤ, pos_part}
use busybar_bridge.Prelude.Result.{Result, ok, err}
use busybar_bridge.Prelude.Text.{Text, codes}
use busybar_bridge.Hass.Event.{Event}
use busybar_bridge.Telemetry.Types.{Store, zero_time}
use busybar_bridge.Telemetry.Store.{record_drop}

-- Durations are in nanoseconds.
pub record Config : Type 0 where
  pub base_url : Text
  pub token : Text
  pub event_type : Text
  pub request_timeout : ℤ
  pub ttl : ℤ
  pub max_retries : ℤ
  pub buffer_size : ℤ
  pub retry_backoff : ℤ

unfoldable pub default_config : Config
default_config = record {
  base_url = codes "http://homeassistant.local:8123";
  token = [];
  event_type = codes "busybar_event";
  request_timeout = pos 2_000_000_000;
  ttl = pos 2_500_000_000;
  max_retries = pos 2;
  buffer_size = pos 100;
  retry_backoff = pos 100_000_000;
}

-- `working` says whether the worker's loop runs: from `Start` until it sees its context done or the
-- channel closed and empty.
pub record Client : Type 0 where
  pub cfg : Config
  pub events_chan : List Event
  pub store : Option Store
  pub started : Bool
  pub closed : Bool
  pub cancelled : Bool
  pub working : Bool
  pub overflow_drops : ℕ

pub data ClientError : Type 0 where
  already_started already_closed : ClientError

-- The client that `NewClient` makes of a valid configuration.
pub new_client : Config → Option Store → Client
new_client cfg store = record {
  cfg = cfg;
  events_chan = [];
  store = store;
  started = false;
  closed = false;
  cancelled = false;
  working = false;
  overflow_drops = 0;
}

unfoldable pub start : Client → Result ClientError Client
start c =
    if c.started
    then err already_started
    else if c.closed
    then err already_closed
    else ok (record c { started = true; working = true })

-- `if c.store != nil { … }`
unfoldable pub if_store : (Store → Store) → Option Store → Option Store
if_store f none = none
if_store f (some s) = some (f s)

drop_event : Client → Client × Bool
unfolding if_store
drop_event c = (
  record c { overflow_drops = inc64 c.overflow_drops; store = if_store record_drop c.store },
  false,
)

-- The event as it is queued.
unfoldable pub stamp : Event → ℤ → Event
stamp e now = if eq_ℤ e.created_at zero_time then record e { created_at = now } else e

unfoldable pub enqueue : Client → Event → ℤ → Client × Bool
unfolding drop_event stamp
enqueue c event now =
    if c.closed
    then drop_event c
    else if ltb (length c.events_chan) (pos_part c.cfg.buffer_size)
    then (record c { events_chan = c.events_chan ++ stamp event now ∷ [] }, true)
    else drop_event c

-- The receive case of the worker's `select`: the oldest event, or the end of a closed channel.
unfoldable pub receive : Client → Option Event × Client
receive c = elim c.events_chan [
  | [] ↦ (none, if c.closed then record c { working = false } else c)
  | e ∷ es ↦ if c.working then (some e, record c { events_chan = es }) else (none, c)
]

-- The other case, `ctx.Done()`; with both ready `select` takes either.
unfoldable pub leave : Client → Client
leave c = record c { working = false }

-- Up to `wg.Wait()`; a second call changes nothing.
unfoldable pub close : Client → Client
close c = if c.closed then c else record c { closed = true; cancelled = c.started || c.cancelled }
