-- ===== src/Busybar/Client.antt =====
-- internal/busybar/client.go: the connection to the Busy Bar, its frames and its reconnection.
-- The websocket is a library: what a connection comes to is an argument, and so are the random
-- factor of the jitter (`jitter d` is at most d) and the float64 product of the backoff (`scale`).
-- The keepalive pings are in Busybar/Connection, `Start` and `Close` in Busybar/Lifetime.
pub mod Backoff
pub mod Frames
mod Tests
use busybar_bridge.Prelude.{
  ℕ, ◌+◌, Bool, true, false, not, ◌&&◌, List, [], ◌∷◌, ◌++◌, Option, none, some, inc64, length, ltb,
  if◌then◌else◌,
}
use busybar_bridge.Prelude.Int.{ℤ, pos, pos_part, ltb_ℤ, leb_ℤ, eq_ℤ, time_sub}
use busybar_bridge.Prelude.Text.{Text, codes, is_empty}
use busybar_bridge.Telemetry.Types.{zero_time}

-- The multiplier of the backoff is in `scale`.
pub record Config : Type 0 where
  pub host : Text
  pub port : ℤ
  pub ping_interval : ℤ
  pub read_timeout : ℤ
  pub initial_backoff : ℤ
  pub max_backoff : ℤ
  pub buffer_size : ℤ

unfoldable pub default_config : Config
default_config = record {
  host = codes "192.168.68.196";
  port = pos 80;
  ping_interval = pos 10_000_000_000;
  read_timeout = pos 30_000_000_000;
  initial_backoff = pos 1_000_000_000;
  max_backoff = pos 60_000_000_000;
  buffer_size = pos 100;
}

pub record ConnectionStatus : Type 0 where
  pub connected : Bool
  pub reconnect_count : ℕ
  pub last_connected_at : ℤ
  pub last_disconnected_at : ℤ

-- `current_backoff` is the variable of `run`'s loop.
pub record Client : Type 0 where
  pub cfg : Config
  pub status : ConnectionStatus
  pub frames_chan : List (List ℕ)
  pub overflow_count : ℕ
  pub stable_threshold : ℤ
  pub backoff_delay : ℤ
  pub current_backoff : ℤ

-- `if x <= 0 { x = default }`
or_default : ℤ → ℤ → ℤ
or_default x d = if leb_ℤ x (pos 0) then d else x

pub fill_config : Config → Config
unfolding or_default default_config
fill_config cfg = record {
  host = if is_empty cfg.host then default_config.host else cfg.host;
  port = or_default cfg.port default_config.port;
  ping_interval = or_default cfg.ping_interval default_config.ping_interval;
  read_timeout = or_default cfg.read_timeout default_config.read_timeout;
  initial_backoff = or_default cfg.initial_backoff default_config.initial_backoff;
  max_backoff = or_default cfg.max_backoff default_config.max_backoff;
  buffer_size = or_default cfg.buffer_size default_config.buffer_size;
}

-- NewClient, at the start of `run`
unfoldable pub new_client : Config → Client
unfolding fill_config
new_client config =
    let cfg = fill_config config in
    record {
      cfg = cfg;
      status = record {
        connected = false;
        reconnect_count = 0;
        last_connected_at = zero_time;
        last_disconnected_at = zero_time;
      };
      frames_chan = [];
      overflow_count = 0;
      stable_threshold = pos 30_000_000_000;
      backoff_delay = cfg.initial_backoff;
      current_backoff = cfg.initial_backoff;
    }

-- A message as `conn.Read` returns it.
pub data Message : Type 0 where
  binary : List ℕ → Message
  text other : Message

-- The body of `readLoop` for one message.
unfoldable pub read_message : Client → Message → Client
read_message c text = c
read_message c other = c
read_message c (binary payload) =
    if ltb (length c.frames_chan) (pos_part c.cfg.buffer_size)
    then record c { frames_chan = c.frames_chan ++ payload ∷ [] }
    else record c { overflow_count = inc64 c.overflow_count }

-- The consumer takes the oldest frame.
unfoldable pub take_frame : Client → Option (List ℕ) × Client
take_frame c = elim c.frames_chan [
  | [] ↦ (none, c)
  | f ∷ fs ↦ (some f, record c { frames_chan = fs })
]

calculate_backoff : (ℤ → ℤ) → ℤ → ℤ → ℤ
calculate_backoff jitter current max_backoff =
    let effective =
      if ltb_ℤ (pos 0) max_backoff && ltb_ℤ max_backoff current then max_backoff else current in
    if leb_ℤ effective (pos 0) then pos 0 else jitter effective

next_backoff : (ℤ → ℤ) → ℤ → ℤ → ℤ
next_backoff scale current max_backoff =
    let next = scale current in if ltb_ℤ max_backoff next then max_backoff else next

-- One call of `connectFn`: when it began and ended, when the activation was written, if it was, and
-- whether it returned an error; then whether the context is done, after it and during the sleep.
pub record Session : Type 0 where
  pub began_at : ℤ
  pub connected_at : Option ℤ
  pub ended_at : ℤ
  pub failed : Bool
  pub done_after : Bool
  pub done_in_sleep : Bool

-- `Connected` and `LastConnectedAt` as the connection leaves them.
unfoldable pub after_connect : ConnectionStatus → Option ℤ → ConnectionStatus
after_connect s none = s
after_connect s (some t) = record s { connected = true; last_connected_at = t }

uptime_of : ConnectionStatus → Session → ℤ
unfolding time_sub
uptime_of s session =
    if s.connected && not (eq_ℤ s.last_connected_at zero_time)
    then time_sub session.ended_at s.last_connected_at
    else if not session.failed
    then time_sub session.ended_at session.began_at
    else pos 0

threshold_of : Client → ℤ
threshold_of c = if leb_ℤ c.stable_threshold (pos 0) then pos 30_000_000_000 else c.stable_threshold

-- What a round comes to: the client, the sleeps, one or none, and whether the loop goes on.
pub record Round : Type 0 where
  pub client : Client
  pub slept : List ℤ
  pub goes_on : Bool

module _ (jitter scale : ℤ → ℤ) where
  -- The part of the loop after the status update, with the backoff of this round.
  back_off : Client → ℤ → Bool → Round
  unfolding calculate_backoff next_backoff
  back_off c current done_in_sleep = record {
    client = record c {
      backoff_delay = current;
      current_backoff = next_backoff scale current c.cfg.max_backoff;
    };
    slept = calculate_backoff jitter current c.cfg.max_backoff ∷ [];
    goes_on = not done_in_sleep;
  }

  -- One round of `run`, from the connection on.
  round : Client → Session → Round
  unfolding after_connect uptime_of threshold_of back_off
  round c session =
      let s = after_connect c.status session.connected_at in
      let c' = record c {
        status = record s {
          connected = false;
          last_disconnected_at = session.ended_at;
          reconnect_count = inc64 s.reconnect_count;
        };
      } in
      let current =
        if leb_ℤ (threshold_of c) (uptime_of s session)
        then c.cfg.initial_backoff
        else c.current_backoff in
      if session.done_after
      then record { client = c'; slept = []; goes_on = false }
      else back_off c' current session.done_in_sleep

  -- The loop, until the context is done: the client that is left, the sleeps, and how many rounds it
  -- took.
  pub run : Client → List Session → Client × List ℤ × ℕ
  unfolding round
  run c [] = (c, [], 0)
  run c (session ∷ rest) =
      let r = round c session in
      let more = run r.client rest in
      if r.goes_on then (more.0, r.slept ++ more.1, more.2 + 1) else (r.client, r.slept, 1)
