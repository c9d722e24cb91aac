-- ===== src/Busybar/Push.antt =====
-- internal/busybar/push.go: the push client with its mailbox of one frame.
-- `PushFrame` holds `mailboxMu`, so pushes are atomic to each other; the worker takes frames without
-- it, and may do so while a push finds the mailbox full. The recorder is the list of the calls to it.
pub mod Mailbox
pub mod Transmit
mod Tests
use busybar_bridge.Prelude.{
  ℕ, zero, suc, ◌+◌, Bool, true, false, not, ◌&&◌, ◌||◌, ◌==◌, List, [], ◌∷◌, ◌++◌, Option, none,
  some, if◌then◌else◌,
}
use busybar_bridge.Prelude.Decimal.{itoa}
use busybar_bridge.Prelude.Int.{ℤ, pos, leb_ℤ}
use busybar_bridge.Prelude.Result.{Result, ok, err}
use busybar_bridge.Prelude.Net.{join_host_port}
use busybar_bridge.Prelude.Search.{starts_with, has_rune}
use busybar_bridge.Prelude.Text.{Text, codes, is_empty}

-- The fields of the upstream frame that the client reads; `screen` is the enum's number, 0 for the
-- front.
pub record Frame : Type 0 where
  pub screen : ℤ
  pub bytes : List ℕ

pub record PushConfig : Type 0 where
  pub enabled : Bool
  pub host : Text
  pub port : ℤ
  pub api_key : Text
  pub timeout : ℤ
  pub default_screen : ℤ

unfoldable pub default_push_config : PushConfig
default_push_config = record {
  enabled = false;
  host = codes "192.168.68.196";
  port = pos 80;
  api_key = [];
  timeout = pos 3_000_000_000;
  default_screen = pos 0;
}

pub data RecorderCall : Type 0 where
  push_attempt push_drop : RecorderCall
  -- success, latency, error
  push_result : Bool → ℤ → Option Text → RecorderCall

pub data PushError : Type 0 where
  nil_frame empty_data client_closed already_started : PushError

pub record PushClient : Type 0 where
  pub cfg : PushConfig
  pub mailbox : Option Frame
  pub started : Bool
  pub closed : Bool
  -- whether the worker's loop runs
  pub working : Bool
  pub recorded : List RecorderCall

pub new_push_client : PushConfig → PushClient
new_push_client cfg = record {
  cfg = cfg;
  mailbox = none;
  started = false;
  closed = false;
  working = false;
  recorded = [];
}

unfoldable pub start : PushClient → Result PushError PushClient
start c =
    if c.started then err already_started else ok (record c { started = true; working = true })

-- What a push did: the client, the frame that the worker took while the push held the mutex, whether
-- the frame was put into the mailbox, and the error.
pub record Pushed : Type 0 where
  pub client : PushClient
  pub taken : Option Frame
  pub stored : Bool
  pub error : Option PushError

-- The two `select` statements; `race` says whether the worker empties the full mailbox before the
-- second.
put : PushClient → Frame → Bool → Option Frame → Pushed
put c frame race none = record {
  client = record c { mailbox = some frame };
  taken = none;
  stored = true;
  error = none;
}
put c frame race (some old) =
    if race && c.working
    then record {
      client = record c { mailbox = some frame };
      taken = some old;
      stored = true;
      error = none;
    }
    else record {
      client = record c { mailbox = some frame; recorded = c.recorded ++ push_drop ∷ [] };
      taken = none;
      stored = true;
      error = none;
    }

refuse : PushClient → Option PushError → Pushed
refuse c e = record { client = c; taken = none; stored = false; error = e }

is_nil : List ℕ → Bool
is_nil [] = true
is_nil (_ ∷ _) = false

push_some : PushClient → Frame → Bool → Pushed
unfolding put refuse is_nil
push_some c frame race =
    if is_nil frame.bytes
    then refuse c (some empty_data)
    else if c.closed
    then refuse c (some client_closed)
    else put c frame race c.mailbox

unfoldable pub push_frame : PushClient → Option Frame → Bool → Pushed
unfolding push_some refuse
push_frame c none race = if not c.cfg.enabled then refuse c none else refuse c (some nil_frame)
push_frame c (some frame) race = if not c.cfg.enabled then refuse c none else push_some c frame race

-- The worker's `select`: it takes the frame of the mailbox, or leaves when its context is done.
unfoldable pub receive : PushClient → Option Frame × PushClient
receive c = if c.working then (c.mailbox, record c { mailbox = none }) else (none, c)

unfoldable pub leave : PushClient → PushClient
leave c = record c { working = false }

-- `Close` marks the client and cancels the worker's context; the worker then leaves.
unfoldable pub close : PushClient → PushClient
close c = record c { closed = true }

-- The screen of the frame that is sent.
screen_of : PushConfig → Frame → ℤ
screen_of cfg frame = elim frame.screen [ pos zero ↦ cfg.default_screen | s ↦ s ]

-- strings.TrimPrefix
trim_prefix : Text → Text → Text
unfolding starts_with
trim_prefix [] s = s
trim_prefix (x ∷ p) [] = []
trim_prefix (x ∷ p) (c ∷ s) =
    let rest = trim_prefix p s in if starts_with (x ∷ p) (c ∷ s) then rest else c ∷ s

target_url : PushConfig → Text
unfolding trim_prefix join_host_port itoa
target_url cfg =
    let port = if leb_ℤ cfg.port (pos 0) then pos 80 else cfg.port in
    let host = trim_prefix (codes "https://") (trim_prefix (codes "http://") cfg.host) in
    codes "http://" ++ (join_host_port host (itoa port) ++ codes "/api/display/frame")

-- What the libraries answer to one transmission.
pub record Answers : Type 0 where
  pub marshal_error : Option Text
  pub request_error : Option Text
  -- the error of `httpClient.Do`, or the status
  pub response : Result Text ℕ
  pub latency : ℤ

-- A request as it is sent: the URL, the `Authorization` header if there is one, and the frame.
pub record Request : Type 0 where
  pub url : Text
  pub authorization : Option Text
  pub frame : Frame

pub record Transmission : Type 0 where
  pub sent : Option Request
  pub calls : List RecorderCall

abbrev pub is_accepted : ℕ → Bool
is_accepted status = (status == 200) || (status == 204)

result_of : Result Text ℕ → ℤ → RecorderCall
unfolding itoa
result_of (err e) latency = push_result false latency (some e)
result_of (ok status) latency =
    if is_accepted status
    then push_result true latency none
    else push_result false latency
        (some (codes "HTTP push failed with status " ++ itoa (pos status)))

request_of : PushConfig → Frame → Request
unfolding target_url screen_of
request_of cfg frame = record {
  url = target_url cfg;
  authorization = if is_empty cfg.api_key then none else some (codes "Bearer " ++ cfg.api_key);
  frame = record frame { screen = screen_of cfg frame };
}

transmit_marshalled : PushConfig → Frame → Answers → Option Text → Option Text → Transmission
unfolding result_of request_of
transmit_marshalled cfg frame a (some e) request = record {
  sent = none;
  calls =
      push_attempt
      ∷ push_result false a.latency (some (codes "failed to marshal frame: " ++ e))
      ∷ [];
}
transmit_marshalled cfg frame a none (some e) = record {
  sent = none;
  calls = push_attempt ∷ push_result false a.latency (some e) ∷ [];
}
transmit_marshalled cfg frame a none none = record {
  sent = some (request_of cfg frame);
  calls = push_attempt ∷ result_of a.response a.latency ∷ [];
}

unfoldable pub transmit : PushConfig → Frame → Answers → Transmission
unfolding transmit_marshalled
transmit cfg frame a =
    if not cfg.enabled
    then record { sent = none; calls = [] }
    else transmit_marshalled cfg frame a a.marshal_error a.request_error
