-- ===== src/Hass/Dispatch.antt =====
-- internal/hass/client.go: `dispatch`, the delivery of one event with its retries.
-- The environment is an argument: what the clock, the context and the HTTP client answer. HTTP, the
-- JSON encoder and `http.StatusText` are not code of the bridge. `time.Since` is the exact
-- difference of two instants.
pub mod Retries
pub mod Redaction
pub mod Settling
mod Tests
use busybar_bridge.Prelude.{
  ℕ, zero, suc, ◌+◌, ◌-◌, ◌*◌, ◌^◌, Bool, true, false, not, ◌&&◌, List, [], ◌∷◌, ◌++◌, Option, none,
  some, ltb, leb, ◌==◌, if◌then◌else◌,
}
use busybar_bridge.Prelude.Decimal.{itoa, parse_int}
use busybar_bridge.Prelude.Int.{
  ℤ, pos, negsuc, neg_ℕ, ◌+ℤ◌, ◌-ℤ◌, ltb_ℤ, leb_ℤ, eq_ℤ, wrap64, time_sub,
}
use busybar_bridge.Prelude.Result.{Result, ok, err}
use busybar_bridge.Prelude.Search.{contains, replace_all}
use busybar_bridge.Prelude.Text.{Text, codes, is_empty}
use busybar_bridge.Hass.Client.{Config, if_store}
use busybar_bridge.Hass.Event.{Event}
use busybar_bridge.Telemetry.Types.{Store, ForwardingOutcome, success, failure, zero_time}
use busybar_bridge.Telemetry.Store.{record_drop, record_forward_outcome}

-- What the environment answers in one round of the loop.
pub record Attempt : Type 0 where
  -- the clock at the check before the wait
  pub checked_at : ℤ
  -- the wait ends by `ctx.Done()`
  pub ctx_done : Bool
  -- the clock at the check after the wait
  pub woke_at : ℤ
  -- the error of `http.NewRequestWithContext`
  pub request_error : Option Text
  -- the answer of `httpClient.Do`: an error, or a status code
  pub response : Result Text ℕ
  -- `time.Since(start)` after it
  pub latency : ℤ

pub record Env : Type 0 where
  pub now : ℤ
  pub checked_at : ℤ
  -- the error of `json.Marshal`
  pub marshal_error : Option Text
  pub attempts : ℕ → Attempt
  pub status_text : ℕ → Text

-- How `dispatch` ends.
pub data Delivery : Type 0 where
  -- RecordDrop("ttl_expired")
  expired : Delivery
  -- the context was done during a wait: nothing is recorded
  cancelled : Delivery
  -- RecordForwardOutcome
  reported : ForwardingOutcome → ℤ → Option Text → Delivery

-- With the number of requests that were sent, and the waits before them.
pub record Dispatched : Type 0 where
  pub delivery : Delivery
  pub requests : ℕ
  pub waits : List ℤ

-- safeError
unfoldable pub safe_error : Option Text → Text → Option Text
safe_error none token = none
safe_error (some msg) token = some (
    if not (is_empty token) && contains token msg
    then replace_all token (codes "[REDACTED]") msg
    else msg)

-- time.Unix(s, 0), and the Unix epoch in nanoseconds from year 1
abbrev pub unix : ℤ → ℤ
unix (pos s) = pos ((s + 62_135_596_800) * 1_000_000_000)
unix (negsuc s) = pos (62_135_596_800 * 1_000_000_000) -ℤ pos ((s + 1) * 1_000_000_000)

-- The instant from which the age of the event counts.
created_at : Event → ℤ → ℤ
unfolding ◌-ℤ◌
created_at e now =
    if eq_ℤ e.created_at zero_time
    then (if ltb_ℤ (pos 0) e.timestamp then unix e.timestamp else now)
    else e.created_at

-- `RetryBackoff * time.Duration(attempt)`
backoff_of : Config → ℕ → ℤ
unfolding wrap64
backoff_of cfg attempt = elim cfg.retry_backoff [
  | pos n ↦ wrap64 (pos (n * attempt))
  | negsuc n ↦ wrap64 (neg_ℕ ((n + 1) * attempt))
]

-- time.Since(createdAt) > c.cfg.TTL
is_stale : Config → ℤ → ℤ → Bool
unfolding time_sub
is_stale cfg created now = ltb_ℤ cfg.ttl (time_sub now created)

-- What the checks and the wait before an attempt come to.
pub data Pause : Type 0 where
  halt : Delivery → List ℤ → Pause
  go : List ℤ → Pause

module _ (cfg : Config) (env : Env) (created : ℤ) where
  -- The checks before the attempt, none before the first.
  pub pause : ℕ → Pause
  unfolding backoff_of is_stale ◌-ℤ◌ time_sub wrap64
  pause zero = go []
  pause (suc k) =
      let t = env.attempts (suc k) in
      let remaining = wrap64 (cfg.ttl -ℤ time_sub t.checked_at created) in
      let backoff = backoff_of cfg (suc k) in
      let wait = if ltb_ℤ remaining backoff then remaining else backoff in
      if leb_ℤ remaining (pos 0)
      then halt expired []
      else if t.ctx_done
      then halt cancelled (wait ∷ [])
      else if is_stale cfg created t.woke_at
      then halt expired (wait ∷ [])
      else go (wait ∷ [])

-- What an attempt comes to: an end, with the number of requests sent, or another round with a new
-- last error and latency.
pub data Reply : Type 0 where
  final : ℕ → Delivery → Reply
  again : Option Text → ℤ → Reply

abbrev pub is_success : ℕ → Bool
is_success status = leb 200 status && ltb status 300

abbrev pub is_client_error : ℕ → Bool
is_client_error status = leb 400 status && ltb status 500

-- The checks before the loop: the age of the event, then its encoding.
deliver_unless : Bool → Option Text → Dispatched → Dispatched
deliver_unless true e sent = record { delivery = expired; requests = 0; waits = [] }
deliver_unless false (some e) sent = record {
  delivery = reported failure (pos 0) (some e);
  requests = 0;
  waits = [];
}
deliver_unless false none sent = sent

module _ (cfg : Config) (env : Env) where
  status_message : Text → ℕ → Text
  unfolding itoa
  status_message prefix status = prefix ++ (itoa (pos status) ++ (b' ' ∷ env.status_text status))

  -- The answer to a request.
  answer : Result Text ℕ → ℤ → Reply
  unfolding status_message safe_error
  answer (err e) latency = again (safe_error (some e) cfg.token) latency
  answer (ok status) latency =
      if is_success status
      then final 1 (reported success latency none)
      else if is_client_error status
      then final 1 (
          reported failure latency
            (safe_error (some (status_message (codes "permanent error: HTTP ") status)) cfg.token))
      else again (some (status_message (codes "transient server error: HTTP ") status)) latency

  -- One attempt; the latency before it is kept if no request can be made, which ends the loop.
  pub reply : Attempt → ℤ → Reply
  unfolding answer safe_error
  reply t latency = elim t.request_error [
    | none ↦ answer t.response t.latency
    | some e ↦
        final 0 (reported failure latency (safe_error (safe_error (some e) cfg.token) cfg.token))
  ]

  -- for attempt := 0; attempt <= cfg.MaxRetries; attempt++: the rounds left, the attempt, the last
  -- error and the last latency.
  pub attempt_loop : ℤ → ℕ → ℕ → Option Text → ℤ → Dispatched
  unfolding safe_error
  attempt_loop created zero attempt last latency = record {
    delivery = reported failure latency (safe_error last cfg.token);
    requests = 0;
    waits = [];
  }
  attempt_loop created (suc left) attempt last latency = elim (pause cfg env created attempt) [
    | halt d w ↦ record { delivery = d; requests = 0; waits = w }
    | go w ↦ elim (reply (env.attempts attempt) latency) [
      | final n d ↦ record { delivery = d; requests = n; waits = w }
      | again last' latency' ↦
          let rest = attempt_loop created left (attempt + 1) last' latency' in
          record { delivery = rest.delivery; requests = suc rest.requests; waits = w ++ rest.waits }
    ]
  ]

  -- How many rounds `attempt <= MaxRetries` allows.
  rounds : ℕ
  rounds = elim cfg.max_retries [ pos n ↦ suc n | negsuc n ↦ 0 ]

  pub deliver : Event → Dispatched
  unfolding created_at attempt_loop rounds pause reply deliver_unless is_stale
  deliver event =
      let created = created_at event env.now in
      deliver_unless (is_stale cfg created env.checked_at) env.marshal_error
        (attempt_loop created rounds 0 none (pos 0))

-- The bit pattern of an int64.
abbrev pub pattern_of : ℤ → ℕ
pattern_of (pos n) = n
pattern_of (negsuc n) = 2 ^ 64 - n - 1

-- The trace id: that of the event, or its id read as a number. A trace id is the 64-bit pattern.
pub trace_of : Event → ℕ
unfolding parse_int
trace_of e =
    if (e.trace_id == 0) && not (is_empty e.id)
    then elim (parse_int e.id) [ none ↦ e.trace_id | some n ↦ pattern_of n ]
    else e.trace_id

-- What an ending writes to the telemetry store.
settle : Option Store → ℕ → Delivery → Option Store
unfolding if_store
settle store id expired = if_store record_drop store
settle store id cancelled = store
settle store id (reported outcome latency e) =
    if_store (λ s. record_forward_outcome s id outcome latency e) store

pub dispatch : Config → Env → Option Store → Event → Option Store
unfolding deliver trace_of settle
dispatch cfg env store event = settle store (trace_of event) (deliver cfg env event).delivery
