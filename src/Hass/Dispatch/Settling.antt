-- ===== src/Hass/Dispatch/Settling.antt =====
-- What a delivery writes to the telemetry store.
use busybar_bridge.Prelude.{
  ℕ, zero, suc, ◌+◌, ◌≡◌, ◌≢◌, Bool, true, false, List, Option, none, some, arith,
}
use busybar_bridge.Prelude.Int.{ℤ, pos}
use busybar_bridge.Prelude.Text.{Text}
use busybar_bridge.Hass.Client.{Config, if_store}
use busybar_bridge.Hass.Event.{Event}
use busybar_bridge.Telemetry.Types.{ForwardingOutcome, pending, success, failure, Store}
use busybar_bridge.Telemetry.Store.{record_drop, record_forward_outcome}
use busybar_bridge.Hass.Dispatch.{
  Attempt, Env, Delivery, expired, cancelled, reported, Dispatched, halt, pause, final, answer,
  reply, attempt_loop, rounds, deliver, created_at, deliver_unless, is_stale, settle, trace_of,
  dispatch,
}
use busybar_bridge.Hass.Dispatch.Retries.{attempt_loop_cases}

-- A cancelled delivery saw its context done; an outcome is a success or a failure.
abbrev pub IsEnding : Env → Delivery → Type 0
IsEnding env expired = Unit {0}
IsEnding env cancelled = (k : ℕ) × ((env.attempts k).ctx_done ≡ true)
IsEnding env (reported o l e) = o ≢ pending

-- How the store after `dispatch` comes from the one before.
pub data Settled (env : Env) (s : Store) (id : ℕ) : Option Store → Type 0 where
  kept : (k : ℕ) → (env.attempts k).ctx_done ≡ true → Settled env s id (some s)
  dropped : Settled env s id (some (record_drop s))
  recorded :
      (o : ForwardingOutcome) (latency : ℤ) (e : Option Text)
      → o ≢ pending
      → Settled env s id (some (record_forward_outcome s id o latency e))

module _ (cfg : Config) (env : Env) where
  pause-IsEnding :
      (created : ℤ) (a : ℕ) (d : Delivery) (w : List ℤ)
      → pause cfg env created a ≡ halt d w
      → IsEnding env d
  unfolding pause
  pause-IsEnding created zero d w e = ground arith
  pause-IsEnding created (suc k) expired w e = tt
  pause-IsEnding created (suc k) (reported o l x) w e = ground arith
  pause-IsEnding created (suc k) cancelled w e = (suc k, ground arith)

  reply-IsEnding :
      (t : Attempt) (latency : ℤ) (n : ℕ) (d : Delivery)
      → reply cfg env t latency ≡ final n d
      → IsEnding env d
  unfolding reply answer
  reply-IsEnding t latency n expired e = tt
  reply-IsEnding t latency n cancelled e = absurd (ground arith)
  reply-IsEnding t latency n (reported success l x) e = λ h. cc
  reply-IsEnding t latency n (reported failure l x) e = λ h. cc
  reply-IsEnding t latency n (reported pending l x) e = absurd (ground arith)

  attempt_loop-IsEnding :
      (created : ℤ) (left a : ℕ) (last : Option Text) (latency : ℤ)
      → IsEnding env (attempt_loop cfg env created left a last latency).delivery
  unfolding attempt_loop
  attempt_loop-IsEnding created zero a last latency = λ h. cc
  attempt_loop-IsEnding created (suc left) a last latency =
      attempt_loop_cases cfg env (λ t. IsEnding env t.delivery) created left a last latency
        (λ d w e. pause-IsEnding created a d w e)
        (λ w n d e. reply-IsEnding (env.attempts a) latency n d e)
        (λ w last' latency' e. attempt_loop-IsEnding created left (a + 1) last' latency')

  deliver_unless-IsEnding :
      (stale : Bool) (x : Option Text) (t : Dispatched)
      → IsEnding env t.delivery
      → IsEnding env (deliver_unless stale x t).delivery
  unfolding deliver_unless
  deliver_unless-IsEnding true x t v = tt
  deliver_unless-IsEnding false (some e) t v = λ h. cc
  deliver_unless-IsEnding false none t v = v

  deliver-IsEnding : (event : Event) → IsEnding env (deliver cfg env event).delivery
  unfolding deliver
  deliver-IsEnding event =
      deliver_unless-IsEnding (is_stale cfg (created_at event env.now) env.checked_at)
        env.marshal_error _
        (attempt_loop-IsEnding (created_at event env.now) (rounds cfg env) 0 none (pos 0))

settle-Settled :
    (env : Env) (s : Store) (id : ℕ) (d : Delivery)
    → IsEnding env d
    → Settled env s id (settle (some s) id d)
unfolding settle if_store
settle-Settled env s id expired h = dropped
settle-Settled env s id cancelled (k, h) = kept k h
settle-Settled env s id (reported o l e) h = recorded o l e h

-- `dispatch` accounts for its event exactly once: the store it leaves has one more drop, or one more
-- outcome, a success or a failure, for the event's trace id and nothing else; only if the context was
-- done during a wait is the store unchanged.
pub dispatch-Settled :
    (cfg : Config) (env : Env) (s : Store) (event : Event)
    → Settled env s (trace_of event) (dispatch cfg env (some s) event)
unfolding dispatch
dispatch-Settled cfg env s event =
    settle-Settled env s (trace_of event) (deliver cfg env event).delivery
      (deliver-IsEnding cfg env event)
