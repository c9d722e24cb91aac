-- ===== src/Hass/Dispatch/Retries.antt =====
-- When `dispatch` tries again, how often, and what it takes for an answer.
use native.Mathlib.Nat.{add-zero}
use busybar_bridge.Prelude.{
  ℕ, zero, suc, ◌+◌, ◌≤◌, ◌<◌, ◌≡◌, ◌≢◌, refl, Bool, true, false, List, [], ◌++◌, Option, none,
  some, arith,
}
use busybar_bridge.Prelude.Int.{ℤ, pos, negsuc}
use busybar_bridge.Prelude.Result.{Result, ok, err}
use busybar_bridge.Prelude.Text.{Text}
use busybar_bridge.Hass.Client.{Config}
use busybar_bridge.Hass.Event.{Event}
use busybar_bridge.Telemetry.Types.{success, failure}
use busybar_bridge.Hass.Dispatch.{
  Attempt, Env, Delivery, expired, reported, Dispatched, Pause, halt, go, pause, Reply, final,
  again, is_success, is_client_error, answer, reply, attempt_loop, rounds, deliver, created_at,
  deliver_unless, is_stale,
}

-- No answer, or a status that is neither 2xx nor 4xx.
abbrev pub IsTransientResponse : Result Text ℕ → Type 0
IsTransientResponse (err e) = Unit {0}
IsTransientResponse (ok status) = (is_success status ≡ false) × (is_client_error status ≡ false)

abbrev pub IsTransient : Attempt → Type 0
IsTransient t = (t.request_error ≡ none) × IsTransientResponse t.response

-- A status in 200 to 299 was answered.
abbrev pub IsAccepted : Result Text ℕ → Type 0
IsAccepted (err e) = ⊥
IsAccepted (ok status) = is_success status ≡ true

module _ (cfg : Config) (env : Env) where
  answer-again :
      (r : Result Text ℕ) (latency l : ℤ) (last : Option Text)
      → answer cfg env r latency ≡ again last l
      → IsTransientResponse r
  unfolding answer
  answer-again (err e) latency l last h = tt
  answer-again (ok status) latency l last h = ground arith

  answer-final :
      (r : Result Text ℕ) (latency : ℤ) (n : ℕ) (d : Delivery)
      → answer cfg env r latency ≡ final n d
      → n ≡ 1
  unfolding answer
  answer-final (err e) latency n d h = ground arith
  answer-final (ok status) latency n d h = ground arith

  reply-again :
      (t : Attempt) (latency l : ℤ) (last : Option Text)
      → reply cfg env t latency ≡ again last l
      → IsTransient t
  unfolding reply
  reply-again t latency l last h = ground (arith, answer-again t.response t.latency l last)

  reply-final-le :
      (t : Attempt) (latency : ℤ) (n : ℕ) (d : Delivery)
      → reply cfg env t latency ≡ final n d
      → n ≤ 1
  unfolding reply
  reply-final-le t latency n d h = ground (arith, answer-final t.response t.latency n d)

  -- One round of the loop, by what the pause and the reply come to.
  pub attempt_loop_cases {ℓ} :
      (P : Dispatched → Type ℓ) (created : ℤ) (left a : ℕ) (last : Option Text) (latency : ℤ)
      → ((d : Delivery) (w : List ℤ)
          → pause cfg env created a ≡ halt d w
          → P (record { delivery = d; requests = 0; waits = w }))
      → ((w : List ℤ) (n : ℕ) (d : Delivery)
          → reply cfg env (env.attempts a) latency ≡ final n d
          → P (record { delivery = d; requests = n; waits = w }))
      → ((w : List ℤ) (last' : Option Text) (latency' : ℤ)
          → reply cfg env (env.attempts a) latency ≡ again last' latency'
          → let rest = attempt_loop cfg env created left (a + 1) last' latency' in
            P (record {
              delivery = rest.delivery;
              requests = suc rest.requests;
              waits = w ++ rest.waits;
            }))
      → P (attempt_loop cfg env created (suc left) a last latency)
  unfolding attempt_loop
  attempt_loop_cases P created left a last latency halted ended more =
      by_pause (pause cfg env created a) refl
    where
      by_reply :
          (w : List ℤ) (r : Reply)
          → pause cfg env created a ≡ go w
          → reply cfg env (env.attempts a) latency ≡ r
          → P (attempt_loop cfg env created (suc left) a last latency)
      by_reply w (final n d) p e = rw (p, e, attempt_loop) (ended w n d e)
      by_reply w (again last' latency') p e = rw (p, e, attempt_loop) (more w last' latency' e)

      by_pause :
          (q : Pause)
          → pause cfg env created a ≡ q
          → P (attempt_loop cfg env created (suc left) a last latency)
      by_pause (halt d w) p = rw (p, attempt_loop) (halted d w p)
      by_pause (go w) p = by_reply w (reply cfg env (env.attempts a) latency) p refl

  attempt_loop-requests-le :
      (created : ℤ) (left a : ℕ) (last : Option Text) (latency : ℤ)
      → (attempt_loop cfg env created left a last latency).requests ≤ left
  unfolding attempt_loop
  attempt_loop-requests-le created zero a last latency = omega arith
  attempt_loop-requests-le created (suc left) a last latency =
      attempt_loop_cases (λ t. t.requests ≤ suc left) created left a last latency
        (λ d w e. omega arith)
        (λ w n d e. omega (arith, reply-final-le (env.attempts a) latency n d e))
        (λ w last' latency' e.
          omega (arith, attempt_loop-requests-le created left (a + 1) last' latency'))

  attempt_loop-IsTransient :
      (created : ℤ) (left a : ℕ) (last : Option Text) (latency : ℤ) (i : ℕ)
      → suc i < (attempt_loop cfg env created left a last latency).requests
      → IsTransient (env.attempts (a + i))
  unfolding attempt_loop
  attempt_loop-IsTransient created zero a last latency = λ i h. absurd (omega arith)
  attempt_loop-IsTransient created (suc left) a last latency =
      attempt_loop_cases (λ t. (i : ℕ) → suc i < t.requests → IsTransient (env.attempts (a + i)))
        created left a last latency (λ d w e i h. absurd (omega arith))
        (λ w n d e i h. absurd (omega (arith, reply-final-le (env.attempts a) latency n d e)))
        (λ w last' latency' e.
          earlier last' latency' e (attempt_loop-IsTransient created left (a + 1) last' latency'))
    where
      earlier :
          (last' : Option Text) (latency' : ℤ)
          → reply cfg env (env.attempts a) latency ≡ again last' latency'
          → ((j : ℕ)
              → suc j < (attempt_loop cfg env created left (a + 1) last' latency').requests
              → IsTransient (env.attempts (a + 1 + j)))
          → (i : ℕ)
          → suc i < suc (attempt_loop cfg env created left (a + 1) last' latency').requests
          → IsTransient (env.attempts (a + i))
      earlier last' latency' e ih zero h =
          rw add-zero (reply-again (env.attempts a) latency latency' last' e)
      earlier last' latency' e ih (suc j) h =
          let same : a + suc j ≡ a + 1 + j = omega arith in rw same (ih j (omega arith))

  answer-success :
      (r : Result Text ℕ) (latency l : ℤ) (n : ℕ) (x : Option Text)
      → answer cfg env r latency ≡ final n (reported success l x)
      → (n ≡ 1) × IsAccepted r
  unfolding answer
  answer-success (err e) latency l n x h = ground arith
  answer-success (ok status) latency l n x h = ground arith

  reply-success :
      (t : Attempt) (latency l : ℤ) (n : ℕ) (x : Option Text)
      → reply cfg env t latency ≡ final n (reported success l x)
      → (n ≡ 1) × IsAccepted t.response
  unfolding reply
  reply-success t latency l n x h = ground (arith, answer-success t.response t.latency l n x)

  pause-not-success :
      (created : ℤ) (a : ℕ) (l : ℤ) (x : Option Text) (w : List ℤ)
      → pause cfg env created a ≢ halt (reported success l x) w
  unfolding pause
  pause-not-success created zero l x w h = cc
  pause-not-success created (suc a) l x w h = ground arith

  -- `Succeeded a t`: if `t` reports a success, its last request was accepted.
  abbrev pub Succeeded : ℕ → Dispatched → Type 0
  Succeeded a t =
      (l : ℤ) (x : Option Text)
      → t.delivery ≡ reported success l x
      → (k : ℕ) × (t.requests ≡ suc k) × IsAccepted (env.attempts (a + k)).response

  attempt_loop-Succeeded :
      (created : ℤ) (left a : ℕ) (last : Option Text) (latency : ℤ)
      → Succeeded a (attempt_loop cfg env created left a last latency)
  unfolding attempt_loop
  attempt_loop-Succeeded created zero a last latency = λ l x h. absurd (ground arith)
  attempt_loop-Succeeded created (suc left) a last latency =
      attempt_loop_cases (Succeeded a) created left a last latency
        (λ d w e l x h. absurd (pause-not-success created a l x w (rw h at e)))
        (λ w n d e l x h.
          let r = reply-success (env.attempts a) latency l n x (rw h at e) in
          (0, r.0, rw add-zero r.1))
        (λ w last' latency' e l x h.
          let (k, r, s) = attempt_loop-Succeeded created left (a + 1) last' latency' l x h in
          let same : a + suc k ≡ a + 1 + k = omega arith in (suc k, omega arith, rw same s))

-- `MaxRetries + 1`, or no round at all if it is negative.
abbrev pub max_rounds : Config → ℕ
max_rounds cfg = elim cfg.max_retries [ pos n ↦ n + 1 | negsuc n ↦ 0 ]

-- What the retry policy promises of a delivery.
pub record FollowsPolicy (cfg : Config) (env : Env) (t : Dispatched) : Type 0 where
  pub bounded : t.requests ≤ max_rounds cfg
  pub retried : (i : ℕ) → suc i < t.requests → IsTransient (env.attempts i)
  pub acked : Succeeded cfg env 0 t

max_rounds-rounds : (cfg : Config) (env : Env) → rounds cfg env ≡ max_rounds cfg
unfolding rounds
max_rounds-rounds cfg env = ground arith

attempt_loop-FollowsPolicy :
    (cfg : Config) (env : Env) (created : ℤ) (last : Option Text) (latency : ℤ)
    → FollowsPolicy cfg env (attempt_loop cfg env created (rounds cfg env) 0 last latency)
attempt_loop-FollowsPolicy cfg env created last latency = record {
  bounded = omega (
    arith,
    attempt_loop-requests-le cfg env created (rounds cfg env) 0 last latency,
    max_rounds-rounds cfg env,
  );
  retried = λ i h.
      let same : 0 + i ≡ i = omega arith in
      rw same at (attempt_loop-IsTransient cfg env created (rounds cfg env) 0 last latency i h);
  acked = attempt_loop-Succeeded cfg env created (rounds cfg env) 0 last latency;
}

unsent-FollowsPolicy :
    (cfg : Config) (env : Env) (d : Delivery)
    → ((l : ℤ) (x : Option Text) → d ≢ reported success l x)
    → FollowsPolicy cfg env (record { delivery = d; requests = 0; waits = [] })
unsent-FollowsPolicy cfg env d h = record {
  bounded = omega arith;
  retried = λ i k. absurd (omega arith);
  acked = λ l x e. absurd (h l x e);
}

deliver_unless-FollowsPolicy :
    (cfg : Config) (env : Env) (stale : Bool) (e : Option Text) (t : Dispatched)
    → FollowsPolicy cfg env t
    → FollowsPolicy cfg env (deliver_unless stale e t)
unfolding deliver_unless
deliver_unless-FollowsPolicy cfg env true e t v = unsent-FollowsPolicy cfg env expired (λ l x h. cc)
deliver_unless-FollowsPolicy cfg env false (some e) t v =
    unsent-FollowsPolicy cfg env (reported failure (pos 0) (some e)) (λ l x h. ground arith)
deliver_unless-FollowsPolicy cfg env false none t v = v

-- Whatever the clock, the context and the HTTP client answer: `dispatch` sends at most
-- `MaxRetries + 1` requests, sends another one only after an attempt that got no answer or a status
-- other than 2xx and 4xx (so a client error is never retried), and reports a success only if its
-- last request was answered by a 2xx status.
pub deliver-FollowsPolicy :
    (cfg : Config) (env : Env) (event : Event) → FollowsPolicy cfg env (deliver cfg env event)
unfolding deliver
deliver-FollowsPolicy cfg env event =
    let created = created_at event env.now in
    deliver_unless-FollowsPolicy cfg env (is_stale cfg created env.checked_at) env.marshal_error _
      (attempt_loop-FollowsPolicy cfg env created none (pos 0))
