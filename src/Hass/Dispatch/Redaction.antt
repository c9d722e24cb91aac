-- ===== src/Hass/Dispatch/Redaction.antt =====
-- The errors that `dispatch` reports never show the access token.
use mathlib.Core.Path.{subst}
use busybar_bridge.Prelude.{
  ℕ, zero, suc, ◌+◌, ◌≡◌, ◌≢◌, refl, Bool, true, false, List, [], ◌∷◌, Option, none, some, arith,
  Bool-cases, Option-cases, inl, inr,
}
use busybar_bridge.Prelude.Int.{ℤ, pos}
use busybar_bridge.Prelude.Result.{Result, ok, err}
use busybar_bridge.Prelude.Search.{contains, has_rune, contains-replace_all}
use busybar_bridge.Prelude.Text.{Text, codes, is_empty}
use busybar_bridge.Hass.Client.{Config}
use busybar_bridge.Hass.Event.{Event}
use busybar_bridge.Telemetry.Types.{ForwardingOutcome, failure}
use busybar_bridge.Hass.Dispatch.{
  Attempt, Env, Delivery, expired, cancelled, reported, Dispatched, halt, pause, Reply, final,
  again, safe_error, answer, reply, attempt_loop, rounds, deliver, created_at, deliver_unless,
  is_stale, status_message, is_success, is_client_error,
}
use busybar_bridge.Hass.Dispatch.Retries.{attempt_loop_cases}

-- What a token must be for `[REDACTED]` to hide it: no bracket, and no part of the word.
pub record IsToken (token : Text) : Type 0 where
  pub nonempty : token ≢ []
  pub no_open : has_rune b'[' token ≡ false
  pub no_close : has_rune b']' token ≡ false
  pub no_word : contains token (codes "REDACTED") ≡ false

-- The error that a delivery reports, if any, does not contain the token.
abbrev pub Hides : Text → Delivery → Type 0
Hides token expired = Unit {0}
Hides token cancelled = Unit {0}
Hides token (reported o l none) = Unit {0}
Hides token (reported o l (some msg)) = contains token msg ≡ false

abbrev HidesReply : Text → Reply → Type 0
HidesReply token (final n d) = Hides token d
HidesReply token (again last l) = Unit {0}

is_empty-nonempty : (t : Text) → t ≢ [] → is_empty t ≡ false
is_empty-nonempty [] h = absurd (h refl)
is_empty-nonempty (x ∷ t) h = refl

safe_error-Hides :
    (token msg : Text) (o : ForwardingOutcome) (l : ℤ)
    → IsToken token
    → Hides token (reported o l (safe_error (some msg) token))
unfolding safe_error
safe_error-Hides token msg o l v = elim (Bool-cases (contains token msg)) [
  | inl e ↦
      rw (is_empty-nonempty token v.nonempty, e, safe_error)
        (contains-replace_all token (codes "REDACTED") msg v.nonempty v.no_open v.no_close
          v.no_word)
  | inr e ↦ rw (is_empty-nonempty token v.nonempty, e, safe_error) e
]

safe_error-Hides_opt :
    (token : Text) (msg : Option Text) (o : ForwardingOutcome) (l : ℤ)
    → IsToken token
    → Hides token (reported o l (safe_error msg token))
unfolding safe_error
safe_error-Hides_opt token none o l v = tt
safe_error-Hides_opt token (some msg) o l v = safe_error-Hides token msg o l v

module _ (cfg : Config) (env : Env) (v : IsToken cfg.token) where
  pause-Hides :
      (created : ℤ) (a : ℕ) (d : Delivery) (w : List ℤ)
      → pause cfg env created a ≡ halt d w
      → Hides cfg.token d
  unfolding pause
  pause-Hides created zero d w e = absurd (ground arith)
  pause-Hides created (suc k) expired w e = tt
  pause-Hides created (suc k) cancelled w e = tt
  pause-Hides created (suc k) (reported o l x) w e = absurd (ground arith)

  -- The permanent failures.
  answer-HidesReply :
      (r : Result Text ℕ) (latency : ℤ) → HidesReply cfg.token (answer cfg env r latency)
  unfolding answer
  answer-HidesReply (err x) latency = tt
  answer-HidesReply (ok status) latency =
      let m = status_message cfg env (codes "permanent error: HTTP ") status in
      elim (Bool-cases (is_success status)) [
        | inl s ↦ rw (s, answer) tt
        | inr s ↦ elim (Bool-cases (is_client_error status)) [
          | inl c ↦ rw (s, c, answer) (safe_error-Hides cfg.token m failure latency v)
          | inr c ↦ rw (s, c, answer) tt
        ]
      ]

  reply-HidesReply : (t : Attempt) (latency : ℤ) → HidesReply cfg.token (reply cfg env t latency)
  unfolding reply
  reply-HidesReply t latency = elim (Option-cases t.request_error) [
    | inl e ↦ rw (e, reply) (answer-HidesReply t.response t.latency)
    | inr (x, e) ↦
        rw (e, reply)
          (safe_error-Hides_opt cfg.token (safe_error (some x) cfg.token) failure latency v)
  ]

  attempt_loop-Hides :
      (created : ℤ) (left a : ℕ) (last : Option Text) (latency : ℤ)
      → Hides cfg.token (attempt_loop cfg env created left a last latency).delivery
  unfolding attempt_loop
  attempt_loop-Hides created zero a last latency =
      safe_error-Hides_opt cfg.token last failure latency v
  attempt_loop-Hides created (suc left) a last latency =
      attempt_loop_cases cfg env (λ t. Hides cfg.token t.delivery) created left a last latency
        (λ d w e. pause-Hides created a d w e)
        (λ w n d e. subst (HidesReply cfg.token) e (reply-HidesReply (env.attempts a) latency))
        (λ w last' latency' e. attempt_loop-Hides created left (a + 1) last' latency')

  deliver_unless-Hides :
      (stale : Bool) (t : Dispatched)
      → Hides cfg.token t.delivery
      → Hides cfg.token (deliver_unless stale none t).delivery
  unfolding deliver_unless
  deliver_unless-Hides true t h = tt
  deliver_unless-Hides false t h = h

-- The error that `dispatch` reports, of the request, the answer or the last attempt, does not contain
-- the access token. The token is not empty, has no bracket and is no part of the word `REDACTED`; the
-- event could be encoded (the error of `json.Marshal` is reported as it is).
pub deliver-Hides :
    (cfg : Config) (env : Env) (event : Event)
    → IsToken cfg.token
    → env.marshal_error ≡ none
    → Hides cfg.token (deliver cfg env event).delivery
unfolding deliver
deliver-Hides cfg env event v h =
    let created = created_at event env.now in
    rw (h, deliver)
      (deliver_unless-Hides cfg env v (is_stale cfg created env.checked_at) _
        (attempt_loop-Hides cfg env v created (rounds cfg env) 0 none (pos 0)))
