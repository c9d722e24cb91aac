-- ===== src/Hass/Dispatch/Tests.antt =====
-- A delivery that is accepted at its third attempt.
use busybar_bridge.Prelude.{ℕ, zero, suc, ◌≡◌, refl, false, none, some, arith}
use busybar_bridge.Prelude.Int.{pos}
use busybar_bridge.Prelude.Result.{Result, ok, err}
use busybar_bridge.Prelude.Search.{contains, has_rune}
use busybar_bridge.Prelude.Text.{Text, codes}
use busybar_bridge.Telemetry.Store.{new_store}
use busybar_bridge.Hass.Event.{Event, new_encoder_event}
use busybar_bridge.Hass.Client.{Config, default_config}
use busybar_bridge.Hass.Dispatch.{Attempt, Env, deliver, trace_of, dispatch}
use busybar_bridge.Hass.Dispatch.Retries.{FollowsPolicy, deliver-FollowsPolicy}
use busybar_bridge.Hass.Dispatch.Redaction.{IsToken, Hides, deliver-Hides}
use busybar_bridge.Hass.Dispatch.Settling.{Settled, dispatch-Settled}

abbrev config : Config
unfolding default_config
config = record default_config { token = codes "abc" }

abbrev turned : Event
unfolding new_encoder_event
turned = new_encoder_event (codes "bar") (pos 1) (pos 5) (pos 6)

answered : Result Text ℕ → Attempt
answered r = record {
  checked_at = pos 10;
  ctx_done = false;
  woke_at = pos 20;
  request_error = none;
  response = r;
  latency = pos 3;
}

-- No answer, with the token in the error; a server error; accepted.
attempts : ℕ → Attempt
unfolding answered
attempts zero = answered (err (codes "dial abc"))
attempts (suc zero) = answered (ok 503)
attempts (suc (suc k)) = answered (ok 200)

status_text : ℕ → Text
status_text n = codes "text"

abbrev env : Env
env = record {
  now = pos 7;
  checked_at = pos 8;
  marshal_error = none;
  attempts = attempts;
  status_text = status_text;
}

requests-deliver : (deliver config env turned).requests ≡ 3
unfolding deliver attempts answered turned config
requests-deliver = refl

deliver-FollowsPolicy_example : FollowsPolicy config env (deliver config env turned)
deliver-FollowsPolicy_example = deliver-FollowsPolicy config env turned

dispatch-Settled_example :
    Settled env
      (new_store (pos 0))
      (trace_of turned)
      (dispatch config env (some (new_store (pos 0))) turned)
dispatch-Settled_example = dispatch-Settled config env (new_store (pos 0)) turned

config-IsToken : IsToken config.token
unfolding contains has_rune config
config-IsToken = record {
  nonempty = λ h. ground arith;
  no_open = refl;
  no_close = refl;
  no_word = refl;
}

deliver-Hides_example : Hides config.token (deliver config env turned).delivery
deliver-Hides_example = deliver-Hides config env turned config-IsToken refl
