-- ===== src/Runner/Closing.antt =====
-- internal/runner/runner.go: `Close` and `Shutdown`, over what the parts' own `Close` and the server's
-- `Shutdown` return.
pub mod Agreement
mod Tests
use busybar_bridge.Prelude.{Bool, List, [], ◌∷◌, ◌++◌, Option, none, some, if◌then◌else◌}
use busybar_bridge.Prelude.Int.{ℤ, pos, leb_ℤ}
use busybar_bridge.Prelude.Text.{Text}
use busybar_bridge.Runner.Lifecycle.{
  Part, server, hass_client, busy_client, push_client, calendar_poller, display_orch,
}

-- errors.Join: nil without errors, or their messages on lines.
join_lines : Text → List Text → Text
join_lines e [] = e
join_lines e (f ∷ fs) = e ++ b'\n' ∷ join_lines f fs

pub join_errors : List Text → Option Text
unfolding join_lines
join_errors [] = none
join_errors (e ∷ es) = some (join_lines e es)

-- `if err := part.Close(); err != nil { errs = append(errs, err) }`
append_error : Option Text → List Text → List Text
append_error none errs = errs
append_error (some e) errs = e ∷ errs

abbrev pub close_order : List Part
close_order = busy_client ∷ display_orch ∷ push_client ∷ calendar_poller ∷ hass_client ∷ []

-- The order in which Shutdown starts its goroutines.
abbrev pub shutdown_order : List Part
shutdown_order = display_orch ∷ push_client ∷ calendar_poller ∷ hass_client ∷ server ∷ []

-- What Shutdown's `select` takes: all goroutines have ended, in this order, or the context's error.
pub data Waited : Type 0 where
  ended : List Part → Waited
  expired : Text → Waited

-- The time that Run and Shutdown give the closing parts.
pub timeout_of : ℤ → ℤ
timeout_of shutdown_timeout =
    if leb_ℤ shutdown_timeout (pos 0) then pos 10_000_000_000 else shutdown_timeout

module _ (has : Part → Bool) (close_error : Part → Option Text) where
  -- The parts of a list that are not nil.
  pub present : List Part → List Part
  present [] = []
  present (p ∷ ps) = let rest = present ps in if has p then p ∷ rest else rest

  -- The errors of parts that are closed in this order.
  pub errors_of : List Part → List Text
  unfolding append_error
  errors_of [] = []
  errors_of (p ∷ ps) = append_error (close_error p) (errors_of ps)

  -- Close: the parts that it closes one after the other, and its error.
  pub close : List Part × Option Text
  unfolding present errors_of join_errors
  close = let parts = present close_order in (parts, join_errors (errors_of parts))

  -- Shutdown: each goroutine appends its error as it ends.
  pub shutdown : Waited → Option Text
  unfolding errors_of join_errors
  shutdown (expired e) = some e
  shutdown (ended parts) = join_errors (errors_of parts)
