-- ===== src/Runner/Closing/Tests.antt =====
-- A runner without a push client whose poller and Home Assistant client fail to close.
use mathlib.Core.List.{Permᴰ}
use busybar_bridge.Prelude.{
  ◌≡◌, ◌↔◌, refl, Bool, true, false, List, [], ◌∷◌, Option, none, some, All,
}
use busybar_bridge.Prelude.Text.{Text, codes}
use busybar_bridge.Runner.Lifecycle.{
  Part, server, hass_client, busy_client, push_client, calendar_poller, display_orch,
}
use busybar_bridge.Runner.Closing.{close_order, ended, expired, present, close, shutdown}
use busybar_bridge.Runner.Closing.Agreement.{IsFine, shutdown-close}

no_push : Part → Bool
no_push server = true
no_push hass_client = true
no_push busy_client = true
no_push push_client = false
no_push calendar_poller = true
no_push display_orch = true

two_errors : Part → Option Text
two_errors server = none
two_errors hass_client = some (codes "h")
two_errors busy_client = none
two_errors push_client = some (codes "u")
two_errors calendar_poller = some (codes "c")
two_errors display_orch = none

abbrev order : List Part
order = calendar_poller ∷ display_orch ∷ hass_client ∷ server ∷ []

shutdown-close_example :
    ((shutdown no_push two_errors (ended order) ≡ none) ↔ ((close no_push two_errors).1 ≡ none))
    × (((close no_push two_errors).1 ≡ none) ↔ All (IsFine no_push two_errors) close_order)
    × ((close no_push two_errors).0 ≡ present no_push two_errors close_order)
unfolding present no_push two_errors
shutdown-close_example =
    shutdown-close no_push two_errors order (Permᴰ.swap refl refl) (λ h. refl) (λ h. refl)

close-two_errors :
    close no_push two_errors
    ≡ (busy_client ∷ display_orch ∷ calendar_poller ∷ hass_client ∷ [], some (codes "c\nh"))
unfolding close no_push two_errors
close-two_errors = refl

shutdown-late : shutdown no_push two_errors (expired (codes "deadline")) ≡ some (codes "deadline")
unfolding shutdown
shutdown-late = refl
