-- ===== src/Busybar/Lifetime/Tests.antt =====
-- A client that is started, used and closed, and one that is closed before it is started.
use busybar_bridge.Prelude.{◌≡◌, refl, true, List, [], ◌∷◌, ◌++◌}
use busybar_bridge.Busybar.Lifetime.{
  Event, starts, close_cancels, close_goes_on, close_closes, sends_frame, fresh, run,
}
use busybar_bridge.Busybar.Lifetime.Orderly.{closing, IsOrderly, IsClosed, run-IsOrderly_started}

abbrev uses : List Event
uses = sends_frame ∷ starts ∷ close_cancels ∷ sends_frame ∷ close_goes_on ∷ []

run-IsOrderly_started_example :
    IsOrderly (run fresh (starts ∷ uses))
    × IsClosed (run fresh (starts ∷ (uses ++ (closing ++ sends_frame ∷ []))))
run-IsOrderly_started_example = run-IsOrderly_started uses (sends_frame ∷ [])

-- The first frame after a `Start` that follows a `Close` is sent on a closed channel.
panicked-closed_first :
    (run fresh (close_cancels ∷ close_goes_on ∷ close_closes ∷ starts ∷ sends_frame ∷ [])).panicked
    ≡ true
unfolding run fresh
panicked-closed_first = refl
