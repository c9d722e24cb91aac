-- ===== src/Busybar/Lifetime/Orderly.antt =====
-- A client that is started before it is closed closes its channel in order.
use mathlib.Core.Path.{subst}
use busybar_bridge.Prelude.{◌≡◌, refl, sym, ◌∙◌, true, false, List, [], ◌∷◌, ◌++◌, arith}
use busybar_bridge.Busybar.Lifetime.{
  Lifetime, Event, starts, parent_ends, close_cancels, close_goes_on, close_closes, sends_frame,
  loop_ends, fresh, step, run,
}

-- The frames channel of a started client is closed only once the goroutine has ended, which a `Close`
-- that waits has asked for; nothing was sent on the closed channel.
pub record IsOrderly (c : Lifetime) : Type 0 where
  pub started : c.started ≡ true
  pub sender : c.chan_closed ≡ true → c.running ≡ false
  pub waiter : c.waited ≡ true → c.running ≡ false
  pub asked : c.waiting ≡ true → c.cancelled ≡ true
  pub sound : c.panicked ≡ false

step-IsOrderly : (c : Lifetime) (e : Event) → IsOrderly c → IsOrderly (step c e)
unfolding step
step-IsOrderly c starts v = ground arith
step-IsOrderly c parent_ends v = ground arith
step-IsOrderly c close_cancels v = ground arith
step-IsOrderly c close_goes_on v = ground arith
step-IsOrderly c close_closes v = ground arith
step-IsOrderly c sends_frame v = ground arith
step-IsOrderly c loop_ends v = ground arith

run-IsOrderly : (es : List Event) (c : Lifetime) → IsOrderly c → IsOrderly (run c es)
unfolding run
run-IsOrderly [] c v = v
run-IsOrderly (e ∷ es) c v = run-IsOrderly es (step c e) (step-IsOrderly c e v)

fresh-IsOrderly : IsOrderly (step fresh starts)
unfolding step fresh
fresh-IsOrderly = ground arith

run-append : (es fs : List Event) (c : Lifetime) → run c (es ++ fs) ≡ run (run c es) fs
unfolding run
run-append [] fs c = refl
run-append (e ∷ es) fs c = run-append es fs (step c e)

-- The end of a `Close`.
abbrev pub closing : List Event
closing = close_cancels ∷ loop_ends ∷ close_goes_on ∷ close_closes ∷ []

pub record IsClosed (c : Lifetime) : Type 0 where
  pub ended : c.running ≡ false
  pub chan_closed : c.chan_closed ≡ true

close-IsClosed : (c : Lifetime) → IsOrderly c → IsClosed (run c closing)
unfolding run step
close-IsClosed c v = ground arith

step-IsClosed : (c : Lifetime) (e : Event) → c.started ≡ true → IsClosed c → IsClosed (step c e)
unfolding step
step-IsClosed c starts s v = ground arith
step-IsClosed c parent_ends s v = ground arith
step-IsClosed c close_cancels s v = ground arith
step-IsClosed c close_goes_on s v = ground arith
step-IsClosed c close_closes s v = ground arith
step-IsClosed c sends_frame s v = ground arith
step-IsClosed c loop_ends s v = ground arith

run-IsClosed : (es : List Event) (c : Lifetime) → IsOrderly c → IsClosed c → IsClosed (run c es)
unfolding run
run-IsClosed [] c o v = v
run-IsClosed (e ∷ es) c o v =
    run-IsClosed es (step c e) (step-IsOrderly c e o) (step-IsClosed c e o.started v)

-- Whatever happens to a client whose first call is `Start`, and in whatever order: no frame is sent on
-- the closed channel, the channel is closed only once the goroutine has ended, and a `Close` returns
-- from its wait only then. At any time a `Close` comes to its end once the loop notices it, and ever
-- after the goroutine has ended and the channel is closed.
pub run-IsOrderly_started :
    (es fs : List Event)
    → IsOrderly (run fresh (starts ∷ es)) × IsClosed (run fresh (starts ∷ (es ++ (closing ++ fs))))
unfolding run
run-IsOrderly_started es fs =
    let c = run (step fresh starts) es in
    let o : IsOrderly c = run-IsOrderly es (step fresh starts) fresh-IsOrderly in
    let d = close-IsClosed c o in
    let after = run-IsClosed fs (run c closing) (run-IsOrderly closing c o) d in
    (
      o,
      subst IsClosed
          (sym (run-append es (closing ++ fs) (step fresh starts) ∙ run-append closing fs c)) after,
    )
