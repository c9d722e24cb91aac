-- ===== src/Server/Listening/Shut.antt =====
-- A server that is shut down serves nothing any more.
use busybar_bridge.Prelude.{◌≡◌, true, List, [], ◌∷◌, none, some, arith}
use busybar_bridge.Prelude.Result.{Result, ok, err}
use busybar_bridge.Prelude.Text.{Text}
use busybar_bridge.Server.Listening.{
  Address, Listening, addr_or, serve_listener, with_listener, start, shut_down, Event, starts,
  shuts_down, step, run,
}

pub record IsShut (s : Listening) : Type 0 where
  pub shut : s.is_shut ≡ true
  pub serves_none : s.serving ≡ []

with_listener-IsShut :
    (s : Listening) (r : Result Text Address) → IsShut s → IsShut (with_listener s r).0
unfolding with_listener serve_listener
with_listener-IsShut s (err e) v = v
with_listener-IsShut s (ok a) v = ground arith

step-IsShut : (s : Listening) (e : Event) → IsShut s → IsShut (step s e)
unfolding step start
step-IsShut s (starts (some e) listen) v = v
step-IsShut s (starts none listen) v =
    with_listener-IsShut (record s { addr = addr_or s.addr s.port }) (listen _)
      (record { shut = v.shut; serves_none = v.serves_none })
step-IsShut s shuts_down v = ground arith

run-IsShut : (es : List Event) (s : Listening) → IsShut s → IsShut (run s es)
unfolding run
run-IsShut [] s v = v
run-IsShut (e ∷ es) s v = run-IsShut es (step s e) (step-IsShut s e v)

-- Whatever comes after a shutdown, a later `Start` that returns no error included, no listener is
-- served any more.
pub shut_down-IsShut : (s : Listening) (es : List Event) → IsShut (run (shut_down s) es)
unfolding shut_down
shut_down-IsShut s es = run-IsShut es (shut_down s) (ground arith)
