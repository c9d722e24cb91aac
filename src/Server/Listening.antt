-- ===== src/Server/Listening.antt =====
-- internal/server/server.go: `Start`, `Shutdown` and `Addr`. The inner HTTP server is the standard
-- library's: once it is shut down it serves no listener any more, also none that is given to it later.
pub mod Shut
mod Tests
use busybar_bridge.Prelude.{
  Bool, true, false, List, [], ◌∷◌, ◌++◌, Option, none, some, if◌then◌else◌,
}
use busybar_bridge.Prelude.Decimal.{itoa}
use busybar_bridge.Prelude.Int.{ℤ, pos, ltb_ℤ}
use busybar_bridge.Prelude.Result.{Result, ok, err}
use busybar_bridge.Prelude.Text.{Text, codes, is_empty}

-- The address of a listener: a TCP address with its port, or another one by its text.
pub data Address : Type 0 where
  tcp : ℤ → Address
  other : Text → Address

-- `addr` is the address of the inner server, `serving` the listeners that it serves.
pub record Listening : Type 0 where
  pub port : ℤ
  pub addr : Text
  pub listener : Option Address
  pub serving : List Address
  pub is_shut : Bool

-- `addr` where the inner server has none.
addr_or : Text → ℤ → Text
unfolding itoa
addr_or addr port =
    if is_empty addr then (if ltb_ℤ port (pos 0) then codes ":0" else b':' ∷ itoa port) else addr

-- `s.httpServer.Serve(ln)`
serve_listener : Listening → Address → Listening
serve_listener s a = if s.is_shut then s else record s { serving = a ∷ s.serving }

-- With the answer of `net.Listen`.
with_listener : Listening → Result Text Address → Listening × Option Text
unfolding serve_listener
with_listener s (err e) = (s, some (codes "failed to listen on " ++ (s.addr ++ (codes ": " ++ e))))
with_listener s (ok a) = (serve_listener (record s { listener = some a }) a, none)

-- Start: the error of the context, and `net.Listen`; the server and the error.
pub start : Option Text → (Text → Result Text Address) → Listening → Listening × Option Text
unfolding addr_or with_listener
start (some e) listen s = (s, some e)
start none listen s =
    let addr = addr_or s.addr s.port in with_listener (record s { addr = addr }) (listen addr)

-- Shutdown, which the end of the context of `Start` also calls.
pub shut_down : Listening → Listening
shut_down s = record s { serving = []; is_shut = true }

pub addr_of : Listening → Text
unfolding itoa
addr_of s = elim s.listener [
  | some a ↦ elim a [ tcp port ↦ codes "127.0.0.1:" ++ itoa port | other t ↦ t ]
  | none ↦ s.addr
]

pub data Event : Type 0 where
  starts : Option Text → (Text → Result Text Address) → Event
  shuts_down : Event

pub step : Listening → Event → Listening
unfolding start shut_down
step s (starts e listen) = (start e listen s).0
step s shuts_down = shut_down s

pub run : Listening → List Event → Listening
unfolding step
run s [] = s
run s (e ∷ es) = run (step s e) es
