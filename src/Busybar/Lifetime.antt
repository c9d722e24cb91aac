-- ===== src/Busybar/Lifetime.antt =====
-- internal/busybar/client.go: `Start` and `Close`, with the goroutine of the reconnection loop and the
-- frames channel that both may close. `Close` is three steps: it cancels, its `wg.Wait()` returns, and
-- it closes the channel; other calls and the goroutine run between them.
-- The connection that `Close` also closes is in Busybar/Connection.
pub mod Orderly
mod Tests
use busybar_bridge.Prelude.{
  Bool, true, false, not, ◌||◌, ◌&&◌, List, [], ◌∷◌, Option, none, some, if◌then◌else◌,
}
use busybar_bridge.Prelude.Text.{Text, codes}

-- `started` says that `cancel` is set, `running` that the goroutine counts in `wg`, `waiting` that a
-- `Close` waits, and `waited` that one has gone on; `panicked` that a frame was sent on the closed
-- channel.
pub record Lifetime : Type 0 where
  pub started : Bool
  pub cancelled : Bool
  pub parent_done : Bool
  pub running : Bool
  pub waiting : Bool
  pub waited : Bool
  pub chan_closed : Bool
  pub panicked : Bool

pub data Event : Type 0 where
  starts parent_ends : Event
  close_cancels close_goes_on close_closes : Event
  sends_frame loop_ends : Event

unfoldable pub fresh : Lifetime
fresh = record {
  started = false;
  cancelled = false;
  parent_done = false;
  running = false;
  waiting = false;
  waited = false;
  chan_closed = false;
  panicked = false;
}

-- Start: the client and the error.
pub start : Lifetime → Lifetime × Option Text
start c =
    if c.started
    then (c, some (codes "client already started"))
    else (record c { started = true; running = true }, none)

-- `closeOnce.Do`
close_chan : Lifetime → Lifetime
close_chan c = record c { chan_closed = true }

-- `c.framesChan <- payload` by the goroutine.
send_frame : Lifetime → Lifetime
send_frame c = if c.running && c.chan_closed then record c { panicked = true } else c

-- The loop returns when its context is done; the deferred calls close the channel and leave `wg`.
end_loop : Lifetime → Lifetime
unfolding close_chan
end_loop c =
    if c.running && (c.cancelled || c.parent_done)
    then record (close_chan c) { running = false }
    else c

cancel_loop : Lifetime → Lifetime
cancel_loop c = record c { cancelled = c.cancelled || c.started; waiting = true }

-- `c.wg.Wait()` returns.
go_on : Lifetime → Lifetime
go_on c = if c.waiting && not c.running then record c { waited = true } else c

finish_close : Lifetime → Lifetime
unfolding close_chan
finish_close c = if c.waited then close_chan c else c

pub step : Lifetime → Event → Lifetime
unfolding start send_frame end_loop cancel_loop go_on finish_close
step c starts = (start c).0
step c parent_ends = record c { parent_done = true }
step c close_cancels = cancel_loop c
step c close_goes_on = go_on c
step c close_closes = finish_close c
step c sends_frame = send_frame c
step c loop_ends = end_loop c

pub run : Lifetime → List Event → Lifetime
unfolding step
run c [] = c
run c (e ∷ es) = run (step c e) es
