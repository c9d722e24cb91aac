-- ===== src/Calendar/Worker.antt =====
-- internal/calendar/poller.go and display.go: `Start`, `Close` and `loop` of the poller and of the
-- display orchestrator, which differ in their messages and in the body of the loop. No lock is held
-- over `Start` or `Close`: each of their accesses to what they share is a step of its own, and any
-- sequence of steps may happen. An access to `cancel`, which the display guards by its mutex and the
-- poller does not, is a whole step. A body may be running while the worker is closed: the loop notices that at its next `select`.
pub mod Stopping
mod Tests
use busybar_bridge.Prelude.{
  ℕ, zero, suc, ◌+◌, Bool, true, false, not, ◌&&◌, ◌||◌, List, [], ◌∷◌, Option, none, some,
  if◌then◌else◌,
}
use busybar_bridge.Prelude.Int.{ℤ, pos, leb_ℤ}
use busybar_bridge.Prelude.Result.{Result, ok, err}
use busybar_bridge.Prelude.Text.{Text, codes}
use busybar_bridge.Calendar.Display
use busybar_bridge.Calendar.Display.{Orchestrator}
use busybar_bridge.Calendar.Display.Render.{Frame}
use busybar_bridge.Calendar.Poller
use busybar_bridge.Calendar.Events.{ActiveEvent}
use busybar_bridge.Calendar.Poller.{Poller, Reply, poll}

-- Where the loop is: not running, before its first body, or at its `select`.
pub data Phase : Type 0 where
  idle starting selecting : Phase

-- `checked` counts the calls of `Start` that found the worker open and have not swapped `started`
-- yet; `has_cancel` says that `cancel` is not nil, `launched` that `wg.Add` and `go` were called,
-- `cancelled` that `cancel` was called, `parent_done` that the context of `Start` is done,
-- `close_passed` that `Close` is at `wg.Wait` or beyond, and `returned` that it returned.
pub record Worker (S : Type 0) : Type 0 where
  pub checked : ℕ
  pub started : Bool
  pub has_cancel : Bool
  pub launched : Bool
  pub closed : Bool
  pub cancelled : Bool
  pub parent_done : Bool
  pub close_passed : Bool
  pub returned : Bool
  pub phase : Phase
  pub state : S

-- The messages of `Start`.
pub record Messages : Type 0 where
  pub is_closed : Text
  pub already_started : Text

pub data Event (W : Type 0) : Type 0 where
  start_checks start_claims start_arms start_launches : Event W
  close_marks close_cancels close_returns : Event W
  parent_ends notices : Event W
  first tick : W → Event W

module _ {S : Type 0} where
  pub new_worker : S → Worker S
  new_worker s = record {
    checked = 0;
    started = false;
    has_cancel = false;
    launched = false;
    closed = false;
    cancelled = false;
    parent_done = false;
    close_passed = false;
    returned = false;
    phase = idle;
    state = s;
  }

  -- p.closed.Load()
  pub start_check : Messages → Worker S → Result Text (Worker S)
  start_check m w = if w.closed then err m.is_closed else ok (record w { checked = w.checked + 1 })

  -- p.started.Swap(true), in a call that has checked: `checked` is what it leaves of such calls.
  pub start_claim : Messages → Worker S → ℕ → Result Text (Worker S)
  start_claim m w checked =
      if w.started
      then err m.already_started
      else ok (record w { started = true; checked = checked })

  -- p.cancel = cancel, in the call that claimed the start.
  pub start_arm : Worker S → Worker S
  start_arm w = if w.started && not w.has_cancel then record w { has_cancel = true } else w

  -- p.wg.Add(1) and go p.loop(workerCtx)
  pub start_launch : Worker S → Worker S
  start_launch w =
      if w.has_cancel && not w.launched then record w { launched = true; phase = starting } else w

  -- p.closed.Store(true), once.
  pub close_mark : Worker S → Worker S
  close_mark w = record w { closed = true }

  -- if p.cancel != nil { p.cancel() }, once.
  pub close_cancel : Worker S → Worker S
  close_cancel w =
      if w.closed && not w.close_passed
      then record w { close_passed = true; cancelled = w.cancelled || w.has_cancel }
      else w

  -- The loop is not running, so that nothing keeps `wg.Wait()`.
  pub has_ended : Worker S → Bool
  has_ended w = elim w.phase [ idle ↦ true | starting ↦ false | selecting ↦ false ]

  -- wg.Wait() returns, and `Close` with it; further calls return with the first one.
  pub close_return : Worker S → Worker S
  unfolding has_ended
  close_return w = if w.close_passed && has_ended w then record w { returned = true } else w

  -- The worker after a part of `Start`, which leaves it as it is when it is refused.
  started_or_same : Worker S → Result Text (Worker S) → Worker S
  started_or_same w (ok w') = w'
  started_or_same w (err e) = w

  claim_checked : Messages → Worker S → ℕ → Worker S
  unfolding start_claim started_or_same
  claim_checked m w zero = w
  claim_checked m w (suc k) = started_or_same (record w { checked = k }) (start_claim m w k)

  -- `case <-ctx.Done()`
  notice : Worker S → Worker S
  notice w = elim w.phase [
    | idle ↦ w
    | starting ↦ w
    | selecting ↦ if w.cancelled || w.parent_done then record w { phase = idle } else w
  ]

  module _ {W : Type 0} (m : Messages) (body : S → W → S) where
    run_first : Worker S → W → Worker S
    run_first w x = elim w.phase [
      | idle ↦ w
      | starting ↦ record w { phase = selecting; state = body w.state x }
      | selecting ↦ w
    ]

    -- `case <-ticker.C`; with the context done too, `select` takes either.
    run_tick : Worker S → W → Worker S
    run_tick w x = elim w.phase [
      | idle ↦ w
      | starting ↦ w
      | selecting ↦ record w { state = body w.state x }
    ]

    pub step : Worker S → Event W → Worker S
    unfolding start_check claim_checked start_arm start_launch started_or_same close_mark
        close_cancel close_return notice run_first run_tick
    step w start_checks = started_or_same w (start_check m w)
    step w start_claims = claim_checked m w w.checked
    step w start_arms = start_arm w
    step w start_launches = start_launch w
    step w close_marks = close_mark w
    step w close_cancels = close_cancel w
    step w close_returns = close_return w
    step w parent_ends = record w { parent_done = true }
    step w notices = notice w
    step w (first x) = run_first w x
    step w (tick x) = run_tick w x

    pub run : Worker S → List (Event W) → Worker S
    unfolding step
    run w [] = w
    run w (e ∷ es) = run (step w e) es

-- `if x <= 0 { x = default }` of NewPoller, NewDisplayOrchestrator and the two loops.
unfoldable pub interval_or : ℤ → ℤ → ℤ
interval_or x default = if leb_ℤ x (pos 0) then default else x

pub poller_messages : Messages
poller_messages = record {
  is_closed = codes "poller is closed";
  already_started = codes "poller already started";
}

pub orchestrator_messages : Messages
orchestrator_messages = record {
  is_closed = codes "display orchestrator is closed";
  already_started = codes "display orchestrator already started";
}

-- What a `Poll` meets: its two clocks and the reply of the calendar.
pub record Polled : Type 0 where
  pub now : ℤ
  pub reply : Reply
  pub moment : ℤ

-- `_ = p.Poll(ctx)`
pub poll_body : (Text → Option ℤ) → Poller → Polled → Poller
unfolding poll
poll_body parse_time p x = (poll parse_time p x.now x.reply x.moment).0

-- What a `Step` meets: the clock, the tracker's event and what the push of the frame returns.
pub record Shown : Type 0 where
  pub now : ℤ
  pub event : ActiveEvent
  pub push_frame : Frame → Option Text

-- `_ = o.Step(ctx)`
pub step_body : (ℤ → Text) → (ℤ → Text) → Orchestrator → Shown → Orchestrator
unfolding Display.step
step_body date_line time_line o x =
    (Display.step date_line time_line x.push_frame o x.event x.now).orchestrator
