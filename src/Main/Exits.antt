-- ===== src/Main/Exits.antt =====
-- The exit code of the program.
use busybar_bridge.Prelude.{
  ◌≡◌, inl, inr, refl, sym, ap, ◌∙◌, true, false, List, [], Option, none, some, arith, Bool-cases,
  if_true, if_false,
}
use mathlib.Core.Path.{subst}
use busybar_bridge.Prelude.Result.{Result, ok, err}
use busybar_bridge.Prelude.Text.{Text}
use busybar_bridge.Calendar.Store.{StoreError}
use busybar_bridge.Config.App.{AppConfig, ParseError}
use busybar_bridge.Config.Validation.{IsValid, validate_iff, parse-IsValid}
use busybar_bridge.Runner.Lifecycle.{Action, start_order}
use busybar_bridge.Runner.Lifecycle.Shutdown
use busybar_bridge.Runner.Lifecycle.Shutdown.{IsServed, IsStoppedAt, run-Outcome}
use busybar_bridge.Runner.Parts.{own, Heap, Runner}
use busybar_bridge.Runner.Wiring.{Built, calendar_path}
use busybar_bridge.Runner.Wiring.Outcome.{
  Outcome, invalid, no_store, nil_store, wired, new_runner-Outcome,
}
use busybar_bridge.Runner.Wiring.Wired.{IsWired}
use busybar_bridge.Main.{
  Sources, Life, Exit, world_of, exit_of, after_new_runner, is_help_error, after_parse, parsed, run,
}

module _ {Frame : Type 0} (sources : Sources) (life : Life Frame) where
  -- The ways in which the program ends.
  pub data Exits (out : Exit Frame) : Type 0 where
    -- the command line asks for help, and nothing else is done
    helped :
        (e : ParseError)
        → parsed sources life ≡ err e
        → is_help_error sources life e ≡ true
        → out ≡ record { code = 0; actions = [] }
        → Exits out
    -- the settings cannot be read or are invalid
    misconfigured :
        (e : ParseError)
        → parsed sources life ≡ err e
        → is_help_error sources life e ≡ false
        → out ≡ record { code = 1; actions = [] }
        → Exits out
    -- the calendar store cannot be opened
    unopened :
        (cfg : AppConfig) (e : StoreError)
        → parsed sources life ≡ ok cfg
        → life.open_store (calendar_path cfg) ≡ err e
        → out ≡ record { code = 1; actions = [] }
        → Exits out
    -- a part of a well-wired runner does not start
    unstarted :
        (cfg : AppConfig) (r : Runner) (heap : Heap)
        → parsed sources life ≡ ok cfg
        → IsValid sources.parse_uri cfg
        → IsWired cfg own r heap
        → out.code ≡ 1
        → (text : Text) × IsStoppedAt (world_of sources life r) start_order (out.actions, some text)
        → Exits out
    -- a well-wired runner serves, and shuts down gracefully
    served :
        (cfg : AppConfig) (r : Runner) (heap : Heap)
        → parsed sources life ≡ ok cfg
        → IsValid sources.parse_uri cfg
        → IsWired cfg own r heap
        → out.code ≡ 0
        → IsServed (world_of sources life r) (out.actions, none)
        → Exits out

  exit_of-Exits :
      (cfg : AppConfig) (r : Runner) (heap : Heap) (out : List (Action Frame) × Option Text)
      → parsed sources life ≡ ok cfg
      → IsValid sources.parse_uri cfg
      → IsWired cfg own r heap
      → Shutdown.Outcome (world_of sources life r) out
      → Exits (exit_of sources life out)
  unfolding exit_of
  exit_of-Exits cfg r heap (actions, none) p v w (inl g) = served cfg r heap p v w refl g
  exit_of-Exits cfg r heap (actions, some e) p v w (inl g) =
      absurd (ground (arith, ap (λ x. x.1) g.served))
  exit_of-Exits cfg r heap (actions, some e) p v w (inr s) = unstarted cfg r heap p v w refl (e, s)
  exit_of-Exits cfg r heap (actions, none) p v w (inr s) =
      absurd (ground (arith, ap (λ x. x.1) s.stopped))

  after_new_runner-Exits :
      (cfg : AppConfig) (b : Built)
      → parsed sources life ≡ ok cfg
      → IsValid sources.parse_uri cfg
      → Outcome life.endpoints sources.parse_uri life.open_store life.heap life.now cfg [] b
      → Exits (after_new_runner sources life b)
  unfolding after_new_runner
  after_new_runner-Exits cfg b p v (invalid e k m) =
      absurd (ground (arith, sym k ∙ (validate_iff sources.parse_uri cfg).1 v))
  after_new_runner-Exits cfg b p v (no_store e w k m) =
      subst (λ x. Exits (after_new_runner sources life x)) (sym m) (unopened cfg e p k refl)
  after_new_runner-Exits cfg b p v (wired ref r h w m i (inl e)) =
      subst (λ x. Exits (after_new_runner sources life x)) (sym m)
        (exit_of-Exits cfg r h _ p v (subst (λ x. IsWired cfg x r h) e i)
          (run-Outcome (world_of sources life r)))
  after_new_runner-Exits cfg b p v (nil_store s m) = absurd s
  after_new_runner-Exits cfg b p v (wired ref r h w m i (inr s)) = absurd s

  parsed-IsValid : (cfg : AppConfig) → parsed sources life ≡ ok cfg → IsValid sources.parse_uri cfg
  unfolding parsed
  parsed-IsValid cfg p =
      (parse-IsValid sources.parse_uri sources.parse_duration sources.parse_bool sources.getenv
        sources.apply_flags cfg p).0

  after_parse-Exits :
      (a : Result ParseError AppConfig)
      → parsed sources life ≡ a
      → Exits (after_parse sources life a)
  unfolding after_parse
  after_parse-Exits (err e) p = elim (Bool-cases (is_help_error sources life e)) [
    | inl h ↦ helped e p h (if_true (is_help_error sources life e) _ _ h)
    | inr h ↦ misconfigured e p h (if_false (is_help_error sources life e) _ _ h)
  ]
  after_parse-Exits (ok cfg) p = after_new_runner-Exits cfg _ p (parsed-IsValid cfg p) (
      new_runner-Outcome life.endpoints sources.parse_uri life.open_store life.heap life.now cfg [])

  -- The program exits with code 0 in two cases only: the command line asks for help, or the settings
  -- are valid, every part of the runner that is wired by them starts, and it shuts down gracefully,
  -- so that no received or buffered frame is lost. Otherwise it exits with code 1: the settings are
  -- unreadable or invalid, or the calendar store cannot be opened, and nothing is started; or a part
  -- does not start, and the parts before it were started and nothing else was done. It does not panic.
  pub run-Exits : Exits (run sources life)
  unfolding run
  run-Exits = after_parse-Exits (parsed sources life) refl
