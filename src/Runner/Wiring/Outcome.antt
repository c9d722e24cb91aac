-- ===== src/Runner/Wiring/Outcome.antt =====
-- What NewRunner comes to, whatever its options.
use busybar_bridge.Prelude.{
  ℕ, ◌≡◌, ◌⊎◌, inl, inr, refl, sym, List, [], ◌∷◌, Option, none, some, arith, Some,
}
use mathlib.Core.Path.{subst}
use mathlib.Core.Option.{some-injective}
use busybar_bridge.Prelude.Int.{ℤ}
use busybar_bridge.Prelude.Result.{Result, ok, err}
use busybar_bridge.Prelude.Text.{Text}
use busybar_bridge.Calendar.Store
use busybar_bridge.Calendar.Store.{StoreError}
use busybar_bridge.Config.App.{AppConfig, Url, ConfigError, validate}
use busybar_bridge.Config.Validation.{IsValid, validate_iff, settings_of-validate}
use busybar_bridge.Runner.Parts.{
  StoreRef, own, Heap, Runner, RunnerOption, with_store, with_busy_bar_client, with_decoder,
  with_hass_client, with_server, with_calendar_store, with_calendar_manager, with_oauth_manager,
  with_calendar_poller, with_push_client, with_display_orchestrator, given_store, apply_option,
  apply_options,
}
use busybar_bridge.Runner.Wiring.{
  invalid_config, no_calendar_store, Built, panicked, failed, made, with_parts, Endpoints,
  first_runner, first_heap, with_hass, with_calendar, calendar_path, with_validation, new_runner,
}
use busybar_bridge.Runner.Wiring.Wired.{IsFirst, IsWired, apply_options-IsFirst, with_parts-IsWired}

store_head :
    (r : Runner) (o : RunnerOption) (os : List RunnerOption)
    → let after = (apply_options (apply_option r o) os).store in
      (after ≡ (apply_option r o).store)
      → (after ≡ r.store)
        ⊎ Some (λ o. (p : Option ℕ) × (o ≡ with_store p) × (after ≡ given_store p)) (o ∷ os)
unfolding apply_option
store_head r (with_store p) os e = inr (inl (p, refl, e))
store_head r (with_busy_bar_client p) os e = inl e
store_head r (with_decoder p) os e = inl e
store_head r (with_hass_client p) os e = inl e
store_head r (with_server p) os e = inl e
store_head r (with_calendar_store p) os e = inl e
store_head r (with_calendar_manager p) os e = inl e
store_head r (with_oauth_manager p) os e = inl e
store_head r (with_calendar_poller p) os e = inl e
store_head r (with_push_client p) os e = inl e
store_head r (with_display_orchestrator p) os e = inl e

-- The store of the runner is the one that NewRunner makes, or the last one that an option gives.
store_after :
    (r : Runner) (os : List RunnerOption)
    → let after = (apply_options r os).store in
      (after ≡ r.store)
      ⊎ Some (λ o. (p : Option ℕ) × (o ≡ with_store p) × (after ≡ given_store p)) os
unfolding apply_options
store_after r [] = inl refl
store_after r (o ∷ os) = elim (store_after (apply_option r o) os) [
  | inl e ↦ store_head r o os e
  | inr s ↦ inr (inr s)
]

Some-map :
    {A : Type 0} (P Q : A → Type 0) → ((x : A) → P x → Q x) → (xs : List A) → Some P xs → Some Q xs
Some-map P Q f [] s = s
Some-map P Q f (x ∷ xs) (inl h) = inl (f x h)
Some-map P Q f (x ∷ xs) (inr s) = inr (Some-map P Q f xs s)

-- An option that gives the runner another store, or nil.
abbrev pub IsStoreOption : RunnerOption → Type 0
IsStoreOption o = (p : Option ℕ) × (o ≡ with_store p)

module _ (endpoints : Endpoints) (parse_uri : Text → Option Url)
    (open_store : Text → Result StoreError Store.Store) (heap : Heap) (now : ℤ) (cfg : AppConfig)
    (options : List RunnerOption) where
  -- The four ends of NewRunner.
  pub data Outcome (out : Built) : Type 0 where
    invalid :
        (e : ConfigError)
        → validate parse_uri cfg ≡ some e
        → out ≡ failed (invalid_config e)
        → Outcome out
    no_store :
        (e : StoreError)
        → IsValid parse_uri cfg
        → open_store (calendar_path cfg) ≡ err e
        → out ≡ failed (no_calendar_store e)
        → Outcome out
    nil_store : Some (λ o. o ≡ with_store none) options → out ≡ panicked → Outcome out
    wired :
        (ref : StoreRef) (r : Runner) (h : Heap)
        → IsValid parse_uri cfg
        → out ≡ made r h
        → IsWired cfg ref r h
        → (ref ≡ own) ⊎ Some IsStoreOption options
        → Outcome out

  nil_given :
      (o : RunnerOption) (p : Option ℕ)
      → o ≡ with_store p
      → none ≡ given_store p
      → o ≡ with_store none
  unfolding given_store
  nil_given o none e k = e
  nil_given o (some n) e k = absurd (ground arith)

  origin :
      (ref : StoreRef)
      → (some ref ≡ some own)
        ⊎ Some (λ o. (p : Option ℕ) × (o ≡ with_store p) × (some ref ≡ given_store p)) options
      → (ref ≡ own) ⊎ Some IsStoreOption options
  origin ref (inl e) = inl (some-injective _ _ e)
  origin ref (inr s) = inr (Some-map _ _ (λ o k. (k.0, k.1)) options s)

  first_runner-IsFirst : (store : Store.Store) → IsFirst cfg (first_runner endpoints cfg store)
  unfolding first_runner
  first_runner-IsFirst store = (refl, (refl, refl), tt, tt, tt, tt)

  with_store-Outcome :
      (r : Runner) (store : Option StoreRef)
      → IsValid parse_uri cfg
      → IsFirst cfg r
      → r.store ≡ store
      → (store ≡ some own)
        ⊎ Some (λ o. (p : Option ℕ) × (o ≡ with_store p) × (store ≡ given_store p)) options
      → Outcome (with_parts cfg r (first_heap endpoints cfg heap now) store)
  unfolding with_parts
  with_store-Outcome r none v f e (inl k) = absurd (ground arith)
  with_store-Outcome r none v f e (inr s) =
      nil_store (Some-map _ _ (λ o k. nil_given o k.0 k.1 k.2) options s) refl
  with_store-Outcome r (some ref) v f e s =
      let (out, h, made_it, w) =
        with_parts-IsWired cfg r (first_heap endpoints cfg heap now) ref v.port.0 e f in
      wired ref out h v made_it w (origin ref s)

  with_calendar-Outcome :
      (answer : Result StoreError Store.Store)
      → IsValid parse_uri cfg
      → open_store (calendar_path cfg) ≡ answer
      → Outcome (with_calendar endpoints cfg parse_uri heap now options answer)
  unfolding with_calendar with_hass
  with_calendar-Outcome (err e) v k = no_store e v k refl
  with_calendar-Outcome (ok store) v k =
      subst (λ x. Outcome (with_hass endpoints cfg heap now options store x))
        (sym (settings_of-validate parse_uri cfg v))
        (with_store-Outcome _ _ v
          (apply_options-IsFirst cfg (first_runner endpoints cfg store) options
            (first_runner-IsFirst store))
          refl (store_after (first_runner endpoints cfg store) options))

  with_validation-Outcome :
      (e : Option ConfigError)
      → validate parse_uri cfg ≡ e
      → Outcome (with_validation endpoints cfg parse_uri open_store heap now options e)
  unfolding with_validation
  with_validation-Outcome (some e) k = invalid e k refl
  with_validation-Outcome none k = with_calendar-Outcome _ ((validate_iff parse_uri cfg).0 k) refl

  -- NewRunner on any settings and options. It fails for one of two reasons: the settings are invalid,
  -- or the calendar store cannot be opened; never at the Home Assistant client. It panics only where
  -- an option gives a nil telemetry store. Otherwise the parts that it builds are wired: the server
  -- points to the runner's own stores, manager, poller and display; the poller and the display are
  -- built if their features are enabled, with the runner's parts; the push client, the poller and the
  -- server record into the runner's telemetry store, where both features are flagged; the Home
  -- Assistant client records into the store that NewRunner made, which is the runner's unless an
  -- option gives another.
  pub new_runner-Outcome :
      Outcome (new_runner endpoints parse_uri open_store heap now (some cfg) options)
  unfolding new_runner
  new_runner-Outcome = with_validation-Outcome (validate parse_uri cfg) refl
