-- ===== src/Runner/Wiring/Wired.antt =====
-- How the parts of a runner point to each other.
use busybar_bridge.Prelude.{
  ℕ, ◌≡◌, ◌≢◌, refl, sym, ap, Bool, true, false, List, [], ◌∷◌, Option, none, some, arith,
}
use busybar_bridge.Prelude.Int.{pos, ◌≤ℤ◌}
use busybar_bridge.Config.App.{AppConfig, is_oauth_configured}
use busybar_bridge.Hass.Settings.{settings_of}
use busybar_bridge.Server.Setup
use busybar_bridge.Server.Setup.{Server, new_server}
use busybar_bridge.Telemetry.Types
use busybar_bridge.Runner.Parts.{
  StoreRef, own, other, Heap, update, eq_ref, Made, given, built, CalendarPart, ManagerPart,
  PollerPart, DisplayPart, Runner, RunnerOption, with_store, with_busy_bar_client, with_decoder,
  with_hass_client, with_server, with_calendar_store, with_calendar_manager, with_oauth_manager,
  with_calendar_poller, with_push_client, with_display_orchestrator, given_part, apply_option,
  apply_options,
}
use busybar_bridge.Runner.Building.{server_options, set_flags, or_built}
use busybar_bridge.Runner.Wiring.{made, with_parts}

-- A property of a part that NewRunner built, if it is there and no option gave it.
abbrev pub OnBuilt : {A : Type 0} → (A → Type 0) → Option (Made A) → Type 0
OnBuilt P none = Unit {0}
OnBuilt P (some (given n)) = Unit {0}
OnBuilt P (some (built a)) = P a

given_part-OnBuilt : {A : Type 0} (P : A → Type 0) (p : Option ℕ) → OnBuilt P (given_part p)
unfolding given_part
given_part-OnBuilt P none = tt
given_part-OnBuilt P (some n) = tt

or_built-OnBuilt :
    {A : Type 0} (P : A → Type 0) (old : Option (Made A)) (needed : Bool) (new : A)
    → OnBuilt (λ a. ⊥) old
    → (needed ≡ true → P new)
    → OnBuilt P (or_built old needed (built new))
unfolding or_built
or_built-OnBuilt P none true new h k = k refl
or_built-OnBuilt P none false new h k = tt
or_built-OnBuilt P (some (given n)) needed new h k = tt
or_built-OnBuilt P (some (built a)) needed new h k = absurd h

-- Before the parts are added, NewRunner has built the Home Assistant client and none of the poller,
-- the push client, the display and the server.
abbrev pub IsFirst : AppConfig → Runner → Type 0
IsFirst cfg r =
    (r.cfg ≡ cfg)
    × OnBuilt (λ h. (h.store ≡ own) × (h.cfg ≡ settings_of cfg)) r.hass_client
    × OnBuilt (λ a. ⊥) r.calendar_poller
    × OnBuilt (λ a. ⊥) r.push_client
    × OnBuilt (λ a. ⊥) r.display_orch
    × OnBuilt (λ a. ⊥) r.server

module _ (cfg : AppConfig) where
  apply_option-IsFirst :
      (r : Runner) (o : RunnerOption) → IsFirst cfg r → IsFirst cfg (apply_option r o)
  unfolding apply_option
  apply_option-IsFirst r (with_store p) v = v
  apply_option-IsFirst r (with_busy_bar_client p) v = v
  apply_option-IsFirst r (with_decoder p) v = v
  apply_option-IsFirst r (with_calendar_store p) v = v
  apply_option-IsFirst r (with_calendar_manager p) v = v
  apply_option-IsFirst r (with_oauth_manager p) v = v
  apply_option-IsFirst r (with_hass_client p) (s, h, c, u, d, x) =
      (s, given_part-OnBuilt _ p, c, u, d, x)
  apply_option-IsFirst r (with_calendar_poller p) (s, h, c, u, d, x) =
      (s, h, given_part-OnBuilt _ p, u, d, x)
  apply_option-IsFirst r (with_push_client p) (s, h, c, u, d, x) =
      (s, h, c, given_part-OnBuilt _ p, d, x)
  apply_option-IsFirst r (with_display_orchestrator p) (s, h, c, u, d, x) =
      (s, h, c, u, given_part-OnBuilt _ p, x)
  apply_option-IsFirst r (with_server p) (s, h, c, u, d, x) =
      (s, h, c, u, d, given_part-OnBuilt _ p)

  pub apply_options-IsFirst :
      (r : Runner) (os : List RunnerOption) → IsFirst cfg r → IsFirst cfg (apply_options r os)
  unfolding apply_options
  apply_options-IsFirst r [] v = v
  apply_options-IsFirst r (o ∷ os) v =
      apply_options-IsFirst (apply_option r o) os (apply_option-IsFirst r o v)

-- How the parts that NewRunner built point to each other, and what the settings decide.
pub record IsWired (cfg : AppConfig) (ref : StoreRef) (r : Runner) (heap : Heap) : Type 0 where
  pub settings : r.cfg ≡ cfg
  pub store : r.store ≡ some ref
  pub flags :
      ((heap ref).push.enabled ≡ cfg.enable_outbound_push)
      × ((heap ref).calendar_sync.enabled ≡ cfg.enable_calendar_sync)
  -- The Home Assistant client has the store that NewRunner made, also where an option gives another.
  pub hass : OnBuilt (λ h. (h.store ≡ own) × (h.cfg ≡ settings_of cfg)) r.hass_client
  pub has_poller : cfg.enable_calendar_sync ≡ true → r.calendar_poller ≢ none
  pub poller :
      OnBuilt
        (λ p.
          (cfg.enable_calendar_sync ≡ true)
          × (p.enabled ≡ true)
          × (p.store ≡ r.calendar_store)
          × (p.manager ≡ r.calendar_mgr)
          × (p.telemetry ≡ r.store))
        r.calendar_poller
  pub has_push : r.push_client ≢ none
  pub push :
      OnBuilt
        (λ p. (p.cfg.enabled ≡ cfg.enable_outbound_push) × (some p.recorder ≡ r.store))
        r.push_client
  pub has_display :
      cfg.enable_outbound_push ≡ true → cfg.enable_calendar_sync ≡ true → r.display_orch ≢ none
  pub display :
      OnBuilt
        (λ d.
          (cfg.enable_outbound_push ≡ true)
          × (cfg.enable_calendar_sync ≡ true)
          × (d.tracker ≡ r.calendar_poller)
          × (d.push_client ≡ r.push_client))
        r.display_orch
  pub has_server : r.server ≢ none
  pub server :
      OnBuilt
        (λ s.
          (s.cfg.port ≡ cfg.port)
          × (s.store ≡ r.store)
          × (s.calendar_store ≡ r.calendar_store)
          × (s.oauth_mgr ≡ r.calendar_mgr)
          × (s.oauth_configured ≡ some (is_oauth_configured cfg))
          × (s.event_tracker ≡ r.calendar_poller)
          × (s.display_provider ≡ r.display_orch))
        r.server

or_built-some :
    {A : Type 0} (old : Option (Made A)) (needed : Bool) (new : Made A)
    → needed ≡ true
    → or_built old needed new ≢ none
unfolding or_built
or_built-some none true new e h = cc
or_built-some none false new e h = absurd (ground arith)
or_built-some (some p) needed new e h = cc

update-own :
    (heap : Heap) (ref : StoreRef) (f : Types.Store → Types.Store)
    → update heap ref f ref ≡ f (heap ref)
unfolding update eq_ref
update-own heap own f = refl
update-own heap (other n) f = ground arith

-- The server that is built has the parts of the runner.
new_server-parts :
    (cfg : AppConfig) (store : Option StoreRef) (c : Option CalendarPart) (m : Option ManagerPart)
    (t : Option PollerPart) (d : Option DisplayPart)
    → pos 1 ≤ℤ cfg.port
    → let s =
        new_server
          (record Setup.default_config { port = cfg.port })
          store
          (server_options cfg c m t d) in
      (s.cfg.port ≡ cfg.port)
      × (s.store ≡ store)
      × (s.calendar_store ≡ c)
      × (s.oauth_mgr ≡ m)
      × (s.oauth_configured ≡ some (is_oauth_configured cfg))
      × (s.event_tracker ≡ t)
      × (s.display_provider ≡ d)
unfolding new_server server_options Setup.default_config
new_server-parts cfg store c m t d h = ground arith

module _ (cfg : AppConfig) where
  pub with_parts-IsWired :
      (r : Runner) (heap : Heap) (ref : StoreRef)
      → pos 1 ≤ℤ cfg.port
      → r.store ≡ some ref
      → IsFirst cfg r
      → (out : Runner) × (h : Heap) × (with_parts cfg r heap (some ref) ≡ made out h)
        × IsWired cfg ref out h
  unfolding with_parts
  with_parts-IsWired r heap ref n e (s, h, c, u, d, x) = (
    _,
    _,
    refl,
    record {
      settings = s;
      store = e;
      flags = (
        ap (λ (t : Types.Store). t.push.enabled) (update-own heap ref (set_flags cfg)),
        ap (λ (t : Types.Store). t.calendar_sync.enabled) (update-own heap ref (set_flags cfg)),
      );
      hass = h;
      has_poller = or_built-some r.calendar_poller _ _;
      poller = or_built-OnBuilt _ r.calendar_poller _ _ c (λ y. (y, y, refl, refl, refl));
      has_push = or_built-some r.push_client true _ refl;
      push = or_built-OnBuilt _ r.push_client true _ u (λ y. (refl, sym e));
      has_display = λ y z. or_built-some r.display_orch _ _ (ground arith);
      display =
          or_built-OnBuilt _ r.display_orch _ _ d (λ y. (ground arith, ground arith, refl, refl));
      has_server = or_built-some r.server true _ refl;
      server = or_built-OnBuilt _ r.server true _ x (λ y. new_server-parts cfg _ _ _ _ _ n);
    },
  )
