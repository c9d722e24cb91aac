-- ===== src/Busybar/Client/Backoff.antt =====
-- The delays between two connections.
use mathlib.Core.Path.{subst}
use busybar_bridge.Prelude.{
  ℕ, ◌+◌, ◌%◌, ◌^◌, ◌≡◌, refl, sym, Bool, false, ◌&&◌, List, [], ◌∷◌, Option, none, some, inc64,
  arith, All, All-append, if-cases, if◌then◌else◌,
}
use busybar_bridge.Prelude.Int.{ℤ, pos, ◌≤ℤ◌, ◌<ℤ◌, ltb_ℤ, leb_ℤ}
use busybar_bridge.Busybar.Client.{
  Config, ConnectionStatus, Client, default_config, or_default, fill_config, new_client,
  calculate_backoff, Session, after_connect, Round, back_off, round, run,
}

-- A delay from 0 to the maximum.
abbrev pub IsDelay : Config → ℤ → Type 0
IsDelay cfg d = (pos 0 ≤ℤ d) × (d ≤ℤ cfg.max_backoff)

-- The jitter scales a positive duration by a factor from 0 to 1.
abbrev pub IsJitter : (ℤ → ℤ) → Type 0
IsJitter jitter = (d : ℤ) → pos 0 <ℤ d → (pos 0 ≤ℤ jitter d) × (jitter d ≤ℤ d)

calculate_backoff-IsDelay :
    (jitter : ℤ → ℤ) (cfg : Config) (current : ℤ)
    → IsJitter jitter
    → pos 0 <ℤ cfg.max_backoff
    → IsDelay cfg (calculate_backoff jitter current cfg.max_backoff)
unfolding calculate_backoff
calculate_backoff-IsDelay jitter cfg current j h =
    if-cases (λ e. IsDelay cfg (if leb_ℤ e (pos 0) then pos 0 else jitter e))
      (ltb_ℤ (pos 0) cfg.max_backoff && ltb_ℤ cfg.max_backoff current) _ _
      (λ e. ground (arith, j cfg.max_backoff h, h))
      (λ e.
        if-cases (IsDelay cfg) (leb_ℤ current (pos 0)) _ _ (λ k. ground arith)
          (λ k. ground (arith, e, h, k, j current (ground arith))))

-- What the loop keeps.
pub record IsSteady (cfg : Config) (n : ℕ) (c : Client) : Type 0 where
  pub config : c.cfg ≡ cfg
  pub positive : pos 0 <ℤ cfg.max_backoff
  pub counted : c.status.reconnect_count ≡ n % 2 ^ 64
  pub disconnected : c.status.connected ≡ false

reconnect_count-after_connect :
    (s : ConnectionStatus) (t : Option ℤ) → (after_connect s t).reconnect_count ≡ s.reconnect_count
unfolding after_connect
reconnect_count-after_connect s none = refl
reconnect_count-after_connect s (some t) = refl

-- A round with good sleeps.
record IsGoodRound (cfg : Config) (n : ℕ) (r : Round) : Type 0 where
  steady : IsSteady cfg n r.client
  sleeps : All (IsDelay cfg) r.slept

back_off-IsGoodRound :
    (jitter scale : ℤ → ℤ) (cfg : Config) (n : ℕ) (c : Client) (current : ℤ) (done_in_sleep : Bool)
    → IsJitter jitter
    → IsSteady cfg n c
    → IsGoodRound cfg n (back_off jitter scale c current done_in_sleep)
unfolding back_off
back_off-IsGoodRound jitter scale cfg n c current done_in_sleep j v = record {
  steady = record {
    config = v.config;
    positive = v.positive;
    counted = v.counted;
    disconnected = v.disconnected;
  };
  sleeps = (
    subst (λ x. IsDelay cfg (calculate_backoff jitter current x.max_backoff)) (sym v.config)
        (calculate_backoff-IsDelay jitter cfg current j v.positive),
    tt,
  );
}

round-IsGoodRound :
    (jitter scale : ℤ → ℤ) (cfg : Config) (n : ℕ) (c : Client) (session : Session)
    → IsJitter jitter
    → IsSteady cfg n c
    → IsGoodRound cfg (n + 1) (round jitter scale c session)
unfolding round
round-IsGoodRound jitter scale cfg n c session j v =
    let s = after_connect c.status session.connected_at in
    let status = record s {
      connected = false;
      last_disconnected_at = session.ended_at;
      reconnect_count = inc64 s.reconnect_count;
    } in
    let steady : IsSteady cfg (n + 1) (record c { status = status }) = record {
      config = v.config;
      positive = v.positive;
      counted =
          omega (arith, v.counted, reconnect_count-after_connect c.status session.connected_at);
      disconnected = refl;
    } in
    if-cases (IsGoodRound cfg (n + 1)) session.done_after _ _
      (λ e. record { steady = steady; sleeps = tt })
      (λ e. back_off-IsGoodRound jitter scale cfg (n + 1) _ _ session.done_in_sleep j steady)

-- What a run leaves.
pub record IsGoodRun (cfg : Config) (n : ℕ) (out : Client × List ℤ × ℕ) : Type 0 where
  pub steady : IsSteady cfg (n + out.2) out.0
  pub sleeps : All (IsDelay cfg) out.1

run-IsGoodRun :
    (jitter scale : ℤ → ℤ) (cfg : Config) (n : ℕ) (c : Client) (sessions : List Session)
    → IsJitter jitter
    → IsSteady cfg n c
    → IsGoodRun cfg n (run jitter scale c sessions)
unfolding run
run-IsGoodRun jitter scale cfg n c [] j v = record {
  steady = subst (λ m. IsSteady cfg m c) (omega arith) v;
  sleeps = tt;
}
run-IsGoodRun jitter scale cfg n c (session ∷ rest) j v =
    let r = round jitter scale c session in
    let g = round-IsGoodRound jitter scale cfg n c session j v in
    let more = run-IsGoodRun jitter scale cfg (n + 1) r.client rest j g.steady in
    if-cases (IsGoodRun cfg n) r.goes_on _ _
      (λ e. record {
        steady =
            subst (λ m. IsSteady cfg m (run jitter scale r.client rest).0) (omega arith)
              more.steady;
        sleeps = All-append (IsDelay cfg) r.slept _ g.sleeps more.sleeps;
      })
      (λ e. record { steady = g.steady; sleeps = g.sleeps })

fill_config-positive : (cfg : Config) → pos 0 <ℤ (fill_config cfg).max_backoff
unfolding fill_config or_default default_config
fill_config-positive cfg = ground arith

new_client-IsSteady : (cfg : Config) → IsSteady (fill_config cfg) 0 (new_client cfg)
unfolding new_client
new_client-IsSteady cfg = record {
  config = refl;
  positive = fill_config-positive cfg;
  counted = refl;
  disconnected = refl;
}

-- Whatever connections a new client makes, whatever its settings and however the backoff is scaled:
-- every sleep between two of them is from 0 to the maximal backoff of the filled settings, which is
-- positive; the reconnect counter is the number of connections (modulo 2^64); and between connections
-- the status is not connected. The jitter does not lengthen a delay.
pub run-new_client-IsGoodRun :
    (jitter scale : ℤ → ℤ) (cfg : Config) (sessions : List Session)
    → IsJitter jitter
    → IsGoodRun (fill_config cfg) 0 (run jitter scale (new_client cfg) sessions)
run-new_client-IsGoodRun jitter scale cfg sessions j =
    run-IsGoodRun jitter scale (fill_config cfg) 0 (new_client cfg) sessions j
      (new_client-IsSteady cfg)
