-- ===== src/Config/Validation.antt =====
-- What the validation accepts, and what it is enough for.
use mathlib.Core.Path.{subst}
use busybar_bridge.Prelude.{
  ◌≡◌, ◌≢◌, ◌↔◌, ◌⊎◌, inl, inr, refl, ap, Bool, true, false, not, ◌&&◌, [], ◌∷◌, Option, none, some,
  arith, Bool-cases, Option-cases,
}
use busybar_bridge.Prelude.Int.{ℤ, pos, ◌≤ℤ◌, ◌<ℤ◌, leb_ℤ}
use busybar_bridge.Prelude.Result.{Result, ok, Result-cases}
use busybar_bridge.Prelude.Text.{Text, codes, is_empty, trim_space, text_eq, text_eq_iff}
use busybar_bridge.Config.App.{
  AppConfig, Url, ConfigError, reject, is_http_url, validate, load_env, checked, parse,
  in_port_range, missing_hass_token, invalid_hass_url, invalid_port, invalid_busy_bar_port,
  invalid_hass_timeout, invalid_shutdown_timeout, invalid_google_redirect_url, invalid_push_timeout,
  invalid_calendar_poll_interval,
}
use busybar_bridge.Hass.Settings
use busybar_bridge.Hass.Settings.{settings_of}
use busybar_bridge.Hass.Client.{default_config}

-- The text is an URL with a host whose scheme is http or https.
pub record IsHttpUrl (parse_uri : Text → Option Url) (s : Text) : Type 0 where
  pub url : Url
  pub parsed : parse_uri s ≡ some url
  pub scheme : (url.scheme ≡ codes "http") ⊎ (url.scheme ≡ codes "https")
  pub host : url.host ≢ []

-- The settings that the bridge can run with.
pub record IsValid (parse_uri : Text → Option Url) (c : AppConfig) : Type 0 where
  pub token : trim_space c.hass_token ≢ []
  pub url : trim_space c.hass_url ≢ []
  pub http : IsHttpUrl parse_uri c.hass_url
  pub redirect : (trim_space c.google_redirect_url ≡ []) ⊎ IsHttpUrl parse_uri c.google_redirect_url
  pub port : (pos 1 ≤ℤ c.port) × (c.port ≤ℤ pos 65535)
  pub busy_bar_port : (pos 1 ≤ℤ c.busy_bar_port) × (c.busy_bar_port ≤ℤ pos 65535)
  pub hass_timeout : pos 0 <ℤ c.hass_timeout
  pub shutdown_timeout : pos 0 <ℤ c.shutdown_timeout
  pub push_timeout : pos 0 <ℤ c.push_timeout
  pub calendar_poll_interval : pos 0 <ℤ c.calendar_poll_interval

is_empty-ne : (s : Text) → is_empty s ≡ false → s ≢ []
is_empty-ne [] h e = ground arith
is_empty-ne (c ∷ s) h e = cc

ne-is_empty : (s : Text) → s ≢ [] → is_empty s ≡ false
ne-is_empty [] h = absurd (h refl)
ne-is_empty (c ∷ s) h = refl

is_empty-eq : (s : Text) → is_empty s ≡ true → s ≡ []
is_empty-eq [] h = refl
is_empty-eq (c ∷ s) h = absurd (ground arith)

is_http_url-IsHttpUrl :
    (parse_uri : Text → Option Url) (s : Text)
    → is_http_url parse_uri s ≡ true
    → IsHttpUrl parse_uri s
unfolding is_http_url
is_http_url-IsHttpUrl parse_uri s h = elim (Option-cases (parse_uri s)) [
  | inl e ↦ absurd (ground arith)
  | inr (u, e) ↦ record {
    url = u;
    parsed = e;
    scheme = elim (Bool-cases (text_eq u.scheme (codes "http"))) [
      | inl k ↦ inl ((text_eq_iff u.scheme (codes "http")).0 k)
      | inr k ↦ inr ((text_eq_iff u.scheme (codes "https")).0 (ground arith))
    ];
    host = is_empty-ne u.host (ground arith);
  }
]

IsHttpUrl-is_http_url :
    (parse_uri : Text → Option Url) (s : Text)
    → IsHttpUrl parse_uri s
    → is_http_url parse_uri s ≡ true
unfolding is_http_url
IsHttpUrl-is_http_url parse_uri s v =
    let p = v.parsed in
    let h = ne-is_empty v.url.host v.host in
    elim v.scheme [
      | inl e ↦ let k = (text_eq_iff v.url.scheme (codes "http")).1 e in ground arith
      | inr e ↦ let k = (text_eq_iff v.url.scheme (codes "https")).1 e in ground arith
    ]

reject-none :
    {E : Type 0} (b : Bool) (e : E) (rest : Option E)
    → reject b e rest ≡ none
    → (b ≡ false) × (rest ≡ none)
unfolding reject
reject-none true e rest h = absurd (ground arith)
reject-none false e rest h = (refl, h)

module _ (parse_uri : Text → Option Url) where
  validate-IsValid : (c : AppConfig) → validate parse_uri c ≡ none → IsValid parse_uri c
  unfolding validate
  validate-IsValid c h =
      let r1 = reject-none (is_empty (trim_space c.hass_token)) missing_hass_token _ h in
      let r2 = reject-none (is_empty (trim_space c.hass_url)) invalid_hass_url _ r1.1 in
      let r3 = reject-none (not (is_http_url parse_uri c.hass_url)) invalid_hass_url _ r2.1 in
      let r4 =
        reject-none
          (not (is_empty (trim_space c.google_redirect_url))
            && not (is_http_url parse_uri c.google_redirect_url))
          invalid_google_redirect_url _ r3.1 in
      let r5 = reject-none (not (in_port_range c.port)) invalid_port _ r4.1 in
      let r6 = reject-none (not (in_port_range c.busy_bar_port)) invalid_busy_bar_port _ r5.1 in
      let r7 = reject-none (leb_ℤ c.hass_timeout (pos 0)) invalid_hass_timeout _ r6.1 in
      let r8 = reject-none (leb_ℤ c.shutdown_timeout (pos 0)) invalid_shutdown_timeout _ r7.1 in
      let r9 = reject-none (leb_ℤ c.push_timeout (pos 0)) invalid_push_timeout _ r8.1 in
      let r10 =
        reject-none (leb_ℤ c.calendar_poll_interval (pos 0)) invalid_calendar_poll_interval _
          r9.1 in
      record {
        token = is_empty-ne _ r1.0;
        url = is_empty-ne _ r2.0;
        http = is_http_url-IsHttpUrl parse_uri c.hass_url (ground arith);
        redirect = elim (Bool-cases (is_empty (trim_space c.google_redirect_url))) [
          | inl e ↦ inl (is_empty-eq _ e)
          | inr e ↦ inr (is_http_url-IsHttpUrl parse_uri c.google_redirect_url (ground arith))
        ];
        port = ground arith;
        busy_bar_port = ground arith;
        hass_timeout = ground arith;
        shutdown_timeout = ground arith;
        push_timeout = ground arith;
        calendar_poll_interval = ground arith;
      }

  IsValid-validate : (c : AppConfig) → IsValid parse_uri c → validate parse_uri c ≡ none
  unfolding validate reject
  IsValid-validate c v =
      let t = ne-is_empty (trim_space c.hass_token) v.token in
      let u = ne-is_empty (trim_space c.hass_url) v.url in
      let h = IsHttpUrl-is_http_url parse_uri c.hass_url v.http in
      elim v.redirect [
        | inl e ↦ let r = ap is_empty e in ground arith
        | inr e ↦ let r = IsHttpUrl-is_http_url parse_uri c.google_redirect_url e in ground arith
      ]

  -- `Validate` accepts exactly the settings that the bridge can run with: a token, an `http` or
  -- `https` URL with a host for Home Assistant, a redirect URL of that form or none, both ports in 1
  -- to 65535, and the three timeouts and the poll interval positive.
  pub validate_iff : (c : AppConfig) → (validate parse_uri c ≡ none) ↔ IsValid parse_uri c
  validate_iff c = (validate-IsValid c, IsValid-validate c)

  -- Settings that the bridge accepts are accepted by its Home Assistant client.
  pub settings_of-validate :
      (c : AppConfig) → IsValid parse_uri c → Settings.validate parse_uri (settings_of c) ≡ none
  unfolding settings_of Settings.validate default_config reject
  settings_of-validate c v =
      let t = ne-is_empty (trim_space c.hass_token) v.token in
      let u = ne-is_empty (trim_space c.hass_url) v.url in
      let h = IsHttpUrl-is_http_url parse_uri c.hass_url v.http in ground arith

module _ (parse_uri : Text → Option Url) (parse_duration : Text → Result Text ℤ)
    (parse_bool : Text → Result Text Bool) where
  checked-ok :
      (c d : AppConfig) (e : Option ConfigError) → checked d e ≡ ok c → (d ≡ c) × (e ≡ none)
  unfolding checked
  checked-ok c d none h = (ground arith, refl)
  checked-ok c d (some x) h = absurd (ground arith)

  -- Whatever the environment and the command line hold: if `Parse` returns settings, they are valid,
  -- and the client for Home Assistant that `NewRunner` builds of them passes its own validation.
  pub parse-IsValid :
      (getenv : Text → Text) (apply_flags : AppConfig → Result Text AppConfig) (c : AppConfig)
      → parse parse_uri parse_duration parse_bool getenv apply_flags ≡ ok c
      → IsValid parse_uri c × (Settings.validate parse_uri (settings_of c) ≡ none)
  unfolding parse
  parse-IsValid getenv apply_flags c h =
      elim (Result-cases (load_env parse_uri parse_duration parse_bool getenv)) [
        | inr (e, k) ↦ absurd (ground arith)
        | inl (d, k) ↦ elim (Result-cases (apply_flags d)) [
          | inr (e, m) ↦ absurd (ground arith)
          | inl (d', m) ↦
              let last : checked d' (validate parse_uri d') ≡ ok c = ground arith in
              let out = checked-ok c d' (validate parse_uri d') last in
              let v = subst (IsValid parse_uri) out.0 (validate-IsValid parse_uri d' out.1) in
              (v, settings_of-validate parse_uri c v)
        ]
      ]
