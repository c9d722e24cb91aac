-- ===== src/Server/Routes/Guarded.antt =====
-- What a request to the server can do.
use busybar_bridge.Prelude.{
  ◌≡◌, ◌≢◌, ◌⊎◌, inl, inr, refl, sym, ap, ◌∙◌, Bool, false, not, ◌&&◌, List, [], ◌∷◌, Option, none,
  some, arith, All, if_true, if_false, Bool-cases,
}
use busybar_bridge.Prelude.Result.{Result, err}
use busybar_bridge.Prelude.Text.{Text, codes, text_eq, text_eq_iff}
use busybar_bridge.Calendar.Store.{CalendarBinding, Disk, Calls}
use busybar_bridge.Server.Http.{Request, is_get_or_head, error_reply}
use busybar_bridge.Server.Oauth.{
  Called, store_is_bound, is_oauth_configured, handle_login, handle_callback,
}
use busybar_bridge.Server.Oauth.Linking.{Linked, handle_callback-Linked}
use busybar_bridge.Server.Page.{PageWorld, StatusData, handle_status}
use busybar_bridge.Server.Probes.{handle_healthz, handle_ready}
use busybar_bridge.Server.Routes.{
  LiveServer, Manager, Route, healthz, ready, status, oauth_login, oauth_callback, route_of,
  exchange_of, login, Served, serve_route, serve,
}

text_eq-ne : (a b : Text) → a ≢ b → text_eq a b ≡ false
text_eq-ne a b h = elim (Bool-cases (text_eq a b)) [
  | inl e ↦ absurd (h ((text_eq_iff a b).0 e))
  | inr e ↦ e
]

-- The paths that have a handler of their own, and the two paths of the status page.
abbrev pub known_paths : List Text
known_paths =
    codes "/healthz"
    ∷ codes "/ready"
    ∷ codes "/oauth/google/login"
    ∷ codes "/oauth/google/callback"
    ∷ codes "/status"
    ∷ codes "/"
    ∷ []

route_of-callback :
    (path : Text) → route_of path ≡ oauth_callback → path ≡ codes "/oauth/google/callback"
unfolding route_of
route_of-callback path h = elim (Bool-cases (text_eq path (codes "/oauth/google/callback"))) [
  | inl e ↦ (text_eq_iff path (codes "/oauth/google/callback")).0 e
  | inr e ↦ absurd (ground arith)
]

route_of-unknown : (path : Text) → All (λ p. path ≢ p) known_paths → route_of path ≡ status
unfolding route_of
route_of-unknown path (a, (b, (c, (d, t)))) =
    if_false _ _ _ (text_eq-ne path (codes "/healthz") a)
    ∙ if_false _ _ _ (text_eq-ne path (codes "/ready") b)
    ∙ if_false _ _ _ (text_eq-ne path (codes "/oauth/google/login") c)
    ∙ if_false _ _ _ (text_eq-ne path (codes "/oauth/google/callback") d)

module _ {Bytes : Type 0} (marshal : CalendarBinding → Option Bytes) (dir : Text → Text)
    (escape : Text → Text) (w : PageWorld) (calls : Calls Bytes) (s : LiveServer)
    (disk : Disk Bytes) (path : Text) (r : Request) where
  pub record IsGuarded (out : Served Bytes) : Type 0 where
    -- Only the OAuth callback changes the calendar store.
    pub linked :
        ((out.calendar_store ≡ s.calendar_store) × (out.disk.file ≡ disk.file))
        ⊎ ((path ≡ codes "/oauth/google/callback")
            × Linked marshal dir escape calls s.calendar_store (exchange_of s.oauth_mgr) r (
                handle_callback marshal dir escape calls s.calendar_store disk
                  (exchange_of s.oauth_mgr)
                  r))
    -- Other methods than GET and HEAD are refused.
    pub refused :
        is_get_or_head r ≡ false
        → (out.reply ≡ some (error_reply (codes "Method Not Allowed") 405))
          ⊎ (out.reply ≡ some (error_reply (codes "404 page not found") 404))
    -- A path without a handler is not found.
    pub unknown :
        All (λ p. path ≢ p) known_paths
        → out.reply ≡ some (error_reply (codes "404 page not found") 404)

  handle_status-unknown :
      (d : StatusData)
      → All (λ p. path ≢ p) known_paths
      → handle_status w path d r ≡ error_reply (codes "404 page not found") 404
  unfolding handle_status
  handle_status-unknown d (a₀, (a₁, (a₂, (a₃, (e, (f, t)))))) =
      if_true (not (text_eq path (codes "/status")) && not (text_eq path (codes "/"))) _ _
        (ground (arith, text_eq-ne path (codes "/status") e, text_eq-ne path (codes "/") f))

  handle_status-refused :
      (d : StatusData)
      → is_get_or_head r ≡ false
      → (handle_status w path d r ≡ error_reply (codes "Method Not Allowed") 405)
        ⊎ (handle_status w path d r ≡ error_reply (codes "404 page not found") 404)
  unfolding handle_status
  handle_status-refused d g =
      let other : Bool = not (text_eq path (codes "/status")) && not (text_eq path (codes "/")) in
      elim (Bool-cases other) [
        | inl e ↦ inr (if_true other _ _ e)
        | inr e ↦ inl (if_false other _ _ e ∙ if_true (not (is_get_or_head r)) _ _ (ground arith))
      ]

  probes-refused :
      is_get_or_head r ≡ false
      → (handle_healthz r ≡ error_reply (codes "Method Not Allowed") 405)
        × (handle_ready s.store r ≡ error_reply (codes "Method Not Allowed") 405)
  unfolding handle_healthz handle_ready
  probes-refused g = (
    if_true (not (is_get_or_head r)) _ _ (ground arith),
    if_true (not (is_get_or_head r)) _ _ (ground arith),
  )

  handle_login-refused :
      (configured : Option Bool) (generated : Result Text (Text × Text))
      → is_get_or_head r ≡ false
      → handle_login s.calendar_store s.oauth_configured configured generated r
        ≡ error_reply (codes "Method Not Allowed") 405
  unfolding handle_login
  handle_login-refused configured generated g = if_true (not (is_get_or_head r)) _ _ (ground arith)

  login-refused :
      (m : Option Manager)
      → is_get_or_head r ≡ false
      → login marshal dir escape w s r m ≡ some (error_reply (codes "Method Not Allowed") 405)
  unfolding login
  login-refused (some m) g = ap (λ x. some x) (handle_login-refused _ _ g)
  login-refused none g =
      if_false
        (is_get_or_head r
          && not (store_is_bound s.calendar_store)
          && is_oauth_configured s.oauth_configured none)
        _ _ (ground arith)
      ∙ ap (λ x. some x) (handle_login-refused none (err []) g)

  handle_callback-refused :
      is_get_or_head r ≡ false
      → (handle_callback marshal dir escape calls s.calendar_store disk
          (exchange_of s.oauth_mgr)
          r).reply
        ≡ error_reply (codes "Method Not Allowed") 405
  unfolding handle_callback
  handle_callback-refused g =
      ap (λ (x : Called Bytes). x.reply) (if_true (not (is_get_or_head r)) _ _ (ground arith))

  -- A path with a handler of its own is known.
  known :
      {P : Type 0} (route : Route)
      → route_of path ≡ route
      → route ≢ status
      → All (λ p. path ≢ p) known_paths
      → P
  known route e n u = absurd (n (sym e ∙ route_of-unknown path u))

  serve_route-IsGuarded :
      (route : Route)
      → route_of path ≡ route
      → IsGuarded (serve_route marshal dir escape w calls s disk path r route)
  unfolding serve_route
  serve_route-IsGuarded healthz e = record {
    linked = inl (refl, refl);
    refused = λ g. inl (ap (λ x. some x) (probes-refused g).0);
    unknown = known healthz e (λ h. cc);
  }
  serve_route-IsGuarded ready e = record {
    linked = inl (refl, refl);
    refused = λ g. inl (ap (λ x. some x) (probes-refused g).1);
    unknown = known ready e (λ h. cc);
  }
  serve_route-IsGuarded status e = record {
    linked = inl (refl, refl);
    refused = λ g. elim (handle_status-refused _ g) [
      | inl x ↦ inl (ap (λ y. some y) x)
      | inr x ↦ inr (ap (λ y. some y) x)
    ];
    unknown = λ u. ap (λ x. some x) (handle_status-unknown _ u);
  }
  serve_route-IsGuarded oauth_login e = record {
    linked = inl (refl, refl);
    refused = λ g. inl (login-refused s.oauth_mgr g);
    unknown = known oauth_login e (λ h. cc);
  }
  serve_route-IsGuarded oauth_callback e = record {
    linked =
        elim (handle_callback-Linked marshal dir escape calls s.calendar_store disk
          (exchange_of s.oauth_mgr) r) [
            | inl v ↦ inl (v.store_kept, v.file_kept)
            | inr v ↦ inr (route_of-callback path e, v)
          ];
    refused = λ g. inl (ap (λ x. some x) (handle_callback-refused g));
    unknown = known oauth_callback e (λ h. cc);
  }

  -- What any request to the server can do. The calendar store and its file stay as they are, except
  -- that the OAuth callback may link an unbound store on its conditions; a request that is neither
  -- GET nor HEAD is answered with 405, or with 404; and a path that is none of the five handlers'
  -- and not `/` is answered with 404.
  pub serve-IsGuarded : IsGuarded (serve marshal dir escape w calls s disk path r)
  unfolding serve
  serve-IsGuarded = serve_route-IsGuarded (route_of path) refl
