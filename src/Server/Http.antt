-- ===== src/Server/Http.antt =====
-- internal/server/server.go: requests and replies, as far as the handlers use them.
use busybar_bridge.Prelude.{ℕ, Bool, ◌||◌, List, Option, none, some}
use busybar_bridge.Prelude.Map.{lookup}
use busybar_bridge.Prelude.Text.{Text, codes, text_eq}

pub record Request : Type 0 where
  pub method : Text
  -- the query, with the first value of each key
  pub query : List (Text × Text)
  -- the value of the cookie `oauth_state`, if it was sent
  pub oauth_state : Option Text

-- `r.URL.Query().Get(k)`
unfoldable pub query_get : Request → Text → Text
unfolding lookup
query_get r k = elim (lookup k r.query) [ none ↦ codes "" | some v ↦ v ]

-- `r.Method == http.MethodGet || r.Method == http.MethodHead`
unfoldable pub is_get_or_head : Request → Bool
unfolding text_eq
is_get_or_head r = text_eq r.method (codes "GET") || text_eq r.method (codes "HEAD")

-- What a reply does to the cookie `oauth_state`.
pub data Cookie : Type 0 where
  kept cleared : Cookie
  set : Text → Cookie

pub record Reply : Type 0 where
  pub status : ℕ
  pub location : Option Text
  pub cookie : Cookie
  pub body : Text

-- http.Error and http.Redirect
abbrev pub error_reply : Text → ℕ → Reply
error_reply body status = record { status = status; location = none; cookie = kept; body = body }

abbrev pub redirect : Text → ℕ → Reply
redirect location status = record {
  status = status;
  location = some location;
  cookie = kept;
  body = codes "";
}

-- clearStateCookie, before the reply is written
abbrev pub clearing : Reply → Reply
clearing r = record r { cookie = cleared }
