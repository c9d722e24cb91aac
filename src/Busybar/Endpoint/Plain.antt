-- ===== src/Busybar/Endpoint/Plain.antt =====
-- The endpoint of a host that is written with or without a scheme, a port and a path.
use mathlib.Core.List.{append_assoc, reverse, reverse-cons, reverse-reverse, reverse-append}
use busybar_bridge.Prelude.{
  ℕ, ◌≡◌, inl, inr, refl, sym, ap, ◌∙◌, ◌==◌, Bool, true, false, [], ◌∷◌, ◌++◌, Option, none, some,
  arith, All, All-append, Bool-cases, if_false,
}
use busybar_bridge.Prelude.Decimal.{itoa}
use busybar_bridge.Prelude.Int.{ℤ, pos, ◌<ℤ◌}
use busybar_bridge.Prelude.Net.Plain.{
  IsPlain, has_rune-append, split_host_port-plain, split_host_port-append, join_host_port-plain,
}
use busybar_bridge.Prelude.Search.{starts_with, has_rune}
use busybar_bridge.Prelude.Text.{Text, codes, trim_left, trim_right}
use busybar_bridge.Busybar.Endpoint.{split_scheme, cut_path, host_port, is_slash, endpoint_url}

-- Trimming on the left takes away runes of the set only.
trim_left_split :
    (p : ℕ → Bool) (s : Text) → (w : Text) × (All (λ c. p c ≡ true) w) × (s ≡ w ++ trim_left p s)
unfolding trim_left
trim_left_split p [] = ([], tt, refl)
trim_left_split p (c ∷ s) =
    let (w, h, e) = trim_left_split p s in
    elim (Bool-cases (p c)) [
      | inl y ↦ (c ∷ w, (y, h), ground arith)
      | inr n ↦ ([], tt, ground arith)
    ]

All-reverse :
    (p : ℕ → Bool) (s : Text) → All (λ c. p c ≡ true) s → All (λ c. p c ≡ true) (reverse s)
All-reverse p [] h = tt
All-reverse p (c ∷ s) h =
    rw (reverse-cons c s)
      (All-append (λ c. p c ≡ true) (reverse s) (c ∷ []) (All-reverse p s h.1) (h.0, tt))

trim_right_split :
    (p : ℕ → Bool) (s : Text) → (w : Text) × (All (λ c. p c ≡ true) w) × (s ≡ trim_right p s ++ w)
unfolding trim_right
trim_right_split p s =
    let (w, h, e) = trim_left_split p (reverse s) in
    (
      reverse w,
      All-reverse p w h,
      sym (reverse-reverse s) ∙ ap reverse e ∙ reverse-append w (trim_left p (reverse s)),
    )

-- Slashes at the end do not matter to the host.
cut_path-append : (u w : Text) → All (λ c. is_slash c ≡ true) w → cut_path (u ++ w) ≡ cut_path u
unfolding cut_path is_slash
cut_path-append [] [] h = refl
cut_path-append [] (c ∷ w) h = ground arith
cut_path-append (c ∷ u) w h = ground (arith, cut_path-append u w h)

cut_path-trim_right : (s : Text) → cut_path (trim_right is_slash s) ≡ cut_path s
cut_path-trim_right s =
    let (w, h, e) = trim_right_split is_slash s in
    sym (cut_path-append (trim_right is_slash s) w h) ∙ ap cut_path (sym e)

-- A path: nothing, or a slash and more.
abbrev pub IsPath : Text → Type 0
IsPath [] = Unit {0}
IsPath (c ∷ s) = c ≡ b'/'

cut_path-path : (a path : Text) → has_rune b'/' a ≡ false → IsPath path → cut_path (a ++ path) ≡ a
unfolding cut_path has_rune
cut_path-path [] [] h k = refl
cut_path-path [] (c ∷ path) h k = ground arith
cut_path-path (c ∷ a) path h k = ground (arith, cut_path-path a path)

-- The ways to write a scheme in front of the host, and the schemes of the URLs.
pub data Written : Type 0 where
  bare http https ws wss : Written

abbrev pub prefix_of : Written → Text
prefix_of bare = []
prefix_of http = codes "http://"
prefix_of https = codes "https://"
prefix_of ws = codes "ws://"
prefix_of wss = codes "wss://"

abbrev pub scheme_of : Written → Text
scheme_of bare = codes "ws"
scheme_of http = codes "ws"
scheme_of https = codes "wss"
scheme_of ws = codes "ws"
scheme_of wss = codes "wss"

-- A host, with a port or without.
abbrev pub authority : Text → Option Text → Text
authority h none = h
authority h (some p) = h ++ b':' ∷ p

-- A port is not empty.
abbrev pub IsPort : Option Text → Type 0
IsPort none = Unit {0}
IsPort (some []) = ⊥
IsPort (some (c ∷ p)) = IsPlain (c ∷ p)

host_port-authority :
    (h : Text) (e : Option Text) (port : ℤ)
    → IsPlain h
    → IsPort e
    → pos 0 <ℤ port
    → host_port (authority h e) port ≡ h ++ b':' ∷ itoa port
unfolding host_port
host_port-authority h none port v w n =
    ground (arith, split_host_port-plain h v, join_host_port-plain h (itoa port) v)
host_port-authority h (some []) port v w n = absurd w
host_port-authority h (some (c ∷ p)) port v w n =
    ground (arith, split_host_port-append h (c ∷ p) v w, join_host_port-plain h (itoa port) v)

-- A host without a colon does not begin with a scheme, and neither does a host with a port.
starts_with-path :
    (w q h path : Text)
    → has_rune b'/' w ≡ false
    → has_rune b':' h ≡ false
    → IsPath path
    → starts_with (w ++ b':' ∷ q) (h ++ path) ≡ false
unfolding starts_with has_rune
starts_with-path [] q [] [] a b k = refl
starts_with-path [] q [] (c ∷ path) a b k = ground arith
starts_with-path [] q (c ∷ h) path a b k = ground arith
starts_with-path (x ∷ w) q [] [] a b k = refl
starts_with-path (x ∷ w) q [] (c ∷ path) a b k = ground arith
starts_with-path (x ∷ w) q (c ∷ h) path a b k = ground (arith, starts_with-path w q h path)

starts_with-port :
    (w q h : Text) (c : ℕ) (t : Text)
    → has_rune b':' w ≡ false
    → has_rune b':' h ≡ false
    → (b'/' == c) ≡ false
    → starts_with (w ++ b':' ∷ b'/' ∷ q) (h ++ b':' ∷ c ∷ t) ≡ false
unfolding starts_with has_rune
starts_with-port [] q [] c t a b k = ground arith
starts_with-port [] q (d ∷ h) c t a b k = ground arith
starts_with-port (x ∷ w) q [] c t a b k = ground arith
starts_with-port (x ∷ w) q (d ∷ h) c t a b k = ground (arith, starts_with-port w q h c t)

no_slash-head : (c : ℕ) (p : Text) → has_rune b'/' (c ∷ p) ≡ false → (b'/' == c) ≡ false
unfolding has_rune
no_slash-head c p h = ground arith

starts_with-authority :
    (w q h : Text) (e : Option Text) (path : Text)
    → has_rune b'/' w ≡ false
    → has_rune b':' w ≡ false
    → IsPlain h
    → IsPort e
    → IsPath path
    → starts_with (w ++ b':' ∷ b'/' ∷ q) (authority h e ++ path) ≡ false
starts_with-authority w q h none path a b v k l =
    starts_with-path w (b'/' ∷ q) h path a v.no_colon l
starts_with-authority w q h (some []) path a b v k l = absurd k
starts_with-authority w q h (some (c ∷ p)) path a b v k l =
    ap (starts_with (w ++ b':' ∷ b'/' ∷ q)) (append_assoc h (b':' ∷ c ∷ p) path)
    ∙ starts_with-port w q h c (p ++ path) b v.no_colon (no_slash-head c p k.no_slash)

split_scheme-written :
    (w : Written) (h : Text) (e : Option Text) (path : Text)
    → IsPlain h
    → IsPort e
    → IsPath path
    → split_scheme (prefix_of w ++ (authority h e ++ path)) ≡ (scheme_of w, authority h e ++ path)
unfolding split_scheme has_rune
split_scheme-written bare h e path v k l =
    if_false _ _ _ (starts_with-authority (codes "http") (codes "/") h e path refl refl v k l)
    ∙ if_false _ _ _ (starts_with-authority (codes "https") (codes "/") h e path refl refl v k l)
    ∙ if_false _ _ _ (starts_with-authority (codes "ws") (codes "/") h e path refl refl v k l)
    ∙ if_false _ _ _ (starts_with-authority (codes "wss") (codes "/") h e path refl refl v k l)
split_scheme-written http h e path v k l = refl
split_scheme-written https h e path v k l = refl
split_scheme-written ws h e path v k l = refl
split_scheme-written wss h e path v k l = refl

authority-no_slash :
    (h : Text) (e : Option Text) → IsPlain h → IsPort e → has_rune b'/' (authority h e) ≡ false
unfolding has_rune
authority-no_slash h none v k = v.no_slash
authority-no_slash h (some []) v k = absurd k
authority-no_slash h (some (c ∷ p)) v k = ground (arith, has_rune-append b'/' h (b':' ∷ c ∷ p))

-- The endpoint of a plain host, written bare or after `http://`, `https://`, `ws://` or `wss://`,
-- with or without a port of its own, and with or without a path: `ws`, or `wss` for `https` and
-- `wss`, then the host with the port of the settings, if that is positive, and `/api/status/ws`.
pub endpoint_url-written :
    (w : Written) (h : Text) (e : Option Text) (path : Text) (port : ℤ)
    → IsPlain h
    → IsPort e
    → IsPath path
    → pos 0 <ℤ port
    → endpoint_url (prefix_of w ++ (authority h e ++ path)) port
      ≡ scheme_of w ++ (codes "://" ++ ((h ++ b':' ∷ itoa port) ++ codes "/api/status/ws"))
unfolding endpoint_url
endpoint_url-written w h e path port v k l n =
    ap
      (λ (x : Text × Text).
        x.0
        ++ (codes "://"
            ++ (host_port (cut_path (trim_right is_slash x.1)) port ++ codes "/api/status/ws")))
      (split_scheme-written w h e path v k l)
    ∙ ap (λ t. scheme_of w ++ (codes "://" ++ (host_port t port ++ codes "/api/status/ws")))
        (cut_path-trim_right (authority h e ++ path)
          ∙ cut_path-path (authority h e) path (authority-no_slash h e v k) l)
    ∙ ap (λ t. scheme_of w ++ (codes "://" ++ (t ++ codes "/api/status/ws")))
        (host_port-authority h e port v k n)
