-- ===== src/Busybar/Endpoint/Tests.antt =====
-- The cases of the repository's own tests, and hosts in brackets.
use busybar_bridge.Prelude.{◌∷◌, ◌++◌, arith, ◌≡◌, refl, none, some}
use busybar_bridge.Prelude.Int.{pos}
use busybar_bridge.Prelude.Net.{split_host_port}
use busybar_bridge.Prelude.Text.{codes}
use busybar_bridge.Prelude.Decimal.{itoa}
use busybar_bridge.Prelude.Search.{has_rune}
use busybar_bridge.Busybar.Endpoint.Plain.{
  https, prefix_of, scheme_of, authority, endpoint_url-written,
}
use busybar_bridge.Busybar.Endpoint.{endpoint_url}

plain-run : endpoint_url (codes "10.0.0.1") (pos 80) ≡ codes "ws://10.0.0.1:80/api/status/ws"
unfolding endpoint_url
plain-run = refl

https-run :
    endpoint_url (codes "https://bar:443/x/y//") (pos 8080) ≡ codes "wss://bar:8080/api/status/ws"
unfolding endpoint_url
https-run = refl

brackets-run : endpoint_url (codes "ws://[::1]:99") (pos 0) ≡ codes "ws://[::1]:99/api/status/ws"
unfolding endpoint_url
brackets-run = refl

no_brackets-run : split_host_port (codes "::1") ≡ none
unfolding split_host_port
no_brackets-run = refl

endpoint_url-written_example :
    endpoint_url
      (prefix_of https ++ (authority (codes "bar") (some (codes "443")) ++ codes "/x//"))
      (pos 80)
    ≡ scheme_of https
      ++ (codes "://" ++ ((codes "bar" ++ b':' ∷ itoa (pos 80)) ++ codes "/api/status/ws"))
unfolding has_rune
endpoint_url-written_example =
    endpoint_url-written https (codes "bar") (some (codes "443")) (codes "/x//") (pos 80)
      (record { no_colon = refl; no_slash = refl; no_open = refl; no_close = refl })
      (record { no_colon = refl; no_slash = refl; no_open = refl; no_close = refl }) refl
      (omega arith)
