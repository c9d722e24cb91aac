-- ===== src/Busybar/Endpoint.antt =====
-- internal/busybar/client.go: `endpointURL`.
pub mod Plain
mod Tests
use busybar_bridge.Prelude.{
  ℕ, ◌==◌, Bool, true, false, not, ◌||◌, List, [], ◌∷◌, ◌++◌, Option, none, some, if◌then◌else◌,
}
use busybar_bridge.Prelude.Decimal.{itoa}
use busybar_bridge.Prelude.Int.{ℤ, pos, ltb_ℤ}
use busybar_bridge.Prelude.Net.{split_host_port, join_host_port}
use busybar_bridge.Prelude.Search.{starts_with, has_rune}
use busybar_bridge.Prelude.Text.{Text, codes, is_empty, trim_right}

-- The rest of a text after a prefix of this length.
after_prefix : Text → Text → Text
after_prefix [] s = s
after_prefix (x ∷ p) [] = []
after_prefix (x ∷ p) (c ∷ s) = after_prefix p s

-- The scheme of the URL, and the host without its own scheme.
pub split_scheme : Text → Text × Text
unfolding starts_with after_prefix
split_scheme host =
    if starts_with (codes "http://") host
    then (codes "ws", after_prefix (codes "http://") host)
    else if starts_with (codes "https://") host
    then (codes "wss", after_prefix (codes "https://") host)
    else if starts_with (codes "ws://") host
    then (codes "ws", after_prefix (codes "ws://") host)
    else if starts_with (codes "wss://") host
    then (codes "wss", after_prefix (codes "wss://") host)
    else (codes "ws", host)

-- `if idx := strings.Index(trimmed, "/"); idx != -1 { trimmed = trimmed[:idx] }`
pub cut_path : Text → Text
cut_path [] = []
cut_path (c ∷ s) = let rest = cut_path s in if c == b'/' then [] else c ∷ rest

-- The host with the port of the settings, if that is positive, or else with its own.
pub host_port : Text → ℤ → Text
unfolding split_host_port join_host_port itoa
host_port trimmed port = elim (split_host_port trimmed) [
  | some (h, p) ↦ join_host_port h (if ltb_ℤ (pos 0) port then itoa port else p)
  | none ↦ if ltb_ℤ (pos 0) port then join_host_port trimmed (itoa port) else trimmed
]

is_slash : ℕ → Bool
is_slash c = c == b'/'

pub endpoint_url : Text → ℤ → Text
unfolding split_scheme cut_path host_port is_slash trim_right
endpoint_url host port =
    let (scheme, rest) = split_scheme host in
    scheme
    ++ (codes "://"
        ++ (host_port (cut_path (trim_right is_slash rest)) port ++ codes "/api/status/ws"))
