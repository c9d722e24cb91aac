-- ===== src/Prelude/Net.antt =====
-- Hosts and ports: net.SplitHostPort and net.JoinHostPort.
pub mod Plain
use Prim.Native.Nat.{ℕ}
use mathlib.Core.Bool.{Bool, true, false, not, ◌||◌}
use mathlib.Core.List.{[], ◌∷◌, ◌++◌}
use mathlib.Core.Option.{Option, none, some}
use busybar_bridge.Prelude.Tests.{◌==◌, if◌then◌else◌}
use busybar_bridge.Prelude.Search.{has_rune}
use busybar_bridge.Prelude.Text.{Text}

-- The text before and after the last occurrence of a rune.
unfoldable pub split_last : ℕ → Text → Option (Text × Text)
split_last x [] = none
split_last x (c ∷ s) = elim (split_last x s) [
  | some (a, b) ↦ some (c ∷ a, b)
  | none ↦ if c == x then some ([], s) else none
]

-- The text before and after the first occurrence of a rune.
split_first : ℕ → Text → Option (Text × Text)
split_first x [] = none
split_first x (c ∷ s) =
    let rest = elim (split_first x s) as (λ r. Option (Text × Text)) [
      | some (a, b) ↦ some (c ∷ a, b)
      | none ↦ none
    ] in
    if c == x then some ([], s) else rest

-- The host between brackets: what follows the `]` is a colon and a port without a colon.
split_bracketed : Text → Text → Option (Text × Text)
unfolding has_rune
split_bracketed host [] = none
split_bracketed host (c ∷ port) =
    if not (c == b':')
      || has_rune b':' port
      || has_rune b'[' host
      || has_rune b'[' port
      || has_rune b']' port
    then none
    else some (host, port)

-- With the text before and after the last colon.
unfoldable pub split_at_colon : Text → Text → Text → Option (Text × Text)
unfolding split_first split_bracketed has_rune
split_at_colon [] host port = none
split_at_colon (c ∷ s) host port =
    if c == b'['
    then elim (split_first b']' s) [
      | none ↦ none
      | some (inner, after) ↦ split_bracketed inner after
    ]
    else if has_rune b':' host || has_rune b'[' (c ∷ s) || has_rune b']' (c ∷ s)
    then none
    else some (host, port)

-- net.SplitHostPort, its errors as `none`
unfoldable pub split_host_port : Text → Option (Text × Text)
unfolding split_last split_at_colon
split_host_port s = elim (split_last b':' s) [
  | none ↦ none
  | some (host, port) ↦ split_at_colon s host port
]

-- net.JoinHostPort
unfoldable pub join_host_port : Text → Text → Text
unfolding has_rune
join_host_port host port =
    if has_rune b':' host then b'[' ∷ (host ++ (b']' ∷ b':' ∷ port)) else host ++ (b':' ∷ port)
