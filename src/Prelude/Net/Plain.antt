-- ===== src/Prelude/Net/Plain.antt =====
-- Hosts without colons, slashes and brackets.
use Prim.Native.Nat.{ℕ}
use mathlib.Core.Path.{◌≡◌, refl}
use mathlib.Core.Bool.{false, ◌||◌}
use mathlib.Core.List.{[], ◌∷◌, ◌++◌}
use mathlib.Core.Option.{none, some}
use native.Mathlib.Omega.{arith}
use busybar_bridge.Prelude.Search.{has_rune}
use busybar_bridge.Prelude.Text.{Text}
use busybar_bridge.Prelude.Net.{split_last, split_at_colon, split_host_port, join_host_port}

pub record IsPlain (t : Text) : Type 0 where
  pub no_colon : has_rune b':' t ≡ false
  pub no_slash : has_rune b'/' t ≡ false
  pub no_open : has_rune b'[' t ≡ false
  pub no_close : has_rune b']' t ≡ false

pub has_rune-append : (x : ℕ) (a b : Text) → has_rune x (a ++ b) ≡ (has_rune x a || has_rune x b)
unfolding has_rune
has_rune-append x [] b = refl
has_rune-append x (c ∷ a) b = ground (arith, has_rune-append x a b)

split_last-none : (x : ℕ) (s : Text) → has_rune x s ≡ false → split_last x s ≡ none
unfolding split_last has_rune
split_last-none x [] h = refl
split_last-none x (c ∷ s) h = ground (arith, split_last-none x s)

split_last-append :
    (x : ℕ) (a b : Text) → has_rune x b ≡ false → split_last x (a ++ x ∷ b) ≡ some (a, b)
unfolding split_last
split_last-append x [] b h = ground (arith, split_last-none x b h)
split_last-append x (c ∷ a) b h = ground (arith, split_last-append x a b h)

pub split_host_port-plain : (h : Text) → IsPlain h → split_host_port h ≡ none
unfolding split_host_port
split_host_port-plain h v = ground (arith, split_last-none b':' h v.no_colon)

split_at_colon-plain :
    (h p : Text) → IsPlain h → IsPlain p → split_at_colon (h ++ b':' ∷ p) h p ≡ some (h, p)
unfolding split_at_colon has_rune
split_at_colon-plain [] p v w = ground arith
split_at_colon-plain (c ∷ h) p v w =
    ground (arith, has_rune-append b'[' h (b':' ∷ p), has_rune-append b']' h (b':' ∷ p))

pub split_host_port-append :
    (h p : Text) → IsPlain h → IsPlain p → split_host_port (h ++ b':' ∷ p) ≡ some (h, p)
unfolding split_host_port
split_host_port-append h p v w =
    rw (split_last-append b':' h p w.no_colon, split_host_port) (split_at_colon-plain h p v w)

pub join_host_port-plain : (h p : Text) → IsPlain h → join_host_port h p ≡ h ++ b':' ∷ p
unfolding join_host_port
join_host_port-plain h p v = rw v.no_colon refl
