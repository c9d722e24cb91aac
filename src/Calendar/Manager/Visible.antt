-- ===== src/Calendar/Manager/Visible.antt =====
-- The state of an authorization URL is not blank: its digits are no spaces.
use mathlib.Core.List.{reverse, reverse-cons}
use busybar_bridge.Prelude.{ℕ, ◌/◌, ◌<◌, ◌≡◌, refl, Bool, false, List, [], ◌∷◌, ◌++◌, arith}
use busybar_bridge.Prelude.Text.{Text, is_empty, is_space, trim_left, trim_right, trim_space}
use busybar_bridge.Calendar.Manager.{digit64, encode_base64}

-- A text that begins with a rune that is no space is not blank.
trim_left-ends :
    (p : ℕ → Bool) (c : ℕ) (s : Text) → p c ≡ false → is_empty (trim_left p (s ++ c ∷ [])) ≡ false
unfolding trim_left
trim_left-ends p c [] h = ground arith
trim_left-ends p c (x ∷ s) h = ground (arith, trim_left-ends p c s h)

is_empty-snoc : (s : Text) (c : ℕ) → is_empty (s ++ c ∷ []) ≡ false
is_empty-snoc [] c = refl
is_empty-snoc (x ∷ s) c = refl

is_empty-reverse : (s : Text) → is_empty s ≡ false → is_empty (reverse s) ≡ false
is_empty-reverse [] h = h
is_empty-reverse (c ∷ s) h = rw (reverse-cons c s) (is_empty-snoc (reverse s) c)

trim_kept :
    (p : ℕ → Bool) (c : ℕ) (s : Text)
    → p c ≡ false
    → is_empty (trim_right p (trim_left p (c ∷ s))) ≡ false
unfolding trim_left trim_right
trim_kept p c s h = rw h (
    is_empty-reverse (trim_left p (reverse (c ∷ s)))
      (rw (reverse-cons c s) (trim_left-ends p c (reverse s) h)))

trim_space_kept : (c : ℕ) (s : Text) → is_space c ≡ false → is_empty (trim_space (c ∷ s)) ≡ false
unfolding trim_space
trim_space_kept c s h = trim_kept is_space c s h

digit64-visible : (n : ℕ) → n < 64 → is_space (digit64 n) ≡ false
unfolding digit64 is_space
digit64-visible n h = ground arith

-- The state of a nonce that is not empty is not blank.
pub state_kept :
    (a : ℕ) (nonce : List ℕ)
    → a < 256
    → (is_empty (encode_base64 (a ∷ nonce)) ≡ false)
      × (is_empty (trim_space (encode_base64 (a ∷ nonce))) ≡ false)
unfolding encode_base64
state_kept a [] h = (refl, trim_space_kept _ _ (digit64-visible (a / 4) (omega arith)))
state_kept a (b ∷ []) h = (refl, trim_space_kept _ _ (digit64-visible (a / 4) (omega arith)))
state_kept a (b ∷ c ∷ rest) h = (refl, trim_space_kept _ _ (digit64-visible (a / 4) (omega arith)))
