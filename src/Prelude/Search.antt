-- ===== src/Prelude/Search.antt =====
-- Prefixes and occurrences: strings.HasPrefix, strings.Contains and strings.ReplaceAll.
use Prim.Native.Nat.{ℕ, zero, suc, ◌-◌}
use mathlib.Core.Path.{◌≡◌, refl}
use mathlib.Core.Bool.{Bool, true, false, ◌&&◌, ◌||◌}
use mathlib.Core.List.{[], ◌∷◌, ◌++◌, append_assoc}
use mathlib.Core.Logic.{◌≢◌, inl, inr}
use native.Mathlib.Omega.{arith}
use busybar_bridge.Prelude.Lists.{length}
use busybar_bridge.Prelude.Tests.{◌==◌, if◌then◌else◌, Bool-cases}
use busybar_bridge.Prelude.Text.{Text}

-- strings.HasPrefix, the prefix first
unfoldable pub starts_with : Text → Text → Bool
starts_with [] s = true
starts_with (x ∷ p) [] = false
starts_with (x ∷ p) (c ∷ s) = (x == c) && starts_with p s

-- strings.Contains, the substring first
unfoldable pub contains : Text → Text → Bool
unfolding starts_with
contains p [] = starts_with p []
contains p (c ∷ s) = starts_with p (c ∷ s) || contains p s

-- Whether a rune occurs.
unfoldable pub has_rune : ℕ → Text → Bool
has_rune x [] = false
has_rune x (c ∷ s) = (x == c) || has_rune x s

-- `strings.ReplaceAll` for a non-empty `old`: matches are found from the left and do not overlap.
-- The first argument counts the runes of a match that are still to be passed over.
replace_from : ℕ → Text → Text → Text → Text
unfolding starts_with
replace_from k old new [] = []
replace_from (suc k) old new (c ∷ s) = replace_from k old new s
replace_from zero old new (c ∷ s) =
    let skipped = replace_from (length old - 1) old new s in
    let kept = replace_from zero old new s in
    if starts_with old (c ∷ s) then new ++ skipped else c ∷ kept

unfoldable pub replace_all : Text → Text → Text → Text
unfolding replace_from
replace_all old new s = replace_from zero old new s

-- The marker: `[`, a word, `]`.
module _ (old word : Text) where
  abbrev marker : Text
  marker = b'[' ∷ (word ++ (b']' ∷ []))

  -- A text with no `[` that begins the result begins the source at that place.
  starts_with-replace_from :
      (p s : Text)
      → has_rune b'[' p ≡ false
      → starts_with p (replace_from zero old marker s) ≡ true
      → starts_with p s ≡ true
  unfolding starts_with replace_from has_rune
  starts_with-replace_from [] s h e = refl
  starts_with-replace_from (x ∷ p) [] h e = e
  starts_with-replace_from (x ∷ p) (c ∷ s) h e = elim (Bool-cases (starts_with old (c ∷ s))) [
    | inl hit ↦ ground arith
    | inr miss ↦ ground (arith, miss, starts_with-replace_from p s)
  ]

  -- A text with no `]` that begins at a place in the word ends in it.
  starts_with-word :
      (p w rest : Text)
      → has_rune b']' p ≡ false
      → starts_with p (w ++ (b']' ∷ rest)) ≡ true
      → starts_with p w ≡ true
  unfolding starts_with has_rune
  starts_with-word [] w rest h e = refl
  starts_with-word (x ∷ p) [] rest h e = ground arith
  starts_with-word (x ∷ p) (c ∷ w) rest h e = ground (arith, starts_with-word p w rest)

  -- Past the word and its `]`, `rest` has no occurrence.
  contains-word :
      (x : ℕ) (p w rest : Text)
      → has_rune b']' (x ∷ p) ≡ false
      → contains (x ∷ p) w ≡ false
      → contains (x ∷ p) rest ≡ false
      → contains (x ∷ p) (w ++ (b']' ∷ rest)) ≡ false
  unfolding contains has_rune
  contains-word x p [] rest h k r = ground arith
  contains-word x p (c ∷ w) rest h k r =
      ground (arith, starts_with-word (x ∷ p) (c ∷ w) rest h, contains-word x p w rest h)

-- Replacing every occurrence by `[word]` leaves none, where the text replaced is not empty, has no
-- bracket and does not occur in the word.
contains-replace_from :
    (k x : ℕ) (p word s : Text)
    → has_rune b'[' (x ∷ p) ≡ false
    → has_rune b']' (x ∷ p) ≡ false
    → contains (x ∷ p) word ≡ false
    → contains (x ∷ p) (replace_from k (x ∷ p) (marker (x ∷ p) word) s) ≡ false
unfolding replace_from contains has_rune
contains-replace_from k x p word [] h₁ h₂ w = refl
contains-replace_from (suc k) x p word (c ∷ s) h₁ h₂ w = contains-replace_from k x p word s h₁ h₂ w
contains-replace_from zero x p word (c ∷ s) h₁ h₂ w =
    let old = x ∷ p in
    let skipped = replace_from (length old - 1) old (marker old word) s in
    elim (Bool-cases (starts_with old (c ∷ s))) [
      | inl hit ↦
          let ih = contains-replace_from (length old - 1) x p word s h₁ h₂ w in
          let rest = contains-word old word x p word skipped h₂ w ih in
          ground (arith, hit, rest, append_assoc word (b']' ∷ []) skipped)
      | inr miss ↦
          let ih = contains-replace_from zero x p word s h₁ h₂ w in
          ground (arith, miss, ih, starts_with-replace_from old word old (c ∷ s) h₁)
    ]

pub contains-replace_all :
    (old word s : Text)
    → old ≢ []
    → has_rune b'[' old ≡ false
    → has_rune b']' old ≡ false
    → contains old word ≡ false
    → contains old (replace_all old (b'[' ∷ (word ++ (b']' ∷ []))) s) ≡ false
unfolding replace_all
contains-replace_all [] word s h h₁ h₂ w = absurd (h refl)
contains-replace_all (x ∷ p) word s h h₁ h₂ w = contains-replace_from zero x p word s h₁ h₂ w
