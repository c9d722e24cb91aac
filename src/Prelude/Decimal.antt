-- ===== src/Prelude/Decimal.antt =====
-- Decimal numerals: strconv.Itoa and strconv.ParseInt in base 10.
use Prim.Native.Nat.{ℕ, zero, suc, ◌+◌, ◌-◌, ◌*◌, ◌/◌, ◌%◌, ◌^◌, ◌<◌}
use mathlib.Core.Path.{◌≡◌, refl, ap, ◌∙◌}
use mathlib.Core.Bool.{Bool, ◌&&◌}
use mathlib.Core.List.{[], ◌∷◌}
use mathlib.Core.Logic.{inl, inr}
use mathlib.Core.Option.{Option, none, some}
use native.Mathlib.Omega.{arith}
use busybar_bridge.Prelude.Int.{ℤ, pos, negsuc, neg_ℕ}
use busybar_bridge.Prelude.Tests.{ltb, leb, ◌==◌, if◌then◌else◌, Bool-cases}
use busybar_bridge.Prelude.Text.{Text}

-- The digits of `n` in front of `acc`; `n < fuel` rounds are enough.
show_onto : ℕ → ℕ → Text → Text
show_onto zero n acc = acc
show_onto (suc fuel) n acc =
    let d = 48 + n % 10 in
    let rest = show_onto fuel (n / 10) (d ∷ acc) in if ltb n 10 then d ∷ acc else rest

unfoldable pub show_ℕ : ℕ → Text
unfolding show_onto
show_ℕ n = show_onto (suc n) n []

-- strconv.Itoa
unfoldable pub itoa : ℤ → Text
unfolding show_ℕ
itoa (pos n) = show_ℕ n
itoa (negsuc n) = b'-' ∷ show_ℕ (n + 1)

-- %02d
unfoldable pub pad2 : ℤ → Text
unfolding itoa
pad2 (pos n) = if ltb n 10 then b'0' ∷ show_ℕ n else show_ℕ n
pad2 (negsuc n) = itoa (negsuc n)

is_digit : ℕ → Bool
is_digit c = leb b'0' c && leb c b'9'

-- The value of a run of digits; `none` at any other rune.
read_onto : ℕ → Text → Option ℕ
unfolding is_digit
read_onto acc [] = some acc
read_onto acc (c ∷ s) =
    let rest = read_onto (10 * acc + (c - 48)) s in if is_digit c then rest else none

unfoldable pub read_ℕ : Text → Option ℕ
unfolding read_onto
read_ℕ [] = none
read_ℕ (c ∷ s) = read_onto 0 (c ∷ s)

-- strconv.ParseInt(s, 10, 64) and, on a 64-bit machine, strconv.Atoi; `none` is its error.
unfoldable pub parse_int : Text → Option ℤ
unfolding read_ℕ
parse_int [] = none
parse_int (c ∷ s) =
    if c == b'-'
    then elim (read_ℕ s) [ none ↦ none | some n ↦ if leb n (2 ^ 63) then some (neg_ℕ n) else none ]
    else elim (read_ℕ (if c == b'+' then s else c ∷ s)) [
      | none ↦ none
      | some n ↦ if ltb n (2 ^ 63) then some (pos n) else none
    ]

read_onto-digit :
    (acc d : ℕ) (s : Text) → d < 10 → read_onto acc ((48 + d) ∷ s) ≡ read_onto (10 * acc + d) s
unfolding read_onto
read_onto-digit acc d s h = ground arith

-- Reading what was shown of `n` in front of `s` reads `s` on from `n`.
read_onto-show_onto :
    (fuel n : ℕ) (s : Text) → n < fuel → read_onto 0 (show_onto fuel n s) ≡ read_onto n s
unfolding show_onto
read_onto-show_onto zero n s h = absurd (omega arith)
read_onto-show_onto (suc fuel) n s h = elim (Bool-cases (ltb n 10)) [
  | inl small ↦
      rw small (read_onto-digit 0 (n % 10) s (omega arith) ∙ ap (λ k. read_onto k s) (ground arith))
  | inr large ↦ rw large (
      read_onto-show_onto fuel (n / 10) ((48 + n % 10) ∷ s) (ground arith)
      ∙ read_onto-digit (n / 10) (n % 10) s (omega arith)
      ∙ ap (λ k. read_onto k s) (omega arith))
]

-- What is shown has a digit, so `read_ℕ` reads it as `read_onto` does.
read_ℕ-show_onto :
    (fuel n d : ℕ) (s : Text)
    → read_ℕ (show_onto fuel n (d ∷ s)) ≡ read_onto 0 (show_onto fuel n (d ∷ s))
unfolding read_ℕ show_onto
read_ℕ-show_onto zero n d s = refl
read_ℕ-show_onto (suc fuel) n d s =
    ground (arith, read_ℕ-show_onto fuel (n / 10) (48 + n % 10) (d ∷ s))

pub read_ℕ-show_ℕ : (n : ℕ) → read_ℕ (show_ℕ n) ≡ some n
unfolding read_ℕ show_ℕ
read_ℕ-show_ℕ n =
    ground (arith, read_onto-show_onto (suc n) n [], read_ℕ-show_onto n (n / 10) (48 + n % 10) [])
