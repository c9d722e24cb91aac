-- ===== src/Calendar/Poller/Query.antt =====
-- The window that a reader of the URL of a poll's request finds in it.
use mathlib.Core.List.{reverse, reverse-cons}
use busybar_bridge.Prelude.{
  ℕ, ◌==◌, Bool, true, false, ◌≡◌, refl, ap, ◌∙◌, [], ◌∷◌, ◌++◌, Option, none, some, arith,
  if◌then◌else◌,
}
use busybar_bridge.Prelude.Int.{ℤ}
use busybar_bridge.Prelude.Text.{Text, codes, trim_left, trim_right}
use busybar_bridge.Prelude.Search.{has_rune}
use busybar_bridge.Prelude.Net.Plain.{has_rune-append}

-- What follows the first question mark.
pub query_of : Text → Text
query_of [] = []
query_of (c ∷ cs) = if b'?' == c then cs else query_of cs

-- The value of a parameter: up to the next ampersand.
value_of : Text → Text
value_of [] = []
value_of (c ∷ cs) = let rest = value_of cs in if b'&' == c then [] else c ∷ rest

-- What follows the name, if the text begins with it.
after_name : Text → Text → Option Text
after_name [] t = some t
after_name (n ∷ ns) [] = none
after_name (n ∷ ns) (c ∷ cs) = if n == c then after_name ns cs else none

value_or : Option Text → Option Text → Option Text
unfolding value_of
value_or none rest = rest
value_or (some v) rest = some (value_of v)

-- The value of the first parameter of the query with the name, given with its equals sign; the text
-- begins a parameter or stands within one.
pub param : Text → Bool → Text → Option Text
unfolding after_name value_or
param name begins [] = none
param name begins (c ∷ cs) =
    let rest = param name (b'&' == c) cs in
    if begins then value_or (after_name name (c ∷ cs)) rest else rest

pair : Option ℤ → Option ℤ → Option (ℤ × ℤ)
pair none hi = none
pair (some lo) none = none
pair (some lo) (some hi) = some (lo, hi)

read : (Text → Option ℤ) → Option Text → Option ℤ
read parse none = none
read parse (some v) = parse v

-- The bounds that the URL asks for, read by `parse`.
pub window_of : (Text → Option ℤ) → Text → Option (ℤ × ℤ)
unfolding query_of param pair read
window_of parse url =
    let q = query_of url in
    pair (read parse (param (codes "timeMin=") true q))
      (read parse (param (codes "timeMax=") true q))

query_of-skip : (p t : Text) → has_rune b'?' p ≡ false → query_of (p ++ t) ≡ query_of t
unfolding query_of has_rune
query_of-skip [] t h = refl
query_of-skip (c ∷ p) t h = ground (arith, query_of-skip p t)

value_of-plain : (v t : Text) → has_rune b'&' v ≡ false → value_of (v ++ (b'&' ∷ t)) ≡ v
unfolding value_of has_rune
value_of-plain [] t h = refl
value_of-plain (c ∷ v) t h = ground (arith, value_of-plain v t)

param-skip :
    (name v t : Text) → has_rune b'&' v ≡ false → param name false (v ++ t) ≡ param name false t
unfolding param has_rune
param-skip name [] t h = refl
param-skip name (c ∷ v) t h = ground (arith, param-skip name v t)

-- A URL with the two bounds as its first parameters.
abbrev pub asking : Text → Text → Text → Text
asking front lo hi =
    front
    ++ (codes "/events?timeMin="
        ++ (lo ++ (codes "&timeMax=" ++ (hi ++ codes "&singleEvents=true"))))

abbrev query : Text → Text → Text
query lo hi = codes "timeMin=" ++ (lo ++ (codes "&timeMax=" ++ (hi ++ codes "&singleEvents=true")))

query_of-asking :
    (front lo hi : Text) → has_rune b'?' front ≡ false → query_of (asking front lo hi) ≡ query lo hi
query_of-asking front lo hi h = query_of-skip front _ h ∙ (unfold query_of in refl)

param-min :
    (lo hi : Text)
    → has_rune b'&' lo ≡ false
    → param (codes "timeMin=") true (query lo hi) ≡ some lo
unfolding param after_name value_or
param-min lo hi h = ap some (value_of-plain lo _ h)

param-max_value :
    (hi : Text)
    → has_rune b'&' hi ≡ false
    → param (codes "timeMax=") false (codes "&timeMax=" ++ (hi ++ codes "&singleEvents=true"))
      ≡ some hi
unfolding param after_name value_or
param-max_value hi k = ap some (value_of-plain hi _ k)

param-max_begin :
    (lo t : Text)
    → param (codes "timeMax=") true (codes "timeMin=" ++ (lo ++ t))
      ≡ param (codes "timeMax=") false (lo ++ t)
unfolding param after_name value_or
param-max_begin lo t = refl

param-max :
    (lo hi : Text)
    → has_rune b'&' lo ≡ false
    → has_rune b'&' hi ≡ false
    → param (codes "timeMax=") true (query lo hi) ≡ some hi
param-max lo hi h k =
    param-max_begin lo _ ∙ (param-skip (codes "timeMax=") lo _ h ∙ param-max_value hi k)

-- The reader finds the two bounds.
pub window_of-asking :
    (parse : Text → Option ℤ) (front lo hi : Text) (from to : ℤ)
    → has_rune b'?' front ≡ false
    → has_rune b'&' lo ≡ false
    → has_rune b'&' hi ≡ false
    → parse lo ≡ some from
    → parse hi ≡ some to
    → window_of parse (asking front lo hi) ≡ some (from, to)
unfolding window_of pair read
window_of-asking parse front lo hi from to f h k p q =
    ap
      (λ u.
        pair (read parse (param (codes "timeMin=") true u))
          (read parse (param (codes "timeMax=") true u)))
      (query_of-asking front lo hi f)
    ∙ (ap (λ v. pair (read parse v) (read parse (param (codes "timeMax=") true (query lo hi))))
          (param-min lo hi h)
        ∙ (ap (λ v. pair (parse lo) (read parse v)) (param-max lo hi h k)
            ∙ (ap (λ v. pair v (parse hi)) p ∙ ap (λ v. pair (some from) v) q)))

-- A text without the rune `x` has none when it is trimmed.
module _ (x : ℕ) (p : ℕ → Bool) where
  lacks-trim_left : (s : Text) → has_rune x s ≡ false → has_rune x (trim_left p s) ≡ false
  unfolding trim_left has_rune
  lacks-trim_left [] h = refl
  lacks-trim_left (c ∷ s) h = ground (arith, lacks-trim_left s)

  lacks-reverse : (s : Text) → has_rune x s ≡ false → has_rune x (reverse s) ≡ false
  unfolding has_rune
  lacks-reverse [] h = h
  lacks-reverse (c ∷ s) h =
      rw (reverse-cons c s)
        (ground (arith, lacks-reverse s, has_rune-append x (reverse s) (c ∷ [])))

  pub lacks-trim_right : (s : Text) → has_rune x s ≡ false → has_rune x (trim_right p s) ≡ false
  unfolding trim_right
  lacks-trim_right s h =
      lacks-reverse (trim_left p (reverse s)) (lacks-trim_left (reverse s) (lacks-reverse s h))
