-- ===== src/Telemetry/Store/Ring.antt =====
-- The ring of traces as the end of a list, and updates of one trace in it.
use busybar_bridge.Prelude.{
  ℕ, zero, suc, ◌+◌, ◌-◌, ◌≤◌, ◌<◌, ◌≡◌, refl, List, [], ◌∷◌, ◌++◌, arith, leb, length,
  length-append, drop, Bool-cases, inl, inr,
}
use busybar_bridge.Telemetry.Types.{EventTrace}
use busybar_bridge.Telemetry.Store.{tail, push_trace, update_first}

-- The last `n` elements.
abbrev pub last_n : ℕ → List EventTrace → List EventTrace
last_n n xs = drop (length xs - n) xs

-- The ids of a log are `n + 1`, `n + 2`, …
abbrev pub Numbered : ℕ → List EventTrace → Type 0
Numbered n [] = Unit {0}
Numbered n (t ∷ ts) = (t.id ≡ n + 1) × Numbered (n + 1) ts

length-drop : (n : ℕ) (xs : List EventTrace) → length (drop n xs) ≡ length xs - n
length-drop zero xs = omega arith
length-drop (suc n) [] = omega arith
length-drop (suc n) (x ∷ xs) = omega (arith, length-drop n xs)

drop-append :
    (n : ℕ) (xs ys : List EventTrace) → n ≤ length xs → drop n (xs ++ ys) ≡ drop n xs ++ ys
drop-append zero xs ys h = refl
drop-append (suc n) [] ys h = absurd (omega arith)
drop-append (suc n) (x ∷ xs) ys h = drop-append n xs ys (omega arith)

tail-drop : (n : ℕ) (xs : List EventTrace) → tail (drop n xs) ≡ drop (suc n) xs
unfolding tail
tail-drop zero [] = refl
tail-drop zero (x ∷ xs) = refl
tail-drop (suc n) [] = refl
tail-drop (suc n) (x ∷ xs) = tail-drop n xs

evicting :
    (c m : ℕ) (log : List EventTrace) (t : EventTrace)
    → m + c ≡ length log
    → 0 < c
    → push_trace c (drop m log) t ≡ drop (suc m) (log ++ t ∷ [])
unfolding push_trace
evicting c m log t e h =
    ground (arith, length-drop m log, tail-drop m log, drop-append (suc m) log (t ∷ []))

growing :
    (c : ℕ) (log : List EventTrace) (t : EventTrace)
    → length log < c
    → push_trace c log t ≡ log ++ t ∷ []
unfolding push_trace
growing c log t h = ground arith

-- Appending with eviction at capacity `c` keeps the ring the last `c` traces of the log.
pub push_trace-last_n :
    (c : ℕ) (log : List EventTrace) (t : EventTrace)
    → 0 < c
    → push_trace c (last_n c log) t ≡ last_n c (log ++ t ∷ [])
push_trace-last_n c log t h = elim (Bool-cases (leb c (length log))) [
  | inl full ↦
      let e : length (log ++ t ∷ []) - c ≡ suc (length log - c) =
        ground (arith, length-append log (t ∷ [])) in
      rw e (evicting c (length log - c) log t (ground arith) h)
  | inr room ↦
      let e : length (log ++ t ∷ []) - c ≡ 0 = ground (arith, length-append log (t ∷ [])) in
      let e' : length log - c ≡ 0 = ground arith in rw (e, e') (growing c log t (ground arith))
]

module _ (id : ℕ) (f : EventTrace → EventTrace) where
  pub length-update_first : (ts : List EventTrace) → length (update_first id f ts) ≡ length ts
  unfolding update_first
  length-update_first [] = refl
  length-update_first (t ∷ ts) = ground (arith, length-update_first ts)

  -- No trace below the numbers of the list is found.
  update_first_absent :
      (n : ℕ) (ts : List EventTrace) → Numbered n ts → id ≤ n → update_first id f ts ≡ ts
  unfolding update_first
  update_first_absent n [] h k = refl
  update_first_absent n (t ∷ ts) h k = ground (arith, update_first_absent (n + 1) ts h.1)

  absent_drop :
      (m n : ℕ) (ts : List EventTrace)
      → Numbered n ts
      → id ≤ n
      → update_first id f (drop m ts) ≡ drop m ts
  absent_drop zero n ts h k = update_first_absent n ts h k
  absent_drop (suc m) n [] h k = update_first_absent n [] tt k
  absent_drop (suc m) n (t ∷ ts) h k = absent_drop m (n + 1) ts h.1 (omega arith)

  -- An update of the log shows in the end of the log as the same update there.
  pub update_first-drop :
      (m n : ℕ) (ts : List EventTrace)
      → Numbered n ts
      → update_first id f (drop m ts) ≡ drop m (update_first id f ts)
  unfolding update_first
  update_first-drop zero n ts h = refl
  update_first-drop (suc m) n [] h = refl
  update_first-drop (suc m) n (t ∷ ts) h =
      ground (arith, update_first-drop m (n + 1) ts h.1, absent_drop m (n + 1) ts h.1)

  pub Numbered-update_first :
      (n : ℕ) (ts : List EventTrace)
      → ((t : EventTrace) → (f t).id ≡ t.id)
      → Numbered n ts
      → Numbered n (update_first id f ts)
  unfolding update_first
  Numbered-update_first n [] k h = tt
  Numbered-update_first n (t ∷ ts) k h = ground (arith, k t, Numbered-update_first (n + 1) ts k h.1)

pub Numbered-append :
    (n : ℕ) (ts : List EventTrace) (t : EventTrace)
    → Numbered n ts
    → t.id ≡ n + length ts + 1
    → Numbered n (ts ++ t ∷ [])
Numbered-append n [] t h e = (omega arith, tt)
Numbered-append n (x ∷ ts) t h e = (h.0, Numbered-append (n + 1) ts t h.1 (omega arith))
