-- ===== src/Runner/Closing/Agreement.antt =====
-- Close and Shutdown fail for the same reasons.
use mathlib.Core.List.{Permᴰ}
use mathlib.Core.List.Permᴰ
use mathlib.Core.Path.{subst}
use busybar_bridge.Prelude.{
  ◌≡◌, ◌↔◌, refl, ap, Bool, true, List, [], ◌∷◌, Option, none, some, arith, All, if-cases,
}
use busybar_bridge.Prelude.Text.{Text}
use busybar_bridge.Runner.Lifecycle.{Part, server, busy_client}
use busybar_bridge.Runner.Closing.{
  join_errors, append_error, close_order, shutdown_order, ended, present, errors_of, close,
  shutdown,
}

join_errors-none : (errs : List Text) → join_errors errs ≡ none → errs ≡ []
unfolding join_errors
join_errors-none [] h = refl
join_errors-none (e ∷ es) h = absurd (ground arith)

append_error-none :
    (e : Option Text) (errs : List Text) → append_error e errs ≡ [] → (e ≡ none) × (errs ≡ [])
unfolding append_error
append_error-none none errs h = (refl, h)
append_error-none (some e) errs h = absurd (ground arith)

module _ (has : Part → Bool) (close_error : Part → Option Text) where
  -- The part closes without an error.
  abbrev pub IsClean : Part → Type 0
  IsClean p = close_error p ≡ none

  errors_of-IsClean : (ps : List Part) → All IsClean ps → errors_of has close_error ps ≡ []
  unfolding errors_of append_error
  errors_of-IsClean [] h = refl
  errors_of-IsClean (p ∷ ps) (e, h) = ground (arith, e, errors_of-IsClean ps h)

  IsClean-errors_of : (ps : List Part) → errors_of has close_error ps ≡ [] → All IsClean ps
  unfolding errors_of
  IsClean-errors_of [] h = tt
  IsClean-errors_of (p ∷ ps) h =
      let (e, k) = append_error-none (close_error p) _ h in (e, IsClean-errors_of ps k)

  -- No error is returned if and only if all parts close without one.
  joined_iff :
      (ps : List Part) → (join_errors (errors_of has close_error ps) ≡ none) ↔ All IsClean ps
  unfolding join_errors
  joined_iff ps = (
    λ h. IsClean-errors_of ps (join_errors-none _ h),
    λ h. ap join_errors (errors_of-IsClean ps h),
  )

  All-Permᴰ : {ps qs : List Part} → Permᴰ ps qs → All IsClean ps → All IsClean qs
  All-Permᴰ Permᴰ.nil h = tt
  All-Permᴰ (Permᴰ.cons e d) (c, h) = (subst IsClean e c, All-Permᴰ d h)
  All-Permᴰ (Permᴰ.swap e k) (c, (c', h)) = (subst IsClean k c', (subst IsClean e c, h))
  All-Permᴰ (Permᴰ.trans d d') h = All-Permᴰ d' (All-Permᴰ d h)

  -- A part of the runner closes without an error.
  abbrev pub IsFine : Part → Type 0
  IsFine p = has p ≡ true → IsClean p

  present-IsFine : (ps : List Part) → All IsClean (present has close_error ps) ↔ All IsFine ps
  unfolding present
  present-IsFine [] = (λ h. tt, λ h. tt)
  present-IsFine (p ∷ ps) =
      let (to, from) = present-IsFine ps in
      if-cases
        (λ qs.
          (All IsClean qs → IsFine p × All IsFine ps) × (IsFine p × All IsFine ps → All IsClean qs))
        (has p) _ _ (λ e. (λ (c, h). (λ _. c, to h), λ (f, h). (f e, from h)))
        (λ e. (λ h. (λ k. absurd (ground arith), to h), λ (f, h). from h))

  closed_iff :
      (ps : List Part)
      → (join_errors (errors_of has close_error (present has close_error ps)) ≡ none)
        ↔ All IsFine ps
  closed_iff ps =
      let (to, from) = joined_iff (present has close_error ps) in
      let (to', from') = present-IsFine ps in (λ h. to' (to h), λ h. from (from' h))

  -- In whichever order the closings end before the deadline: if the Busy Bar client, which Shutdown
  -- leaves out, and the server, which Close leaves out, close without an error where the runner has
  -- them, Shutdown returns an error if and only if Close does. Close returns none if and only if
  -- every part that the runner has, but for the server, closes without an error: a failure keeps no
  -- other part from being closed.
  pub shutdown-close :
      (order : List Part)
      → Permᴰ order (present has close_error shutdown_order)
      → IsFine busy_client
      → IsFine server
      → ((shutdown has close_error (ended order) ≡ none) ↔ ((close has close_error).1 ≡ none))
        × (((close has close_error).1 ≡ none) ↔ All IsFine close_order)
        × ((close has close_error).0 ≡ present has close_error close_order)
  unfolding shutdown close
  shutdown-close order d b v =
      let (to, from) = joined_iff order in
      let (to', from') = present-IsFine shutdown_order in
      let close_iff = closed_iff close_order in
      (
        (
          λ h.
              let (o, (p, (c, (a, (w, z))))) = to' (All-Permᴰ d (to h)) in
              close_iff.1 (b, (o, (p, (c, (a, tt))))),
          λ h.
              let (w, (o, (p, (c, (a, z))))) = close_iff.0 h in
              from (All-Permᴰ (Permᴰ.symm d) (from' (o, (p, (c, (a, (v, tt))))))),
        ),
        close_iff,
        refl,
      )
