-- ===== src/Busybar/Push/Transmit.antt =====
-- What a transmission reports.
use busybar_bridge.Prelude.{
  ℕ, ◌≡◌, ◌≢◌, ◌⊎◌, inl, inr, refl, ap, Bool, true, false, not, [], ◌∷◌, ◌++◌, Option, none, some,
  arith, if-cases, Bool-cases,
}
use busybar_bridge.Prelude.Int.{ℤ, pos}
use busybar_bridge.Prelude.Result.{Result, ok, err}
use busybar_bridge.Prelude.Text.{Text, codes}
use busybar_bridge.Prelude.Decimal.{itoa}
use busybar_bridge.Busybar.Push.{
  Frame, PushConfig, push_attempt, push_result, Answers, Transmission, is_accepted, result_of,
  transmit_marshalled, transmit,
}

-- The request was made and answered with 200 or 204.
abbrev pub IsAccepted : Answers → Type 0
IsAccepted a =
    (a.marshal_error ≡ none)
    × (a.request_error ≡ none)
    × ((status : ℕ) × (a.response ≡ ok status) × (is_accepted status ≡ true))

-- The one attempt and the one result of a transmission.
pub record Reports (a : Answers) (t : Transmission) : Type 0 where
  pub success : Bool
  pub error : Option Text
  pub calls : t.calls ≡ push_attempt ∷ push_result success a.latency error ∷ []
  pub accepted : success ≡ true → IsAccepted a × (error ≡ none)
  pub refused : success ≡ false → (IsAccepted a → ⊥) × (error ≢ none)

result_of-cases :
    (r : Result Text ℕ) (latency : ℤ)
    → (result_of r latency ≡ push_result true latency none)
        × ((status : ℕ) × (r ≡ ok status) × (is_accepted status ≡ true))
      ⊎ ((e : Text) × (result_of r latency ≡ push_result false latency (some e))
          × ((status : ℕ) → r ≡ ok status → is_accepted status ≡ true → ⊥))
unfolding result_of
result_of-cases (err e) latency = inr (e, refl, λ status h k. ground arith)
result_of-cases (ok status) latency = elim (Bool-cases (is_accepted status)) [
  | inl h ↦ inl (ground arith, (status, refl, h))
  | inr h ↦ inr (
    codes "HTTP push failed with status " ++ itoa (pos status),
    ground arith,
    λ s k m. ground arith,
  )
]

failed-Reports :
    (a : Answers) (t : Transmission) (e : Text)
    → t.calls ≡ push_attempt ∷ push_result false a.latency (some e) ∷ []
    → (IsAccepted a → ⊥)
    → Reports a t
failed-Reports a t e h k = record {
  success = false;
  error = some e;
  calls = h;
  accepted = λ f. absurd (ground arith);
  refused = λ f. (k, λ x. ground arith);
}

transmit_marshalled-Reports :
    (cfg : PushConfig) (frame : Frame) (a : Answers) (m r : Option Text)
    → a.marshal_error ≡ m
    → a.request_error ≡ r
    → Reports a (transmit_marshalled cfg frame a m r)
unfolding transmit_marshalled
transmit_marshalled-Reports cfg frame a (some e) r h k =
    failed-Reports a _ _ refl (λ v. ground arith)
transmit_marshalled-Reports cfg frame a none (some e) h k =
    failed-Reports a _ _ refl (λ v. ground arith)
transmit_marshalled-Reports cfg frame a none none h k =
    elim (result_of-cases a.response a.latency) [
      | inl (e, v) ↦ record {
        success = true;
        error = none;
        calls = ap (λ c. push_attempt ∷ c ∷ []) e;
        accepted = λ f. ((h, k, v), refl);
        refused = λ f. absurd (ground arith);
      }
      | inr (x, e, v) ↦
          failed-Reports a _ x (ap (λ c. push_attempt ∷ c ∷ []) e) (λ w. v w.2.0 w.2.1 w.2.2)
    ]

-- Each transmission of an enabled client records one attempt and then one result with its latency,
-- whatever the libraries answer: a success without an error if the frame was encoded, the request
-- made and the answer 200 or 204, and otherwise a failure with an error.
pub transmit-Reports :
    (cfg : PushConfig) (frame : Frame) (a : Answers)
    → cfg.enabled ≡ true
    → Reports a (transmit cfg frame a)
unfolding transmit
transmit-Reports cfg frame a h =
    if-cases (Reports a) (not cfg.enabled) _ _ (λ e. absurd (ground arith))
      (λ e. transmit_marshalled-Reports cfg frame a a.marshal_error a.request_error refl refl)
