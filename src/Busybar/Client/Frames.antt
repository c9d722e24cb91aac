-- ===== src/Busybar/Client/Frames.antt =====
-- The frames between the connection and the runner.
use mathlib.Core.Path.{subst}
use mathlib.Core.List.{append_assoc, append-nil}
use busybar_bridge.Prelude.{
  ℕ, refl, sym, if-cases, ltb, ◌+◌, ◌%◌, ◌^◌, ◌≤◌, ◌≡◌, List, [], ◌∷◌, ◌++◌, Option, none, some,
  arith, length, length-append, List-cases, inl, inr,
}
use busybar_bridge.Prelude.Int.{pos_part}
use busybar_bridge.Busybar.Client.{
  Config, Client, new_client, fill_config, Message, binary, text, other, read_message, take_frame,
}

-- A message arrives, or the runner takes a frame.
pub data Step : Type 0 where
  arrives : Message → Step
  takes : Step

-- The client, with the frames taken so far, and the binary messages that arrived.
pub record Run : Type 0 where
  pub client : Client
  pub taken : List (List ℕ)
  pub arrived : List (List ℕ)

payload_of : Message → List (List ℕ)
payload_of (binary p) = p ∷ []
payload_of text = []
payload_of other = []

took : Run → Option (List ℕ) × Client → Run
took r (none, c) = record r { client = c }
took r (some f, c) = record r { client = c; taken = r.taken ++ f ∷ [] }

step : Run → Step → Run
unfolding payload_of took read_message take_frame
step r (arrives m) = record r {
  client = read_message r.client m;
  arrived = r.arrived ++ payload_of m;
}
step r takes = took r (take_frame r.client)

pub run : Run → List Step → Run
unfolding step
run r [] = r
run r (s ∷ ss) = run (step r s) ss

abbrev pub fresh : Config → Run
fresh cfg = record { client = new_client cfg; taken = []; arrived = [] }

-- The first list is the second one without some of its elements.
pub data Kept {ℓ} {A : Type ℓ} : List A → List A → Type ℓ where
  none_left : Kept [] []
  skip : {x : A} {xs ys : List A} → Kept xs ys → Kept xs (x ∷ ys)
  keep : {x y : A} {xs ys : List A} → x ≡ y → Kept xs ys → Kept (x ∷ xs) (y ∷ ys)

module _ {ℓ} {A : Type ℓ} where
  skip_last : (a : A) (xs ys : List A) → Kept xs ys → Kept xs (ys ++ a ∷ [])
  skip_last a [] [] none_left = skip none_left
  skip_last a (x ∷ xs) [] s = elim s [ ]
  skip_last a xs (y ∷ ys) (skip s) = skip (skip_last a xs ys s)
  skip_last a (x ∷ xs) (y ∷ ys) (keep e s) = keep e (skip_last a xs ys s)

  keep_last : (a : A) (xs ys : List A) → Kept xs ys → Kept (xs ++ a ∷ []) (ys ++ a ∷ [])
  keep_last a [] [] none_left = keep refl none_left
  keep_last a (x ∷ xs) [] s = elim s [ ]
  keep_last a xs (y ∷ ys) (skip s) = skip (keep_last a xs ys s)
  keep_last a (x ∷ xs) (y ∷ ys) (keep e s) = keep e (keep_last a xs ys s)

-- The binary messages that are not lost.
abbrev pub passed_on : Run → List (List ℕ)
passed_on r = r.taken ++ r.client.frames_chan

-- Every binary message is taken, queued or counted, and none is reordered or made up.
pub record IsLossless (cfg : Config) (r : Run) : Type 0 where
  pub config : r.client.cfg ≡ cfg
  pub bounded : length r.client.frames_chan ≤ pos_part cfg.buffer_size
  pub counted :
      (length r.taken + length r.client.frames_chan + r.client.overflow_count) % 2 ^ 64
      ≡ length r.arrived % 2 ^ 64

step-IsLossless : (cfg : Config) (r : Run) (s : Step) → IsLossless cfg r → IsLossless cfg (step r s)
unfolding step
step-IsLossless cfg r (arrives (binary p)) v =
    ground (arith, length-append r.client.frames_chan (p ∷ []), length-append r.arrived (p ∷ []))
step-IsLossless cfg r (arrives text) v = ground (arith, append-nil r.arrived)
step-IsLossless cfg r (arrives other) v = ground (arith, append-nil r.arrived)
step-IsLossless cfg r takes v = elim (List-cases r.client.frames_chan) [
  | inl e ↦ ground arith
  | inr (f, fs, e) ↦ ground (arith, e, length-append r.taken (f ∷ []))
]

passed_on-takes : (r : Run) → passed_on (step r takes) ≡ passed_on r
unfolding step
passed_on-takes r = elim (List-cases r.client.frames_chan) [
  | inl e ↦ ground arith
  | inr (f, fs, e) ↦ ground (arith, e, append_assoc r.taken (f ∷ []) fs)
]

arrived-takes : (r : Run) → (step r takes).arrived ≡ r.arrived
unfolding step
arrived-takes r = elim (List-cases r.client.frames_chan) [
  | inl e ↦ ground arith
  | inr (f, fs, e) ↦ ground arith
]

abbrev IsOrdered : Run → Type 0
IsOrdered r = Kept (passed_on r) r.arrived

step-IsOrdered : (r : Run) (s : Step) → IsOrdered r → IsOrdered (step r s)
unfolding step
step-IsOrdered r (arrives (binary p)) v =
    if-cases (λ (c : Client). Kept (r.taken ++ c.frames_chan) (r.arrived ++ p ∷ []))
      (ltb (length r.client.frames_chan) (pos_part r.client.cfg.buffer_size)) _ _
      (λ e.
        subst (λ z. Kept z (r.arrived ++ p ∷ []))
          (append_assoc r.taken r.client.frames_chan (p ∷ [])) (keep_last p _ _ v))
      (λ e. skip_last p _ _ v)
step-IsOrdered r (arrives text) v = subst (Kept (passed_on r)) (sym (append-nil r.arrived)) v
step-IsOrdered r (arrives other) v = subst (Kept (passed_on r)) (sym (append-nil r.arrived)) v
step-IsOrdered r takes v =
    subst (Kept (passed_on (step r takes))) (sym (arrived-takes r))
      (subst (λ z. Kept z r.arrived) (sym (passed_on-takes r)) v)

run-IsOrdered : (ss : List Step) (r : Run) → IsOrdered r → IsOrdered (run r ss)
unfolding run
run-IsOrdered [] r v = v
run-IsOrdered (s ∷ ss) r v = run-IsOrdered ss (step r s) (step-IsOrdered r s v)

run-IsLossless :
    (cfg : Config) (ss : List Step) (r : Run) → IsLossless cfg r → IsLossless cfg (run r ss)
unfolding run
run-IsLossless cfg [] r v = v
run-IsLossless cfg (s ∷ ss) r v = run-IsLossless cfg ss (step r s) (step-IsLossless cfg r s v)

fresh-IsLossless : (cfg : Config) → IsLossless (fill_config cfg) (fresh cfg)
unfolding new_client
fresh-IsLossless cfg = ground arith

-- However the messages of the bar and the runner's receives interleave on a new client: the channel
-- is never longer than the buffer of the filled settings; the frames that were taken, those in the
-- channel and the overflow count add up to the binary messages that arrived (modulo 2^64); and the
-- frames that were taken, followed by those in the channel, are the binary messages in the order of
-- their arrival, but for some that are missing.
pub run-fresh-IsLossless :
    (cfg : Config) (ss : List Step)
    → IsLossless (fill_config cfg) (run (fresh cfg) ss)
      × Kept (passed_on (run (fresh cfg) ss)) (run (fresh cfg) ss).arrived
unfolding new_client
run-fresh-IsLossless cfg ss = (
  run-IsLossless (fill_config cfg) ss (fresh cfg) (fresh-IsLossless cfg),
  run-IsOrdered ss (fresh cfg) none_left,
)
