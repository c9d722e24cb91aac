-- ===== src/Calendar/Worker/Stopping.antt =====
-- A worker that is closed comes to its end, and stays there.
use mathlib.Core.Path.{subst}
use busybar_bridge.Prelude.{
  ℕ, ◌≡◌, refl, sym, ◌∙◌, true, false, List, [], ◌∷◌, ◌++◌, arith, zero, suc,
}
use busybar_bridge.Calendar.Worker.{
  idle, Worker, Messages, Event, start_checks, start_claims, start_arms, start_launches,
  close_marks, close_cancels, close_returns, parent_ends, notices, first, tick, new_worker,
  has_ended, claim_checked, step, run,
}

module _ {S W : Type 0} (m : Messages) (body : S → W → S) where
  -- The loop is launched only after its `cancel` is kept, and only then does it run; `Close` cancels
  -- only after it marked the worker as closed.
  record IsOrdered (w : Worker S) : Type 0 where
    idles : w.launched ≡ false → w.phase ≡ idle
    arms : w.launched ≡ true → w.has_cancel ≡ true
    claims : w.has_cancel ≡ true → w.started ≡ true
    marks : w.close_passed ≡ true → w.closed ≡ true

  claim-IsOrdered : (w : Worker S) (k : ℕ) → IsOrdered w → IsOrdered (claim_checked m w k)
  unfolding claim_checked
  claim-IsOrdered w zero v = v
  claim-IsOrdered w (suc k) v = ground arith

  step-IsOrdered : (w : Worker S) (e : Event W) → IsOrdered w → IsOrdered (step m body w e)
  unfolding step
  step-IsOrdered w start_checks v = ground arith
  step-IsOrdered w start_claims v = claim-IsOrdered w w.checked v
  step-IsOrdered w start_arms v = ground arith
  step-IsOrdered w start_launches v = ground arith
  step-IsOrdered w close_marks v = ground arith
  step-IsOrdered w close_cancels v = ground arith
  step-IsOrdered w close_returns v = ground arith
  step-IsOrdered w parent_ends v = ground arith
  step-IsOrdered w notices v = ground arith
  step-IsOrdered w (first x) v = ground arith
  step-IsOrdered w (tick x) v = ground arith

  run-IsOrdered : (es : List (Event W)) (w : Worker S) → IsOrdered w → IsOrdered (run m body w es)
  unfolding run
  run-IsOrdered [] w v = v
  run-IsOrdered (e ∷ es) w v = run-IsOrdered es (step m body w e) (step-IsOrdered w e v)

  new_worker-IsOrdered : (s : S) → IsOrdered (new_worker s)
  unfolding new_worker
  new_worker-IsOrdered s = ground arith

  run-append :
      (es fs : List (Event W)) (w : Worker S)
      → run m body w (es ++ fs) ≡ run m body (run m body w es) fs
  unfolding run
  run-append [] fs w = refl
  run-append (e ∷ es) fs w = run-append es fs (step m body w e)

  -- A closed worker with no `Start` under way.
  record IsClosing (w : Worker S) : Type 0 where
    unchecked : w.checked ≡ 0
    whole : w.started ≡ w.launched
    idles : w.launched ≡ false → w.phase ≡ idle
    arms : w.launched ≡ true → w.has_cancel ≡ true
    claims : w.has_cancel ≡ true → w.started ≡ true
    closed : w.closed ≡ true
    cancels : w.close_passed ≡ true → w.launched ≡ true → w.cancelled ≡ true

  claim-IsClosing : (w : Worker S) (k : ℕ) → k ≡ 0 → IsClosing w → IsClosing (claim_checked m w k)
  unfolding claim_checked
  claim-IsClosing w zero h v = v
  claim-IsClosing w (suc k) h v = absurd (omega arith)

  step-IsClosing : (w : Worker S) (e : Event W) → IsClosing w → IsClosing (step m body w e)
  unfolding step
  step-IsClosing w start_checks v = ground arith
  step-IsClosing w start_claims v = claim-IsClosing w w.checked v.unchecked v
  step-IsClosing w start_arms v = ground arith
  step-IsClosing w start_launches v = ground arith
  step-IsClosing w close_marks v = ground arith
  step-IsClosing w close_cancels v = ground arith
  step-IsClosing w close_returns v = ground arith
  step-IsClosing w parent_ends v = ground arith
  step-IsClosing w notices v = ground arith
  step-IsClosing w (first x) v = ground arith
  step-IsClosing w (tick x) v = ground arith

  run-IsClosing : (es : List (Event W)) (w : Worker S) → IsClosing w → IsClosing (run m body w es)
  unfolding run
  run-IsClosing [] w v = v
  run-IsClosing (e ∷ es) w v = run-IsClosing es (step m body w e) (step-IsClosing w e v)

  -- A worker that `Close` waits for, or waited for.
  record IsAwaited (w : Worker S) : Type 0 where
    closing : IsClosing w
    passed : w.close_passed ≡ true

  cancel-IsAwaited :
      (w : Worker S) → IsClosing w → (step m body w close_cancels).close_passed ≡ true
  unfolding step
  cancel-IsAwaited w v = let c = v.closed in ground arith

  claim-passed :
      (w : Worker S) (k : ℕ) → k ≡ 0 → (claim_checked m w k).close_passed ≡ w.close_passed
  unfolding claim_checked
  claim-passed w zero h = refl
  claim-passed w (suc k) h = absurd (omega arith)

  step-passed :
      (w : Worker S) (e : Event W)
      → IsClosing w
      → w.close_passed ≡ true
      → (step m body w e).close_passed ≡ true
  unfolding step
  step-passed w start_checks v h = ground arith
  step-passed w start_claims v h = claim-passed w w.checked v.unchecked ∙ h
  step-passed w start_arms v h = ground arith
  step-passed w start_launches v h = ground arith
  step-passed w close_marks v h = ground arith
  step-passed w close_cancels v h = ground arith
  step-passed w close_returns v h = ground arith
  step-passed w parent_ends v h = ground arith
  step-passed w notices v h = ground arith
  step-passed w (first x) v h = ground arith
  step-passed w (tick x) v h = ground arith

  run-IsAwaited : (es : List (Event W)) (w : Worker S) → IsAwaited w → IsAwaited (run m body w es)
  unfolding run
  run-IsAwaited [] w v = v
  run-IsAwaited (e ∷ es) w v = run-IsAwaited es (step m body w e) (record {
    closing = step-IsClosing w e v.closing;
    passed = step-passed w e v.closing v.passed;
  })

  ends-idle :
      (w : Worker S) (x : W)
      → IsAwaited w
      → (step m body (step m body w (first x)) notices).phase ≡ idle
  unfolding step
  ends-idle w x v = let c = v.closing.cancels v.passed in let i = v.closing.idles in ground arith

  claim-stays :
      (w : Worker S) (k : ℕ)
      → k ≡ 0
      → ((claim_checked m w k).phase ≡ w.phase) × ((claim_checked m w k).state ≡ w.state)
  unfolding claim_checked
  claim-stays w zero h = (refl, refl)
  claim-stays w (suc k) h = absurd (omega arith)

  -- An ended worker stays as it is.
  step-stays :
      (w : Worker S) (e : Event W)
      → IsClosing w
      → w.phase ≡ idle
      → ((step m body w e).phase ≡ w.phase) × ((step m body w e).state ≡ w.state)
  unfolding step
  step-stays w start_checks v h = ground arith
  step-stays w start_claims v h = claim-stays w w.checked v.unchecked
  step-stays w start_arms v h = ground arith
  step-stays w start_launches v h = ground arith
  step-stays w close_marks v h = ground arith
  step-stays w close_cancels v h = ground arith
  step-stays w close_returns v h = ground arith
  step-stays w parent_ends v h = ground arith
  step-stays w notices v h = ground arith
  step-stays w (first x) v h = ground arith
  step-stays w (tick x) v h = ground arith

  run-stays :
      (es : List (Event W)) (w : Worker S)
      → IsClosing w
      → w.phase ≡ idle
      → ((run m body w es).phase ≡ w.phase) × ((run m body w es).state ≡ w.state)
  unfolding run
  run-stays [] w v h = (refl, refl)
  run-stays (e ∷ es) w v h =
      let s = step-stays w e v h in
      let r = run-stays es (step m body w e) (step-IsClosing w e v) (s.0 ∙ h) in
      (r.0 ∙ s.0, r.1 ∙ s.1)

  has_ended-idle : (w : Worker S) → w.phase ≡ idle → has_ended w ≡ true
  unfolding has_ended
  has_ended-idle w h = ground arith

  returns :
      (w : Worker S) → IsAwaited w → w.phase ≡ idle → (step m body w close_returns).returned ≡ true
  unfolding step has_ended
  returns w v h = let p = v.passed in ground arith

  mark-IsClosing :
      (w : Worker S)
      → IsOrdered w
      → w.checked ≡ 0
      → w.started ≡ w.launched
      → w.closed ≡ false
      → IsClosing (step m body w close_marks)
  unfolding step
  mark-IsClosing w v h k c =
      let p = v.marks in
      record {
        unchecked = h;
        whole = k;
        idles = v.idles;
        arms = v.arms;
        claims = v.claims;
        closed = refl;
        cancels = λ q. absurd (ground arith);
      }

  -- What happens from the first access of `Close` on, until the loop has taken the case of the
  -- context.
  abbrev pub closing : List (Event W) → List (Event W) → W → List (Event W)
  closing before after x =
      close_marks ∷ (before ++ (close_cancels ∷ (after ++ (first x ∷ notices ∷ []))))

  run-closing :
      (w : Worker S) (before after : List (Event W)) (x : W)
      → run m body w (closing before after x)
        ≡ step m body
            (step m body
              (run m body
                (step m body (run m body (step m body w close_marks) before) close_cancels)
                after)
              (first x))
            notices
  unfolding run
  run-closing w before after x =
      run-append before (close_cancels ∷ (after ++ (first x ∷ notices ∷ [])))
        (step m body w close_marks)
      ∙ run-append after (first x ∷ notices ∷ []) _

  abbrev StaysStopped : List (Event W) → Worker S → Type 0
  StaysStopped more w =
      (has_ended w ≡ true)
      × ((step m body w close_returns).returned ≡ true)
      × (has_ended (run m body w more) ≡ true)
      × ((run m body w more).state ≡ w.state)

  -- Closing a worker stops it, if no call of `Start` is under way when `Close` marks it: every call so
  -- far was refused or launched its loop. Whatever was called before and whatever else is called or
  -- happens between the accesses of `Close`, `Start` included: once `Close` has cancelled the context,
  -- the body that is due at the start has run and the loop has come to its `select` and taken the case
  -- of the context, the loop has ended and `Close` can return; and from then on no sequence of steps
  -- starts the loop again or runs its body.
  pub run-stops :
      (s : S) (es before after more : List (Event W)) (x : W)
      → (run m body (new_worker s) es).closed ≡ false
      → (run m body (new_worker s) es).checked ≡ 0
      → (run m body (new_worker s) es).started ≡ (run m body (new_worker s) es).launched
      → let w = run m body (run m body (new_worker s) es) (closing before after x) in
        (has_ended w ≡ true)
        × ((step m body w close_returns).returned ≡ true)
        × (has_ended (run m body w more) ≡ true)
        × ((run m body w more).state ≡ w.state)
  run-stops s es before after more x c k q =
      let o = run-IsOrdered es (new_worker s) (new_worker-IsOrdered s) in
      let b = run-IsClosing before _ (mark-IsClosing _ o k q c) in
      let a =
        run-IsAwaited after _
          (record { closing = step-IsClosing _ close_cancels b; passed = cancel-IsAwaited _ b }) in
      let i = ends-idle _ x a in
      let f : IsAwaited (step m body (step m body _ (first x)) notices) = record {
        closing = step-IsClosing _ notices (step-IsClosing _ (first x) a.closing);
        passed =
            step-passed _ notices (step-IsClosing _ (first x) a.closing)
              (step-passed _ (first x) a.closing a.passed);
      } in
      let r = run-stays more _ f.closing i in
      subst (StaysStopped more) (sym (run-closing _ before after x))
        (has_ended-idle _ i, returns _ f i, has_ended-idle _ (r.0 ∙ i), r.1)
