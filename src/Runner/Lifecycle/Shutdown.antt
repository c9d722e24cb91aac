-- ===== src/Runner/Lifecycle/Shutdown.antt =====
-- No frame is lost at the shutdown, and nothing is closed too early.
use mathlib.Core.Path.{subst}
use busybar_bridge.Prelude.{
  ◌≡◌, ◌⊎◌, inl, inr, refl, ap, Bool, true, false, List, [], ◌∷◌, ◌++◌, Option, none, some, map,
  All, All-map, if-cases, if_true, if_false, sym, ◌∙◌, if◌then◌else◌,
}
use busybar_bridge.Prelude.Text.{Text}
use busybar_bridge.Runner.Lifecycle.{
  Part, server, busy_client, Action, starts, handles, disconnects, closes, shuts_down_server,
  Arrival, cancelled, closed, frame, World, start_order, when, start_part, failure_of, start_all,
  frame_loop, shut_down, serve, run,
}
use busybar_bridge.Runner.Lifecycle.Graceful.{
  frames_of, frames_of-handles, received, IsOpen, IsGraceful, IsStart, frames_of-starts,
  IsOpen-start, handles-IsOpen, joined-IsGraceful, frames_of-when, when-IsOpen,
}

module _ {Frame : Type 0} (w : World Frame) where
  starts-IsStart : (ps : List Part) → All (IsStart {Frame = Frame}) (map starts ps)
  starts-IsStart [] = tt
  starts-IsStart (p ∷ ps) = (tt, starts-IsStart ps)

  frames_of-frame_loop : (xs : List (Arrival Frame)) → frames_of (frame_loop w xs) ≡ received xs
  unfolding frames_of frame_loop received
  frames_of-frame_loop [] = refl
  frames_of-frame_loop (cancelled ∷ xs) = refl
  frames_of-frame_loop (closed ∷ xs) = refl
  frames_of-frame_loop (frame f ∷ xs) = ap (λ z. f ∷ z) (frames_of-frame_loop xs)

  frame_loop-IsOpen : (xs : List (Arrival Frame)) → All IsOpen (frame_loop w xs)
  unfolding frame_loop
  frame_loop-IsOpen [] = tt
  frame_loop-IsOpen (cancelled ∷ xs) = tt
  frame_loop-IsOpen (closed ∷ xs) = tt
  frame_loop-IsOpen (frame f ∷ xs) = (tt, frame_loop-IsOpen xs)

  -- The frames that the bar sent before the loop ended, and those left in its channel.
  abbrev pub all_frames : List Frame
  all_frames = if w.has busy_client then received w.arrivals ++ w.left else []

  -- The parts of a list that there are, and a part that starts.
  pub parts_of : List Part → List Part
  parts_of [] = []
  parts_of (p ∷ ps) = let rest = parts_of ps in if w.has p then p ∷ rest else rest

  abbrev pub DoesStart : Part → Type 0
  DoesStart p = w.start_error p ≡ none

  -- Every part was started, in order.
  pub record IsStarted (parts : List Part) (out : List (Action Frame) × Option Text) : Type 0 where
    pub all_start : All DoesStart (parts_of parts)
    pub started : out ≡ (map starts (parts_of parts), none)

  -- The parts before `part` were started, and `part` did not start; its error is reported.
  pub record IsStoppedAt (parts : List Part) (out : List (Action Frame) × Option Text)
      : Type 0 where
    pub earlier : List Part
    pub part : Part
    pub later : List Part
    pub text : Text
    pub order : parts_of parts ≡ earlier ++ part ∷ later
    pub earlier_start : All DoesStart earlier
    pub error : w.start_error part ≡ some text
    pub stopped : out ≡ (map starts (earlier ++ part ∷ []), some (failure_of part text))

  -- A part in front of the others that is there.
  front-IsStarted :
      (p : Part) (ps : List Part) (e : Option Text)
      → w.has p ≡ true
      → w.start_error p ≡ e
      → IsStarted ps (start_all w ps) ⊎ IsStoppedAt ps (start_all w ps)
      → IsStarted (p ∷ ps) (start_part w p e (start_all w ps))
        ⊎ IsStoppedAt (p ∷ ps) (start_part w p e (start_all w ps))
  unfolding parts_of start_part
  front-IsStarted p ps (some x) h k v = inr (record {
    earlier = [];
    part = p;
    later = parts_of ps;
    text = x;
    order = if_true (w.has p) _ _ h;
    earlier_start = tt;
    error = k;
    stopped = refl;
  })
  front-IsStarted p ps none h k (inl v) =
      let e = if_true (w.has p) (p ∷ parts_of ps) (parts_of ps) h in
      inl (record {
        all_start = subst (All DoesStart) (sym e) (k, v.all_start);
        started =
            ap (λ (x : List (Action Frame) × Option Text). (starts p ∷ x.0, x.1)) v.started
            ∙ ap (λ qs. (map starts qs, none)) (sym e);
      })
  front-IsStarted p ps none h k (inr v) = inr (record {
    earlier = p ∷ v.earlier;
    part = v.part;
    later = v.later;
    text = v.text;
    order = if_true (w.has p) _ _ h ∙ ap (λ qs. p ∷ qs) v.order;
    earlier_start = (k, v.earlier_start);
    error = v.error;
    stopped = ap (λ (x : List (Action Frame) × Option Text). (starts p ∷ x.0, x.1)) v.stopped;
  })

  -- A part that is not there.
  absent-IsStarted :
      (p : Part) (ps : List Part) (out : List (Action Frame) × Option Text)
      → w.has p ≡ false
      → IsStarted ps out ⊎ IsStoppedAt ps out
      → IsStarted (p ∷ ps) out ⊎ IsStoppedAt (p ∷ ps) out
  unfolding parts_of
  absent-IsStarted p ps out h (inl v) =
      let e = if_false (w.has p) (p ∷ parts_of ps) (parts_of ps) h in
      inl (record {
        all_start = subst (All DoesStart) (sym e) v.all_start;
        started = v.started ∙ ap (λ qs. (map starts qs, none)) (sym e);
      })
  absent-IsStarted p ps out h (inr v) = inr (record {
    earlier = v.earlier;
    part = v.part;
    later = v.later;
    text = v.text;
    order = if_false (w.has p) _ _ h ∙ v.order;
    earlier_start = v.earlier_start;
    error = v.error;
    stopped = v.stopped;
  })

  start_all-IsStarted :
      (ps : List Part) → IsStarted ps (start_all w ps) ⊎ IsStoppedAt ps (start_all w ps)
  unfolding start_all parts_of
  start_all-IsStarted [] = inl (record { all_start = tt; started = refl })
  start_all-IsStarted (p ∷ ps) =
      if-cases (λ out. IsStarted (p ∷ ps) out ⊎ IsStoppedAt (p ∷ ps) out) (w.has p) _ _
        (λ h. front-IsStarted p ps (w.start_error p) h refl (start_all-IsStarted ps))
        (λ h. absent-IsStarted p ps _ h (start_all-IsStarted ps))

  -- All parts started, in order, and then what else was done.
  pub record IsServed (out : List (Action Frame) × Option Text) : Type 0 where
    pub all_start : All DoesStart (parts_of start_order)
    pub rest : List (Action Frame)
    pub served : out ≡ (map starts (parts_of start_order) ++ rest, none)
    pub graceful : IsGraceful all_frames out.0

  -- What `Run` did: it served and shut down, or it stopped at a part that did not start.
  abbrev pub Outcome : List (Action Frame) × Option Text → Type 0
  Outcome out = IsServed out ⊎ IsStoppedAt start_order out

  -- What follows the start, with and without a Busy Bar client.
  joined_by_client :
      (hb : Bool) (started a : List (Action Frame))
      → All IsStart started
      → frames_of a ≡ []
      → IsGraceful (if hb then received w.arrivals ++ w.left else []) (
          started
          ++ ((if hb then frame_loop w w.arrivals else [])
              ++ (when w.has_store disconnects
                  ++ (when hb (closes busy_client)
                      ++ ((if hb then map handles w.left else []) ++ a)))))
  unfolding frames_of
  joined_by_client true started a h ea =
      joined-IsGraceful started (frame_loop w w.arrivals) (when w.has_store disconnects)
        (when true (closes busy_client)) (map handles w.left) a (received w.arrivals) w.left
        (frames_of-starts started h) (frames_of-frame_loop w.arrivals)
        (frames_of-when w.has_store disconnects refl)
        (frames_of-when true (closes busy_client) refl) (frames_of-handles w.left) ea
        (All-map IsStart IsOpen IsOpen-start started h) (frame_loop-IsOpen w.arrivals)
        (when-IsOpen w.has_store disconnects tt) (when-IsOpen true (closes busy_client) refl)
        (handles-IsOpen w.left)
  joined_by_client false started a h ea =
      joined-IsGraceful started [] (when w.has_store disconnects) (when false (closes busy_client))
        [] a [] [] (frames_of-starts started h) refl (frames_of-when w.has_store disconnects refl)
        (frames_of-when false (closes busy_client) refl) refl ea
        (All-map IsStart IsOpen IsOpen-start started h) tt (when-IsOpen w.has_store disconnects tt)
        (when-IsOpen false (closes busy_client) refl) tt

  serve-Outcome :
      (out : List (Action Frame) × Option Text)
      → IsStarted start_order out ⊎ IsStoppedAt start_order out
      → Outcome (serve w out)
  unfolding serve shut_down frames_of
  serve-Outcome out (inl v) =
      subst (λ x. Outcome (serve w x)) (sym v.started)
        (inl (record {
          all_start = v.all_start;
          rest = _;
          served = refl;
          graceful =
              joined_by_client (w.has busy_client) (map starts (parts_of start_order)) _
                (starts-IsStart (parts_of start_order))
                (frames_of-when (w.has server) shuts_down_server refl);
        }))
  serve-Outcome out (inr v) =
      subst (λ x. Outcome (serve w x)) (sym v.stopped)
        (inr (record {
          earlier = v.earlier;
          part = v.part;
          later = v.later;
          text = v.text;
          order = v.order;
          earlier_start = v.earlier_start;
          error = v.error;
          stopped = refl;
        }))

  -- A `Run` starts the parts that there are, in order. If one does not start, it stops there: the
  -- parts before it were started, nothing else was done, and its error is returned. If all start, no
  -- error is returned, and every frame that the loop received, and every frame that was left in the
  -- channel, is handled, in the order of their arrival, before anything but the Busy Bar client is
  -- closed, and no frame is handled after that.
  pub run-Outcome : Outcome (run w false)
  unfolding run
  run-Outcome = serve-Outcome _ (start_all-IsStarted start_order)
