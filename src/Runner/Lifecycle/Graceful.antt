-- ===== src/Runner/Lifecycle/Graceful.antt =====
-- Actions that handle all frames before anything but the Busy Bar client is closed.
use mathlib.Core.List.{append_assoc}
use busybar_bridge.Prelude.{
  ◌≡◌, refl, ap, Bool, true, false, List, [], ◌∷◌, ◌++◌, arith, map, All, All-append,
}
use busybar_bridge.Runner.Lifecycle.{
  busy_client, Action, starts, handles, disconnects, closes, closes_together, shuts_down_server,
  Arrival, cancelled, closed, frame, when,
}

module _ {Frame : Type 0} where
  -- The frames that were handled.
  unfoldable pub frames_of : List (Action Frame) → List Frame
  frames_of [] = []
  frames_of (handles f ∷ rest) = f ∷ frames_of rest
  frames_of (starts p ∷ rest) = frames_of rest
  frames_of (disconnects ∷ rest) = frames_of rest
  frames_of (closes p ∷ rest) = frames_of rest
  frames_of (closes_together ps ∷ rest) = frames_of rest
  frames_of (shuts_down_server ∷ rest) = frames_of rest

  pub frames_of-append :
      (xs ys : List (Action Frame)) → frames_of (xs ++ ys) ≡ frames_of xs ++ frames_of ys
  unfolding frames_of
  frames_of-append [] ys = refl
  frames_of-append (handles f ∷ rest) ys = ap (λ z. f ∷ z) (frames_of-append rest ys)
  frames_of-append (starts p ∷ rest) ys = frames_of-append rest ys
  frames_of-append (disconnects ∷ rest) ys = frames_of-append rest ys
  frames_of-append (closes p ∷ rest) ys = frames_of-append rest ys
  frames_of-append (closes_together ps ∷ rest) ys = frames_of-append rest ys
  frames_of-append (shuts_down_server ∷ rest) ys = frames_of-append rest ys

  pub frames_of-handles : (fs : List Frame) → frames_of (map handles fs) ≡ fs
  unfolding frames_of
  frames_of-handles [] = refl
  frames_of-handles (f ∷ fs) = ap (λ z. f ∷ z) (frames_of-handles fs)

  -- The frames that the loop receives before it ends.
  unfoldable pub received : List (Arrival Frame) → List Frame
  received [] = []
  received (cancelled ∷ rest) = []
  received (closed ∷ rest) = []
  received (frame f ∷ rest) = f ∷ received rest

  -- Actions that leave the parts open that the frames go to.
  abbrev pub IsOpen : Action Frame → Type 0
  IsOpen (closes_together ps) = ⊥
  IsOpen shuts_down_server = ⊥
  IsOpen (starts p) = Unit {0}
  IsOpen (handles f) = Unit {0}
  IsOpen disconnects = Unit {0}
  IsOpen (closes p) = p ≡ busy_client

  -- All frames are handled, in order, before anything but the Busy Bar client is closed.
  pub record IsGraceful (frames : List Frame) (actions : List (Action Frame)) : Type 0 where
    pub before : List (Action Frame)
    pub after : List (Action Frame)
    pub split : actions ≡ before ++ after
    pub handled : frames_of before ≡ frames
    pub no_more : frames_of after ≡ []
    pub kept_open : All IsOpen before

  -- Actions that only start parts.
  abbrev pub IsStart : Action Frame → Type 0
  IsStart (starts p) = Unit {0}
  IsStart _ = ⊥

  pub frames_of-starts : (xs : List (Action Frame)) → All IsStart xs → frames_of xs ≡ []
  unfolding frames_of
  frames_of-starts [] h = refl
  frames_of-starts (starts p ∷ rest) h = frames_of-starts rest h.1
  frames_of-starts (handles f ∷ rest) h = absurd h.0
  frames_of-starts (disconnects ∷ rest) h = absurd h.0
  frames_of-starts (closes p ∷ rest) h = absurd h.0
  frames_of-starts (closes_together ps ∷ rest) h = absurd h.0
  frames_of-starts (shuts_down_server ∷ rest) h = absurd h.0

  pub IsOpen-start : (x : Action Frame) → IsStart x → IsOpen x
  IsOpen-start (starts p) h = tt
  IsOpen-start (handles f) h = tt
  IsOpen-start disconnects h = tt
  IsOpen-start (closes p) h = absurd h
  IsOpen-start (closes_together ps) h = absurd h
  IsOpen-start shuts_down_server h = absurd h

  pub handles-IsOpen : (fs : List Frame) → All IsOpen (map handles fs)
  handles-IsOpen [] = tt
  handles-IsOpen (f ∷ fs) = (tt, handles-IsOpen fs)

  -- Six lists of actions one after the other, of which only the second and the fifth handle frames.
  pub joined-IsGraceful :
      (s l d b r a : List (Action Frame)) (fs gs : List Frame)
      → frames_of s ≡ []
      → frames_of l ≡ fs
      → frames_of d ≡ []
      → frames_of b ≡ []
      → frames_of r ≡ gs
      → frames_of a ≡ []
      → All IsOpen s
      → All IsOpen l
      → All IsOpen d
      → All IsOpen b
      → All IsOpen r
      → IsGraceful (fs ++ gs) (s ++ (l ++ (d ++ (b ++ (r ++ a)))))
  joined-IsGraceful s l d b r a fs gs es el ed eb er ea os ol od ob or_ = record {
    before = s ++ (l ++ (d ++ (b ++ r)));
    after = a;
    split = ground (
      arith,
      append_assoc s (l ++ (d ++ (b ++ r))) a,
      append_assoc l (d ++ (b ++ r)) a,
      append_assoc d (b ++ r) a,
      append_assoc b r a,
    );
    handled = ground (
      arith,
      frames_of-append s (l ++ (d ++ (b ++ r))),
      frames_of-append l (d ++ (b ++ r)),
      frames_of-append d (b ++ r),
      frames_of-append b r,
    );
    no_more = ea;
    kept_open =
        All-append IsOpen s _ os
          (All-append IsOpen l _ ol (All-append IsOpen d _ od (All-append IsOpen b r ob or_)));
  }

  pub frames_of-when :
      (b : Bool) (x : Action Frame) → frames_of (x ∷ []) ≡ [] → frames_of (when b x) ≡ []
  unfolding when frames_of
  frames_of-when true x h = h
  frames_of-when false x h = refl

  pub when-IsOpen : (b : Bool) (x : Action Frame) → IsOpen x → All IsOpen (when b x)
  unfolding when
  when-IsOpen true x h = (h, tt)
  when-IsOpen false x h = tt
