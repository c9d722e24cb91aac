-- ===== src/Busybar/Push/Mailbox.antt =====
-- The mailbox keeps the latest frame.
use busybar_bridge.Prelude.{
  ℕ, suc, ◌+◌, ◌≡◌, refl, Bool, true, false, not, List, [], ◌∷◌, ◌++◌, Option, none, some, arith,
  if-cases, Option-cases, inl, inr,
}
use busybar_bridge.Prelude.Result.{Result, ok, err}
use busybar_bridge.Busybar.Push.{
  Frame, PushConfig, RecorderCall, push_attempt, push_drop, push_result, PushClient, PushError,
  Pushed, new_push_client, start, put, refuse, push_some, push_frame, receive, leave, close, is_nil,
}

-- A step of a client, as its users and its worker take it.
pub data Call : Type 0 where
  pushes : Option Frame → Bool → Call
  starts receives leaves closes : Call

-- The client, with how many frames were put into the mailbox and how many the worker got, and the
-- last of each.
pub record Run : Type 0 where
  pub client : PushClient
  pub stored : ℕ
  pub last_stored : Option Frame
  pub got : ℕ
  pub last_got : Option Frame

abbrev pub fresh : PushConfig → Run
fresh cfg = record {
  client = new_push_client cfg;
  stored = 0;
  last_stored = none;
  got = 0;
  last_got = none;
}

hand : Run → Option Frame → Run
hand r none = r
hand r (some f) = record r { got = suc r.got; last_got = some f }

note : Run → Option Frame → Bool → Run
note r f true = record r { stored = suc r.stored; last_stored = f }
note r f false = r

started : Run → Result PushError PushClient → Run
started r (ok c) = record r { client = c }
started r (err e) = r

step : Run → Call → Run
unfolding hand note started push_frame receive leave close start
step r (pushes f race) =
    let out = push_frame r.client f race in
    record (note (hand r out.taken) f out.stored) { client = out.client }
step r starts = started r (start r.client)
step r receives = let out = receive r.client in record (hand r out.0) { client = out.1 }
step r leaves = record r { client = leave r.client }
step r closes = record r { client = close r.client }

pub run : Run → List Call → Run
unfolding step
run r [] = r
run r (c ∷ cs) = run (step r c) cs

pub drops : List RecorderCall → ℕ
drops [] = 0
drops (push_drop ∷ cs) = suc (drops cs)
drops (push_attempt ∷ cs) = drops cs
drops (push_result b l e ∷ cs) = drops cs

drops-append : (xs ys : List RecorderCall) → drops (xs ++ ys) ≡ drops xs + drops ys
unfolding drops
drops-append [] ys = omega arith
drops-append (push_drop ∷ xs) ys = omega (arith, drops-append xs ys)
drops-append (push_attempt ∷ xs) ys = drops-append xs ys
drops-append (push_result b l e ∷ xs) ys = drops-append xs ys

abbrev pub occupancy : Option Frame → ℕ
occupancy none = 0
occupancy (some f) = 1

abbrev pub latest : Option Frame → Option Frame → Option Frame
latest none got = got
latest (some f) got = some f

-- Nothing is lost silently, and the newest frame is never lost.
pub record IsLatest (r : Run) : Type 0 where
  pub accounted : r.stored ≡ r.got + drops r.client.recorded + occupancy r.client.mailbox
  pub newest : r.last_stored ≡ latest r.client.mailbox r.last_got

put-IsLatest :
    (r : Run) (f : Frame) (race : Bool) (m : Option Frame)
    → r.client.mailbox ≡ m
    → IsLatest r
    → let out = put r.client f race m in
      IsLatest (record (note (hand r out.taken) (some f) out.stored) { client = out.client })
unfolding put hand note drops
put-IsLatest r f race none e v = ground arith
put-IsLatest r f race (some old) e v =
    ground (arith, e, v.accounted, drops-append r.client.recorded (push_drop ∷ []))

push_some-IsLatest :
    (r : Run) (f : Frame) (race : Bool)
    → IsLatest r
    → let out = push_some r.client f race in
      IsLatest (record (note (hand r out.taken) (some f) out.stored) { client = out.client })
unfolding push_some refuse hand note
push_some-IsLatest r f race v =
    if-cases
      (λ (out : Pushed).
        IsLatest (record (note (hand r out.taken) (some f) out.stored) { client = out.client }))
      (is_nil f.bytes) _ _ (λ e. v)
      (λ e.
        if-cases
          (λ (out : Pushed).
            IsLatest (record (note (hand r out.taken) (some f) out.stored) { client = out.client }))
          r.client.closed _ _ (λ k. v) (λ k. put-IsLatest r f race r.client.mailbox refl v))

step-IsLatest : (r : Run) (c : Call) → IsLatest r → IsLatest (step r c)
unfolding step push_frame refuse hand note
step-IsLatest r (pushes none race) v =
    if-cases
      (λ (out : Pushed).
        IsLatest (record (note (hand r out.taken) none out.stored) { client = out.client }))
      (not r.client.cfg.enabled) _ _ (λ e. v) (λ e. v)
step-IsLatest r (pushes (some f) race) v =
    if-cases
      (λ (out : Pushed).
        IsLatest (record (note (hand r out.taken) (some f) out.stored) { client = out.client }))
      (not r.client.cfg.enabled) _ _ (λ e. v) (λ e. push_some-IsLatest r f race v)
step-IsLatest r starts v = ground arith
step-IsLatest r receives v = elim (Option-cases r.client.mailbox) [
  | inl e ↦ ground arith
  | inr (f, e) ↦ ground arith
]
step-IsLatest r leaves v = record { accounted = v.accounted; newest = v.newest }
step-IsLatest r closes v = record { accounted = v.accounted; newest = v.newest }

run-IsLatest : (r : Run) (cs : List Call) → IsLatest r → IsLatest (run r cs)
unfolding run
run-IsLatest r [] v = v
run-IsLatest r (c ∷ cs) v = run-IsLatest (step r c) cs (step-IsLatest r c v)

fresh-IsLatest : (cfg : PushConfig) → IsLatest (fresh cfg)
unfolding new_push_client drops
fresh-IsLatest cfg = record { accounted = omega arith; newest = refl }

-- However `PushFrame`, `Start`, the worker's receives and its exit, and `Close` interleave on a new
-- client: every frame that was put into the mailbox is with the worker, still in the mailbox, or
-- recorded as one drop; and the last frame that was put there is never the dropped one: it is in the
-- mailbox, or it is the last that the worker got.
pub run-fresh-IsLatest : (cfg : PushConfig) (cs : List Call) → IsLatest (run (fresh cfg) cs)
run-fresh-IsLatest cfg cs = run-IsLatest (fresh cfg) cs (fresh-IsLatest cfg)
