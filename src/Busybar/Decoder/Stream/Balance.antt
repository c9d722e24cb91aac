-- ===== src/Busybar/Decoder/Stream/Balance.antt =====
-- Each decoded event is sent or counted as dropped.
use busybar_bridge.Prelude.{
  ℕ, suc, ◌+◌, ◌≡◌, refl, ◌≢◌, ◌⊎◌, inl, inr, Option-cases, List, [], ◌∷◌, ◌++◌, Option, none, some,
  arith, length, length-append,
}
use busybar_bridge.Prelude.Int.{ℤ}
use busybar_bridge.Prelude.Text.{Text}
use busybar_bridge.Proto.Upstream.{State}
use busybar_bridge.Proto.Normalized.{NormalizedEvent}
use busybar_bridge.Busybar.Decoder.{
  MetricCall, decode_success, decode_error, dropped_frame, success_call, event_time,
  normalize_updates, decode,
}
use busybar_bridge.Busybar.Decoder.Stream.{
  Select, done, sent, full, Arrival, cancelled, closed, frame, context_error, waiting, Trace, emit,
  after, emit_decoded, run,
}

-- How many frames were dropped.
pub drops : List MetricCall → ℕ
drops [] = 0
drops (dropped_frame ∷ cs) = suc (drops cs)
drops (decode_error ∷ cs) = drops cs
drops (decode_success n ∷ cs) = drops cs

-- How many events the decoder reported.
pub decoded : List MetricCall → ℕ
decoded [] = 0
decoded (decode_success n ∷ cs) = n + decoded cs
decoded (dropped_frame ∷ cs) = decoded cs
decoded (decode_error ∷ cs) = decoded cs

-- Each event is sent or counted as dropped, unless the context was done.
emit-balance :
    (choose : ℕ → Select) (i : ℕ) (es : List NormalizedEvent)
    → let t = emit choose i es in
      (t.exit ≡ context_error)
      ⊎ ((t.exit ≡ waiting)
          × (length t.out + drops t.recorded ≡ length es)
          × (decoded t.recorded ≡ 0))
unfolding emit drops decoded
emit-balance choose i [] = inr (refl, omega arith, omega arith)
emit-balance choose i (e ∷ es) = ground (arith, emit-balance choose (i + 1) es)

drops-append : (xs ys : List MetricCall) → drops (xs ++ ys) ≡ drops xs + drops ys
unfolding drops
drops-append [] ys = omega arith
drops-append (decode_success n ∷ xs) ys = drops-append xs ys
drops-append (decode_error ∷ xs) ys = drops-append xs ys
drops-append (dropped_frame ∷ xs) ys = omega (arith, drops-append xs ys)

decoded-append : (xs ys : List MetricCall) → decoded (xs ++ ys) ≡ decoded xs + decoded ys
unfolding decoded
decoded-append [] ys = omega arith
decoded-append (decode_success n ∷ xs) ys = omega (arith, decoded-append xs ys)
decoded-append (decode_error ∷ xs) ys = decoded-append xs ys
decoded-append (dropped_frame ∷ xs) ys = decoded-append xs ys

abbrev pub IsBalanced : Trace → Type 0
IsBalanced t = length t.out + drops t.recorded ≡ decoded t.recorded

-- How many events a result of `Decode` has.
count_events : Option (List NormalizedEvent) → ℕ
count_events none = 0
count_events (some es) = length es

emit_decoded-IsBalanced :
    (es : Option (List NormalizedEvent)) (recorded : List MetricCall) (choose : ℕ → Select)
    → drops recorded ≡ 0
    → decoded recorded ≡ count_events es
    → let t = emit_decoded es recorded choose in
      (t.exit ≡ context_error) ⊎ ((t.exit ≡ waiting) × IsBalanced t)
unfolding emit_decoded count_events
emit_decoded-IsBalanced none recorded choose h k = inr (refl, omega arith)
emit_decoded-IsBalanced (some es) recorded choose h k = ground (
  arith,
  emit-balance choose 0 es,
  drops-append recorded (emit choose 0 es).recorded,
  decoded-append recorded (emit choose 0 es).recorded,
)

after-IsBalanced :
    (t rest : Trace)
    → (t.exit ≡ context_error) ⊎ ((t.exit ≡ waiting) × IsBalanced t)
    → (rest.exit ≢ context_error → IsBalanced rest)
    → (after t rest).exit ≢ context_error
    → IsBalanced (after t rest)
unfolding after
after-IsBalanced t rest b k h = ground (
  arith,
  length-append t.out rest.out,
  drops-append t.recorded rest.recorded,
  decoded-append t.recorded rest.recorded,
)

decoded-success_call :
    (es : List NormalizedEvent)
    → (drops (success_call es) ≡ 0) × (decoded (success_call es) ≡ length es)
unfolding success_call drops decoded
decoded-success_call [] = (refl, refl)
decoded-success_call (e ∷ es) = (refl, omega arith)

module _ {Payload : Type 0} (unmarshal : Payload → Option State) (device : Text) where
  -- `decode` reports exactly the events that it returns, and no drop.
  decode-recorded :
      (p : Payload) (now : ℤ)
      → let d = decode unmarshal device now p in
        (drops d.recorded ≡ 0) × (decoded d.recorded ≡ count_events d.events)
  unfolding decode count_events drops decoded
  decode-recorded p now = elim (Option-cases (unmarshal p)) [
    | inl e ↦ ground arith
    | inr (s, e) ↦
        rw (e, decode)
          (decoded-success_call (normalize_updates device (event_time now s) s.updates))
  ]

-- Each of the events is sent on, in order, or is one of the `n` that are dropped.
pub data Passes : List NormalizedEvent → List NormalizedEvent → ℕ → Type 0 where
  none_left : {n : ℕ} → n ≡ 0 → Passes [] [] n
  sends :
      {e : NormalizedEvent} {es out : List NormalizedEvent} {n : ℕ}
      → Passes es out n
      → Passes (e ∷ es) (e ∷ out) n
  drops_one :
      {e : NormalizedEvent} {es out : List NormalizedEvent} {n k : ℕ}
      → n ≡ k + 1
      → Passes es out k
      → Passes (e ∷ es) out n

Passes-append :
    (es es' out out' : List NormalizedEvent) (n n' m : ℕ)
    → m ≡ n + n'
    → Passes es out n
    → Passes es' out' n'
    → Passes (es ++ es') (out ++ out') m
Passes-append [] es' [] out' n n' m h (none_left z) q = let e : m ≡ n' = omega arith in rw e q
Passes-append [] es' (x ∷ out) out' n n' m h p q = elim p [ ]
Passes-append (e ∷ es) es' (x ∷ out) out' n n' m h (sends p) q =
    sends (Passes-append es es' out out' n n' m h p q)
Passes-append (e ∷ es) es' out out' n n' m h (drops_one {k = k} z p) q =
    drops_one {k = k + n'} (omega arith) (Passes-append es es' out out' k n' (k + n') refl p q)

Select-cases : (s : Select) → (s ≡ done) ⊎ ((s ≡ sent) ⊎ (s ≡ full))
Select-cases done = inl refl
Select-cases sent = inr (inl refl)
Select-cases full = inr (inr refl)

emit-Passes :
    (choose : ℕ → Select) (i : ℕ) (es : List NormalizedEvent)
    → (emit choose i es).exit ≡ waiting
    → Passes es (emit choose i es).out (drops (emit choose i es).recorded)
unfolding emit drops
emit-Passes choose i [] = λ h. none_left refl
emit-Passes choose i (e ∷ es) = elim (Select-cases (choose i)) [
  | inl c ↦ rw (c, emit) (λ h. absurd (ground arith))
  | inr (inl c) ↦ rw (c, emit) (λ h. sends (emit-Passes choose (i + 1) es h))
  | inr (inr c) ↦ rw (c, emit) (λ h. drops_one (omega arith) (emit-Passes choose (i + 1) es h))
]

abbrev events_in : Option (List NormalizedEvent) → List NormalizedEvent
events_in none = []
events_in (some es) = es

emit_decoded-Passes :
    (es : Option (List NormalizedEvent)) (recorded : List MetricCall) (choose : ℕ → Select)
    → drops recorded ≡ 0
    → (emit_decoded es recorded choose).exit ≡ waiting
    → Passes
        (events_in es)
        (emit_decoded es recorded choose).out
        (drops (emit_decoded es recorded choose).recorded)
unfolding emit_decoded
emit_decoded-Passes none recorded choose z h = none_left z
emit_decoded-Passes (some es) recorded choose z h =
    let d : drops (recorded ++ (emit choose 0 es).recorded) ≡ drops (emit choose 0 es).recorded =
      omega (arith, drops-append recorded (emit choose 0 es).recorded) in
    rw d (emit-Passes choose 0 es h)

after-Passes :
    (es es' : List NormalizedEvent) (t rest : Trace)
    → (t.exit ≡ context_error) ⊎ (t.exit ≡ waiting)
    → (t.exit ≡ waiting → Passes es t.out (drops t.recorded))
    → (rest.exit ≢ context_error → Passes es' rest.out (drops rest.recorded))
    → (after t rest).exit ≢ context_error
    → Passes (es ++ es') (after t rest).out (drops (after t rest).recorded)
unfolding after
after-Passes es es' t rest (inl c) p q = λ h. absurd (h (ground arith))
after-Passes es es' t rest (inr c) p q = rw c (λ h.
    Passes-append es es' t.out rest.out (drops t.recorded) (drops rest.recorded) _
      (drops-append t.recorded rest.recorded) (p c) (q h))

module _ {Payload : Type 0} (unmarshal : Payload → Option State) (device : Text) where
  -- The events that `Decode` returns for the frames up to the end of the arrivals, to the first
  -- cancellation or to the close of the channel.
  abbrev pub events_of : List (Arrival Payload) → List NormalizedEvent
  events_of [] = []
  events_of (cancelled ∷ rest) = []
  events_of (closed ∷ rest) = []
  events_of (frame p now choose ∷ rest) =
      events_in (decode unmarshal device now p).events ++ events_of rest

  run-count :
      (arrivals : List (Arrival Payload))
      → (run unmarshal device arrivals).exit ≢ context_error
      → IsBalanced (run unmarshal device arrivals)
  unfolding run drops decoded
  run-count [] h = refl
  run-count (cancelled ∷ rest) h = refl
  run-count (closed ∷ rest) h = refl
  run-count (frame p now choose ∷ rest) h =
      let d = decode unmarshal device now p in
      let r = decode-recorded unmarshal device p now in
      after-IsBalanced _ (run unmarshal device rest)
        (emit_decoded-IsBalanced d.events d.recorded choose r.0 r.1) (run-count rest) h

  exit-emit_decoded :
      (p : Payload) (now : ℤ) (choose : ℕ → Select)
      → let d = decode unmarshal device now p in
        let t = emit_decoded d.events d.recorded choose in
        (t.exit ≡ context_error) ⊎ (t.exit ≡ waiting)
  exit-emit_decoded p now choose =
      let d = decode unmarshal device now p in
      let r = decode-recorded unmarshal device p now in
      elim (emit_decoded-IsBalanced d.events d.recorded choose r.0 r.1) [
        | inl c ↦ inl c
        | inr c ↦ inr c.0
      ]

  run-Passes :
      (arrivals : List (Arrival Payload))
      → let t = run unmarshal device arrivals in
        t.exit ≢ context_error → Passes (events_of arrivals) t.out (drops t.recorded)
  unfolding run drops
  run-Passes [] h = none_left refl
  run-Passes (cancelled ∷ rest) h = absurd (h refl)
  run-Passes (closed ∷ rest) h = none_left refl
  run-Passes (frame p now choose ∷ rest) h =
      let d = decode unmarshal device now p in
      let r = decode-recorded unmarshal device p now in
      after-Passes _ _ _ (run unmarshal device rest) (exit-emit_decoded p now choose)
        (emit_decoded-Passes d.events d.recorded choose r.0) (run-Passes rest) h

  -- Unless the context is cancelled: the events that `Decode` returned for the frames that arrived,
  -- up to the close of the channel, are sent out unchanged and in order, all but those that are
  -- counted as dropped frames, and nothing else is sent; and as many events are reported to the
  -- metrics as decoded as are sent or dropped.
  pub run-IsBalanced :
      (arrivals : List (Arrival Payload))
      → let t = run unmarshal device arrivals in
        t.exit ≢ context_error → Passes (events_of arrivals) t.out (drops t.recorded) × IsBalanced t
  run-IsBalanced arrivals h = (run-Passes arrivals h, run-count arrivals h)
