-- ===== src/Calendar/Poller/Selection.antt =====
-- Which event a poll selects.
use mathlib.Core.Path.{subst}
use mathlib.Core.Option.{some-injective}
use busybar_bridge.Prelude.{
  ◌≡◌, sym, ap, ◌∙◌, ◌⊎◌, inl, inr, refl, Bool, true, false, Option-cases, List, [], ◌∷◌, Option,
  none, some, arith, All, All-map, Some, if-cases,
}
use busybar_bridge.Prelude.Int.{ℤ, ◌≤ℤ◌, ◌<ℤ◌, time_sub}
use busybar_bridge.Prelude.Result.{ok}
use busybar_bridge.Prelude.Text.{Text, codes, is_empty, equal_fold, text_lt}
use busybar_bridge.Calendar.Store.{CalendarBinding}
use busybar_bridge.Calendar.Events.{
  ActiveEvent, EventItem, idle_event, format_countdown, is_declined, before, insert_event,
  sort_events, active_event_of, timed, consider, collect, collect_round,
}
use busybar_bridge.Calendar.Poller.{
  Poller, answered, record_poll, settle, handle_reply, bound, poll,
}

text_lt_irrefl : (a : Text) → text_lt a a ≡ false
unfolding text_lt
text_lt_irrefl [] = refl
text_lt_irrefl (x ∷ a) = ground (arith, text_lt_irrefl a)

text_lt_asym : (a b : Text) → text_lt a b ≡ true → text_lt b a ≡ false
unfolding text_lt
text_lt_asym [] [] h = refl
text_lt_asym [] (y ∷ b) h = refl
text_lt_asym (x ∷ a) [] h = absurd (ground arith)
text_lt_asym (x ∷ a) (y ∷ b) h = ground (arith, h, text_lt_asym a b)

text_lt_cotrans : (a b c : Text) → text_lt a b ≡ false → text_lt b c ≡ false → text_lt a c ≡ false
unfolding text_lt
text_lt_cotrans [] [] c h k = k
text_lt_cotrans [] (y ∷ b) c h k = absurd (ground arith)
text_lt_cotrans (x ∷ a) [] [] h k = refl
text_lt_cotrans (x ∷ a) [] (z ∷ c) h k = absurd (ground arith)
text_lt_cotrans (x ∷ a) (y ∷ b) [] h k = refl
text_lt_cotrans (x ∷ a) (y ∷ b) (z ∷ c) h k = ground (arith, h, k, text_lt_cotrans a b c)

before_irrefl : (a : ActiveEvent) → before a a ≡ false
unfolding before
before_irrefl a = ground (arith, text_lt_irrefl a.summary)

before_asym : (a b : ActiveEvent) → before a b ≡ true → before b a ≡ false
unfolding before
before_asym a b h = ground (arith, h, text_lt_asym a.summary b.summary)

before_cotrans :
    (a b c : ActiveEvent) → before a b ≡ false → before b c ≡ false → before a c ≡ false
unfolding before
before_cotrans a b c h k = ground (arith, h, k, text_lt_cotrans a.summary b.summary c.summary)

-- `w` is one of the events, and none of them goes before it.
abbrev pub IsFirst : List ActiveEvent → ActiveEvent → Type 0
IsFirst events w = Some (λ a. a ≡ w) events × All (λ a. before a w ≡ false) events

-- The head of a sorted list of the events.
abbrev HeadIsFirst : List ActiveEvent → List ActiveEvent → Type 0
HeadIsFirst events [] = events ≡ []
HeadIsFirst events (w ∷ rest) = IsFirst events w

insert_event-HeadIsFirst :
    (a : ActiveEvent) (events sorted : List ActiveEvent)
    → HeadIsFirst events sorted
    → HeadIsFirst (a ∷ events) (insert_event a sorted)
unfolding insert_event
insert_event-HeadIsFirst a events [] h =
    (inl refl, (before_irrefl a, subst (All (λ x. before x a ≡ false)) (sym h) tt))
insert_event-HeadIsFirst a events (w ∷ rest) h =
    if-cases (HeadIsFirst (a ∷ events)) (before w a) _ _ (λ e. (inr h.0, (before_asym w a e, h.1)))
      (λ e. (inl refl, (before_irrefl a, All-map _ _ (λ x k. before_cotrans x w a k e) events h.1)))

sort_events-HeadIsFirst : (events : List ActiveEvent) → HeadIsFirst events (sort_events events)
unfolding sort_events
sort_events-HeadIsFirst [] = refl
sort_events-HeadIsFirst (a ∷ events) =
    insert_event-HeadIsFirst a events (sort_events events) (sort_events-HeadIsFirst events)

-- `a` is shown rather than `b`: it ends earlier, or ends with it and began later, or has the same
-- times and a smaller summary.
abbrev pub Precedes : ActiveEvent → ActiveEvent → Type 0
Precedes a b =
    (a.end_time <ℤ b.end_time)
    ⊎ (((a.end_time ≡ b.end_time) × (b.start_time <ℤ a.start_time))
        ⊎ ((a.end_time ≡ b.end_time)
            × (a.start_time ≡ b.start_time)
            × (text_lt a.summary b.summary ≡ true)))

not_before-Precedes : (a b : ActiveEvent) → before a b ≡ false → Precedes a b → ⊥
unfolding before
not_before-Precedes a b h (inl p) = ground arith
not_before-Precedes a b h (inr (inl (e, p))) = ground arith
not_before-Precedes a b h (inr (inr (e, f, p))) = ground arith

module _ (parse_time : Text → Option ℤ) (email : Text) (now : ℤ) where
  -- The item is an event that is on: neither cancelled nor marked as free, with times of day, not
  -- declined, begun and not over; `a` is what the poller keeps of it.
  pub record IsOngoing (item : EventItem) (a : ActiveEvent) : Type 0 where
    pub not_cancelled : equal_fold item.status (codes "cancelled") ≡ false
    pub not_free : equal_fold item.transparency (codes "transparent") ≡ false
    pub start_given : is_empty item.start.date_time ≡ false
    pub end_given : is_empty item.end.date_time ≡ false
    pub start_read : parse_time item.start.date_time ≡ some a.start_time
    pub end_read : parse_time item.end.date_time ≡ some a.end_time
    pub not_declined : is_declined item.attendees email ≡ false
    pub begun : a.start_time ≤ℤ now
    pub not_over : now <ℤ a.end_time
    pub summary : a.summary ≡ item.summary
    pub countdown : a.countdown ≡ format_countdown (time_sub a.end_time now)
    pub busy : a.idle ≡ false

  timed-some :
      (item : EventItem) (s e : ℤ)
      → is_empty item.start.date_time ≡ false
      → is_empty item.end.date_time ≡ false
      → parse_time item.start.date_time ≡ some s
      → parse_time item.end.date_time ≡ some e
      → timed parse_time email now item ≡ some (s, e)
  unfolding timed
  timed-some item s e h k p q = ground arith

  pub consider-IsOngoing :
      (item : EventItem) (a : ActiveEvent)
      → consider parse_time email now item ≡ some a
      → IsOngoing item a
  unfolding consider timed active_event_of
  consider-IsOngoing item a e = elim (Option-cases (parse_time item.start.date_time)) [
    | inl p ↦ absurd (ground arith)
    | inr (s, p) ↦ elim (Option-cases (parse_time item.end.date_time)) [
      | inl q ↦ absurd (ground arith)
      | inr (t, q) ↦ ground arith
    ]
  ]

  IsOngoing-consider :
      (item : EventItem) (a : ActiveEvent)
      → IsOngoing item a
      → consider parse_time email now item ≡ some a
  unfolding consider active_event_of timed
  IsOngoing-consider item a v = ground arith

  round-Some :
      (item : EventItem) (rest : List EventItem) (w : ActiveEvent) (o : Option ActiveEvent)
      (found : List ActiveEvent)
      → consider parse_time email now item ≡ o
      → (Some (λ a. a ≡ w) found → Some (λ i. IsOngoing i w) rest)
      → Some (λ a. a ≡ w) (collect_round o found)
      → Some (λ i. IsOngoing i w) (item ∷ rest)
  unfolding collect_round
  round-Some item rest w none found e ih h = inr (ih h)
  round-Some item rest w (some a) found e ih (inl k) =
      inl (consider-IsOngoing item w (e ∙ ap (λ x. some x) k))
  round-Some item rest w (some a) found e ih (inr k) = inr (ih k)

  round-All :
      (item : EventItem) (rest : List EventItem) (w : ActiveEvent) (o : Option ActiveEvent)
      (found : List ActiveEvent)
      → consider parse_time email now item ≡ o
      → (All (λ a. before a w ≡ false) found
          → All (λ i. (a : ActiveEvent) → IsOngoing i a → before a w ≡ false) rest)
      → All (λ a. before a w ≡ false) (collect_round o found)
      → All (λ i. (a : ActiveEvent) → IsOngoing i a → before a w ≡ false) (item ∷ rest)
  unfolding collect_round
  round-All item rest w none found e ih h =
      (λ a v. absurd (ground (arith, e, IsOngoing-consider item a v)), ih h)
  round-All item rest w (some b) found e ih (h, k) = (
    λ a v.
        subst (λ x. before x w ≡ false) (some-injective _ _ (sym e ∙ IsOngoing-consider item a v))
          h,
    ih k,
  )

  round-none :
      (item : EventItem) (rest : List EventItem) (o : Option ActiveEvent) (found : List ActiveEvent)
      → consider parse_time email now item ≡ o
      → (found ≡ [] → All (λ i. (a : ActiveEvent) → IsOngoing i a → ⊥) rest)
      → collect_round o found ≡ []
      → All (λ i. (a : ActiveEvent) → IsOngoing i a → ⊥) (item ∷ rest)
  unfolding collect_round
  round-none item rest none found e ih h =
      (λ a v. absurd (ground (arith, e, IsOngoing-consider item a v)), ih h)
  round-none item rest (some b) found e ih h = absurd (ground arith)

  collect-Some :
      (items : List EventItem) (w : ActiveEvent)
      → Some (λ a. a ≡ w) (collect parse_time email now items)
      → Some (λ i. IsOngoing i w) items
  unfolding collect collect_round
  collect-Some [] w h = h
  collect-Some (item ∷ rest) w h = round-Some item rest w _ _ refl (collect-Some rest w) h

  collect-All :
      (items : List EventItem) (w : ActiveEvent)
      → All (λ a. before a w ≡ false) (collect parse_time email now items)
      → All (λ i. (a : ActiveEvent) → IsOngoing i a → before a w ≡ false) items
  unfolding collect collect_round
  collect-All [] w h = tt
  collect-All (item ∷ rest) w h = round-All item rest w _ _ refl (collect-All rest w) h

  collect-none :
      (items : List EventItem)
      → collect parse_time email now items ≡ []
      → All (λ i. (a : ActiveEvent) → IsOngoing i a → ⊥) items
  unfolding collect collect_round
  collect-none [] h = tt
  collect-none (item ∷ rest) h = round-none item rest _ _ refl (collect-none rest) h

  -- What a poll should show of the items: nothing if no event is on; else one that is on, which no
  -- other that is on goes before.
  abbrev pub Selects : List EventItem → ActiveEvent → Type 0
  Selects items w =
      ((w ≡ idle_event) × All (λ i. (a : ActiveEvent) → IsOngoing i a → ⊥) items)
      ⊎ (Some (λ i. IsOngoing i w) items
          × All (λ i. (a : ActiveEvent) → IsOngoing i a → Precedes a w → ⊥) items)

  active_event-record_poll :
      (succeeded : Bool) (summary : Text) (e : Option Text) (moment : ℤ) (p : Poller)
      → (record_poll succeeded summary e moment p).active_event ≡ p.active_event
  unfolding record_poll
  active_event-record_poll succeeded summary e moment p = ground arith

  settle-Selects :
      (p : Poller) (items : List EventItem) (sorted : List ActiveEvent) (moment : ℤ)
      → HeadIsFirst (collect parse_time email now items) sorted
      → Selects items (settle p sorted moment).active_event
  unfolding settle
  settle-Selects p items [] moment h =
      inl (active_event-record_poll true [] none moment _, collect-none items h)
  settle-Selects p items (w ∷ rest) moment h =
      subst (Selects items) (sym (active_event-record_poll true w.summary none moment _)) (
        inr (
          collect-Some items w h.0,
          All-map _ _ (λ i k a v p. not_before-Precedes a w (k a v) p) items
              (collect-All items w h.1),
        ))

-- A poll that the Calendar API answers with a list of items, for a bound calendar: the poller shows
-- no event if none is on now; otherwise it shows one that is on now (not cancelled, not marked as
-- free, with times of day, not declined, begun and not over), and no other that is on ends earlier,
-- or ends with it and began later, or has the same times and a smaller summary.
pub poll-Selects :
    (parse_time : Text → Option ℤ) (p : Poller) (now moment : ℤ) (body : Text)
    (items : List EventItem) (b : CalendarBinding)
    → bound p ≡ some b
    → Selects parse_time b.email now items
        (poll parse_time p now (answered 200 body (ok items)) moment).0.active_event
unfolding poll handle_reply
poll-Selects parse_time p now moment body items b h =
    rw (h, poll)
      (settle-Selects parse_time b.email now p items
        (sort_events (collect parse_time b.email now items)) moment
        (sort_events-HeadIsFirst (collect parse_time b.email now items)))
