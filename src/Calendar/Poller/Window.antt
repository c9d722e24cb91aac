-- ===== src/Calendar/Poller/Window.antt =====
-- The window that a poll asks for.
use mathlib.Core.List.{append_assoc}
use busybar_bridge.Prelude.{
  Bool, ◌≡◌, ◌⊎◌, inl, inr, refl, ap, sym, ◌∙◌, List, [], ◌∷◌, ◌++◌, Option, none, some, arith,
  false, Option-cases, if-cases,
}
use busybar_bridge.Prelude.Int.{ℤ, pos, ◌≤ℤ◌, ◌<ℤ◌, ◌-ℤ◌, ◌+ℤ◌}
use busybar_bridge.Prelude.Result.{ok}
use busybar_bridge.Prelude.Text.{Text, trim_right, is_empty}
use busybar_bridge.Prelude.Search.{has_rune}
use busybar_bridge.Prelude.Net.Plain.{has_rune-append}
use busybar_bridge.Calendar.Store.{CalendarBinding}
use busybar_bridge.Calendar.Events.{EventItem, consider, collect, collect_round, sort_events}
use busybar_bridge.Calendar.Poller.{Poller, answered, Reply, settle, handle_reply, bound, poll}
use busybar_bridge.Calendar.Poller.Selection.{consider-IsOngoing}
use busybar_bridge.Calendar.Poller.Query.{window_of, window_of-asking, lacks-trim_right}
use busybar_bridge.Calendar.Poller.Request.{
  Request, time_min, time_max, calendar_id_of, base_url_of, is_slash, request_url, request_of,
  poll_with,
}

module _ (parse_time : Text → Option ℤ) (lo hi : ℤ) where
  -- The item is over before the window or begins after it.
  pub record IsOutside (item : EventItem) : Type 0 where
    pub outside :
        (s e : ℤ)
        → parse_time item.start.date_time ≡ some s
        → parse_time item.end.date_time ≡ some e
        → (e ≤ℤ lo) ⊎ (hi ≤ℤ s)

  -- What the calendar serves of all its items: it leaves out no item but such as are outside.
  pub data Serves : List EventItem → List EventItem → Type 0 where
    nothing : Serves [] []
    serves :
        {items served : List EventItem} (item : EventItem)
        → Serves items served
        → Serves (item ∷ items) (item ∷ served)
    leaves_out :
        {items served : List EventItem} (item : EventItem)
        → IsOutside item
        → Serves items served
        → Serves (item ∷ items) served

  module _ (email : Text) (now : ℤ) (below : lo ≤ℤ now) (above : now <ℤ hi) where
    ongoing-inside : (s e : ℤ) → s ≤ℤ now → now <ℤ e → (e ≤ℤ lo) ⊎ (hi ≤ℤ s) → ⊥
    ongoing-inside s e h k o = ground arith

    outside-consider :
        (item : EventItem) → IsOutside item → consider parse_time email now item ≡ none
    outside-consider item o = elim (Option-cases (consider parse_time email now item)) [
      | inl k ↦ k
      | inr (a, k) ↦
          let v = consider-IsOngoing parse_time email now item a k in
          absurd (
            ongoing-inside a.start_time a.end_time v.begun v.not_over
              (o.outside a.start_time a.end_time v.start_read v.end_read))
    ]

    collect-Serves :
        (items served : List EventItem)
        → Serves items served
        → collect parse_time email now items ≡ collect parse_time email now served
    unfolding collect collect_round
    collect-Serves [] [] nothing = refl
    collect-Serves [] (_ ∷ served) v = elim v [ ]
    collect-Serves (_ ∷ items) (_ ∷ served) (serves item v) =
        ap (collect_round (consider parse_time email now item)) (collect-Serves items served v)
    collect-Serves (_ ∷ items) served (leaves_out item o v) =
        ap (λ c. collect_round c (collect parse_time email now items)) (outside-consider item o)
        ∙ collect-Serves items served v

    handle_reply-Serves :
        (p : Poller) (items served : List EventItem) (body text : Text) (moment : ℤ)
        → Serves items served
        → handle_reply parse_time p email now (answered 200 body (ok served)) moment
          ≡ handle_reply parse_time p email now (answered 200 text (ok items)) moment
    unfolding handle_reply
    handle_reply-Serves p items served body text moment v =
        ap (λ found. (settle p (sort_events found) moment, none))
          (sym (collect-Serves items served v))

-- What `send` answers to a request that asks for a window, of all items of the calendar.
pub record Answers (parse_time : Text → Option ℤ) (lo hi : ℤ) (items : List EventItem)
    (reply : Reply) : Type 0 where
  pub served : List EventItem
  pub body : Text
  pub answer : reply ≡ answered 200 body (ok served)
  pub serves : Serves parse_time lo hi items served

poll-Answers :
    (parse_time : Text → Option ℤ) (lo hi now : ℤ) (p : Poller) (items : List EventItem)
    (reply : Reply) (text : Text) (moment : ℤ)
    → lo ≤ℤ now
    → now <ℤ hi
    → Answers parse_time lo hi items reply
    → poll parse_time p now reply moment
      ≡ poll parse_time p now (answered 200 text (ok items)) moment
unfolding poll
poll-Answers parse_time lo hi now p items reply text moment below above a =
    elim (Option-cases (bound p)) [
      | inl e ↦ rw (e, poll) refl
      | inr (b, e) ↦
          rw (e, poll, a.answer)
            (handle_reply-Serves parse_time lo hi b.email now below above p items a.served a.body
              text moment a.serves)
    ]

module _ (parse_time : Text → Option ℤ) (path_escape query_escape unescape : Text → Text)
    (format_time : ℤ → Text) where
  -- How an instant `t` stands in a URL: it has no ampersand, and is read as `x`, which is `t` without
  -- its fraction of a second.
  pub record IsWritten (t x : ℤ) : Type 0 where
    pub plain : has_rune b'&' (query_escape (format_time t)) ≡ false
    pub read : parse_time (unescape (query_escape (format_time t))) ≡ some x
    pub cut : x ≤ℤ t
    pub close : t <ℤ (x +ℤ pos 1_000_000_000)

  abbrev pub window : Text → Option (ℤ × ℤ)
  window url = window_of (λ v. parse_time (unescape v)) url

  lacks-slash : (t : Text) → has_rune b'?' t ≡ false → has_rune b'?' (b'/' ∷ t) ≡ false
  unfolding has_rune
  lacks-slash t h = h

  base_url_of-plain :
      (base_url : Text)
      → has_rune b'?' base_url ≡ false
      → has_rune b'?' (base_url_of base_url) ≡ false
  unfolding base_url_of has_rune
  base_url_of-plain base_url h =
      if-cases (λ u. has_rune b'?' u ≡ false) (is_empty base_url) _ _ (λ e. refl) (λ e. h)

  request_url-window :
      (base_url : Text) (b : CalendarBinding) (now lo hi : ℤ)
      → has_rune b'?' base_url ≡ false
      → ((t : Text) → has_rune b'?' (path_escape t) ≡ false)
      → IsWritten (now -ℤ pos 43_200_000_000_000) lo
      → IsWritten (now +ℤ pos 86_400_000_000_000) hi
      → window (request_url path_escape query_escape format_time base_url b now) ≡ some (lo, hi)
  unfolding request_url time_min time_max
  request_url-window base_url b now lo hi h k v w =
      let base = trim_right is_slash (base_url_of base_url) in
      let id = path_escape (calendar_id_of b) in
      let front : has_rune b'?' (base ++ (b'/' ∷ id)) ≡ false = ground (
        arith,
        has_rune-append b'?' base (b'/' ∷ id),
        lacks-trim_right b'?' is_slash (base_url_of base_url) (base_url_of-plain base_url h),
        lacks-slash id (k (calendar_id_of b)),
      ) in
      ap window (sym (append_assoc base (b'/' ∷ id) _))
      ∙ window_of-asking (λ x. parse_time (unescape x)) (base ++ (b'/' ∷ id)) _ _ lo hi front
          v.plain w.plain v.read w.read

  -- A poll asks for the items from 12 hours before now to 24 hours after it, to the second, and this
  -- loses nothing. The URL of its request, read on its own, names these two instants as `timeMin` and
  -- `timeMax`; and if the calendar answers every request for a window with its items, leaving out
  -- only such as are over before the window that the URL names or begin after it, then the poll leaves
  -- the poller, and its telemetry, as if the calendar had served all its items. The base URL has no
  -- question mark, an escaped path has none either, and the two instants, escaped in the query, have
  -- no ampersand and are read back to the second.
  pub poll_with-Serves :
      (has_client has_manager : Bool) (base_url : Text) (p : Poller) (send : Request → Reply)
      (items : List EventItem) (text : Text) (now moment lo hi : ℤ)
      → has_rune b'?' base_url ≡ false
      → ((t : Text) → has_rune b'?' (path_escape t) ≡ false)
      → IsWritten (now -ℤ pos 43_200_000_000_000) lo
      → IsWritten (now +ℤ pos 86_400_000_000_000) hi
      → ((r : Request) (from to : ℤ)
          → window r.url ≡ some (from, to)
          → Answers parse_time from to items (send r))
      → let out =
          poll_with path_escape query_escape format_time has_client has_manager base_url parse_time
            p now send moment in
        ((bound p ≡ none) ⊎ ((r : Request) × (out.0 ≡ some r) × (window r.url ≡ some (lo, hi))))
        × (out.1 ≡ (poll parse_time p now (answered 200 text (ok items)) moment).0)
  unfolding poll_with poll ◌-ℤ◌ ◌+ℤ◌
  poll_with-Serves has_client has_manager base_url p send items text now moment lo hi h k v w
        answers =
      elim (Option-cases (bound p)) [
        | inl e ↦ (inl e, rw (e, poll_with, poll) refl)
        | inr (b, e) ↦
            let r =
              request_of path_escape query_escape format_time has_client has_manager base_url b
                now in
            let u : window r.url ≡ some (lo, hi) =
              request_url-window base_url b now lo hi h k v w in
            let below : lo ≤ℤ now = let c = v.cut in ground arith in
            let above : now <ℤ hi = let c = w.close in ground arith in
            (
              inr (r, (rw (e, poll_with) refl), u),
              rw (e, poll_with)
                  (ap (λ x. x.0)
                    (poll-Answers parse_time lo hi now p items (send r) text moment below above
                      (answers r lo hi u))),
            )
      ]
