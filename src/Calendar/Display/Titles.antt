-- ===== src/Calendar/Display/Titles.antt =====
-- The length of the two lines.
use busybar_bridge.Prelude.{
  ℕ, zero, suc, ◌≤◌, ◌<◌, ◌≡◌, ◌≢◌, sym, ap, ◌∙◌, refl, false, List, [], ◌∷◌, arith, length,
  length-take, take, if-cases, if◌then◌else◌, ltb,
}
use busybar_bridge.Prelude.Int.{ℤ, pos, time_sub}
use busybar_bridge.Prelude.Text.{Text, codes, is_empty, trim_space}
use busybar_bridge.Calendar.Events.{ActiveEvent, format_countdown}
use busybar_bridge.Calendar.Display.{
  truncate_title, countdown_line, format_display_state, max_display_chars,
}

-- A title of at most `n` characters: the start of the trimmed summary, or of `Busy` if that is empty.
pub record IsTitle (summary : Text) (n : ℕ) (title : Text) : Type 0 where
  pub short : length title ≤ n
  pub shown : 0 < n → title ≢ []
  pub prefix :
      title ≡ take n (if is_empty (trim_space summary) then codes "Busy" else trim_space summary)

take-all {ℓ} : {A : Type ℓ} (n : ℕ) (xs : List A) → length xs ≤ n → take n xs ≡ xs
take-all zero [] h = refl
take-all (suc n) [] h = refl
take-all zero (x ∷ xs) h = absurd (omega arith)
take-all (suc n) (x ∷ xs) h = ground (arith, take-all n xs)

cut_lem : (n : ℕ) (t : Text) → (if ltb n (length t) then take n t else t) ≡ take n t
cut_lem n t =
    if-cases (λ x. x ≡ take n t) (ltb n (length t)) _ _ (λ e. refl)
      (λ e. sym (take-all n t (ground arith)))

length-cut : (n : ℕ) (t : Text) → length (if ltb n (length t) then take n t else t) ≤ n
length-cut n t = omega (arith, ap (λ x. length x) (cut_lem n t), length-take n t)

or_busy : Text → Text
or_busy t = if is_empty t then codes "Busy" else t

take-or_busy : (n : ℕ) (t : Text) → take (suc n) (or_busy t) ≢ []
unfolding or_busy
take-or_busy n [] h = ground arith
take-or_busy n (x ∷ t) h = ground arith

-- For every summary and every limit that is not negative, the title has at most that many
-- characters, is not empty unless the limit is 0, and is the start of the trimmed summary, or of
-- `Busy` where that is empty.
pub truncate_title-IsTitle :
    (summary : Text) (n : ℕ) → IsTitle summary n (truncate_title summary (pos n))
unfolding truncate_title or_busy
truncate_title-IsTitle summary zero = record {
  short = omega arith;
  shown = λ h. absurd (omega arith);
  prefix = refl;
}
truncate_title-IsTitle summary (suc n) =
    let title = or_busy (trim_space summary) in
    let cut : truncate_title summary (pos (suc n)) ≡ take (suc n) title =
      ground (arith, cut_lem (suc n) title) in
    record {
      short = omega (arith, ap (λ t. length t) cut, length-take (suc n) title);
      shown = λ h e. take-or_busy n (trim_space summary) (sym cut ∙ e);
      prefix = cut;
    }

-- Both lines of a busy display have at most 14 characters, the most that the display shows, and the
-- title is not empty.
pub format_display_state-short :
    (date_line time_line : ℤ → Text) (ev : ActiveEvent) (now : ℤ)
    → ev.idle ≡ false
    → let state = format_display_state date_line time_line ev now in
      (length state.top_line ≤ max_display_chars)
      × (state.top_line ≢ [])
      × (length state.bottom_line ≤ max_display_chars)
unfolding format_display_state countdown_line
format_display_state-short date_line time_line ev now h =
    let t = truncate_title-IsTitle ev.summary max_display_chars in
    rw (h, format_display_state)
      (
        t.short,
        t.shown (omega arith),
        length-cut max_display_chars (
            if is_empty (trim_space ev.countdown)
            then format_countdown (time_sub ev.end_time now)
            else trim_space ev.countdown),
      )
