-- ===== src/Calendar/Poller/Countdown.antt =====
-- The countdown is rounded up to whole minutes.
use busybar_bridge.Prelude.{ℕ, ◌+◌, ◌*◌, ◌/◌, ◌%◌, ◌^◌, ◌≤◌, ◌<◌, ◌≡◌, ◌∷◌, ◌++◌, arith}
use busybar_bridge.Prelude.Decimal.{pad2}
use busybar_bridge.Prelude.Int.{pos, ◌+ℤ◌, quot, rem, wrap64_in_range}
use busybar_bridge.Prelude.Text.{Text}
use busybar_bridge.Calendar.Events.{format_countdown}

-- `text` shows `hours` and `minutes`, the least number of whole minutes that is not less than `n`
-- nanoseconds.
pub record Shows (n : ℕ) (text : Text) : Type 0 where
  pub hours : ℕ
  pub minutes : ℕ
  pub shown : text ≡ pad2 (pos hours) ++ (b':' ∷ pad2 (pos minutes))
  pub in_hour : minutes < 60
  pub enough : n ≤ (60 * hours + minutes) * 60_000_000_000
  pub least : (60 * hours + minutes) * 60_000_000_000 < n + 60_000_000_000

-- Every duration from a nanosecond to about 292 years less a minute is shown as `HH:MM`, the hours
-- without a limit and the minutes below 60, rounded up: the minutes shown cover the duration and one
-- minute less would not. Beyond that bound the `int64` sum of the rounding overflows.
pub format_countdown-Shows :
    (n : ℕ) → 0 < n → n + 59_999_999_999 < 2 ^ 63 → Shows n (format_countdown (pos n))
unfolding format_countdown ◌+ℤ◌ quot rem
format_countdown-Shows n h k =
    let minutes = (n + 59_999_999_999) / 60_000_000_000 in
    record {
      hours = minutes / 60;
      minutes = minutes % 60;
      shown = ground (arith, h, wrap64_in_range (n + 59_999_999_999) k);
      in_hour = omega arith;
      enough = omega arith;
      least = omega arith;
    }
