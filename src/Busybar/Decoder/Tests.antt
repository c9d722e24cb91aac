-- ===== src/Busybar/Decoder/Tests.antt =====
-- Frames and a run of the decoder.
use busybar_bridge.Prelude.{
  ℕ, zero, suc, ◌≡◌, ◌≢◌, refl, List, [], ◌∷◌, Option, none, some, arith, All,
}
use busybar_bridge.Prelude.Int.{pos, negsuc}
use busybar_bridge.Prelude.Text.{Text, codes}
use busybar_bridge.Proto.Upstream
use busybar_bridge.Proto.Upstream.{
  State, StateUpdate, InputEvent, InputOneof, input, button_event, switch_event, encoder_event,
}
use busybar_bridge.Proto.Normalized.{NormalizedEvent, button, encoder, button_ok, action_press}
use busybar_bridge.Busybar.Decoder.{decode}
use busybar_bridge.Busybar.Decoder.Events.{IsComplete, decode-IsComplete}
use busybar_bridge.Busybar.Decoder.Stream.{
  Select, sent, full, Arrival, frame, closed, context_error, clean, run,
}
use busybar_bridge.Busybar.Decoder.Stream.Balance.{
  IsBalanced, drops, Passes, events_of, run-IsBalanced,
}

update : InputOneof → Option StateUpdate
update e = some (record { state = some (input (some (record { event = some e }))) })

-- A press of OK, a nil update, and a turn of the encoder by -2; no time of its own.
abbrev sample : State
unfolding update
sample = record {
  timestamp = 0;
  updates =
      update (
        button_event
          (some (record { button = Upstream.Button.ok; action = Upstream.ButtonAction.press })))
      ∷ none
      ∷ update (encoder_event (some (record { delta = negsuc 1 })))
      ∷ [];
}

abbrev bar : Text
bar = codes "bar"

abbrev pressed : NormalizedEvent
pressed = record {
  device = bar;
  timestamp = pos 7;
  event = some (
      button (
        some
          (record { device = bar; button = button_ok; action = action_press; timestamp = pos 7 })));
}

abbrev turned : NormalizedEvent
turned = record {
  device = bar;
  timestamp = pos 7;
  event = some (encoder (some (record { device = bar; delta = negsuc 1; timestamp = pos 7 })));
}

decode-IsComplete_example : All (IsComplete bar) (pressed ∷ turned ∷ [])
unfolding decode sample
decode-IsComplete_example =
    decode-IsComplete (λ (s : State). some s) bar (pos 7) sample (pressed ∷ turned ∷ [])
      (omega arith) refl

-- The consumer takes the first event of each frame and is too slow for the second.
choose : ℕ → Select
choose zero = sent
choose (suc i) = full

abbrev arrivals : List (Arrival State)
arrivals = frame sample (pos 7) choose ∷ frame sample (pos 8) choose ∷ closed ∷ []

exit-run : (run (λ (s : State). some s) bar arrivals).exit ≡ clean
unfolding run decode sample choose
exit-run = refl

not_cancelled : (run (λ (s : State). some s) bar arrivals).exit ≢ context_error
not_cancelled h = ground (arith, h, exit-run)

run-IsBalanced_example :
    let t = run (λ (s : State). some s) bar arrivals in
    Passes (events_of (λ (s : State). some s) bar arrivals) t.out (drops t.recorded) × IsBalanced t
run-IsBalanced_example = run-IsBalanced (λ (s : State). some s) bar arrivals not_cancelled
