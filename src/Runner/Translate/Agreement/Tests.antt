-- ===== src/Runner/Translate/Agreement/Tests.antt =====
-- A switch event in both encodings.
use busybar_bridge.Prelude.{refl, some, arith}
use busybar_bridge.Prelude.Int.{pos}
use busybar_bridge.Prelude.Text.{codes}
use busybar_bridge.Proto.Normalized.{NormalizedEvent, switch, switch_busy}
use busybar_bridge.Runner.Translate.Agreement.{Agrees, translate_event-Agrees}

abbrev flipped : NormalizedEvent
flipped = record {
  device = codes "bar";
  timestamp = pos 7;
  event =
      some (
        switch (some (record { device = codes "bar"; position = switch_busy; timestamp = pos 7 })));
}

translate_event-Agrees_example : Agrees flipped (pos 9)
translate_event-Agrees_example =
    translate_event-Agrees (codes "bar") flipped (pos 9) (λ h. ground arith)
      (refl, omega arith, (refl, refl))
