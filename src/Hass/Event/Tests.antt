-- ===== src/Hass/Event/Tests.antt =====
-- An event of each kind.
use busybar_bridge.Prelude.{◌≡◌, refl, arith}
use busybar_bridge.Prelude.Int.{pos, negsuc}
use busybar_bridge.Prelude.Result.{ok}
use busybar_bridge.Prelude.Text.{codes}
use busybar_bridge.Hass.Event.{
  Event, ButtonPayload, SwitchPayload, EncoderPayload, button_to_event, switch_to_event,
  encoder_to_event, new_button_event, marshal, unmarshal,
}
use busybar_bridge.Hass.Event.Payloads.{button, switch, encoder, to_payload, to_payload-to_event}
use busybar_bridge.Hass.Event.RoundTrip.{json_object, Restores, unmarshal-marshal}

abbrev press : ButtonPayload
press = record {
  device = codes "bar";
  type = codes "button";
  button = codes "ok";
  action = codes "press";
  timestamp = pos 5;
}

abbrev flip : SwitchPayload
flip = record {
  device = codes "bar";
  type = codes "switch";
  position = codes "busy";
  timestamp = pos 6;
}

abbrev turn : EncoderPayload
turn = record { device = codes "bar"; type = codes "encoder"; delta = negsuc 1; timestamp = pos 7 }

payloads-read :
    (to_payload (button_to_event press) ≡ ok (button press))
    × (to_payload (switch_to_event flip) ≡ ok (switch flip))
    × (to_payload (encoder_to_event turn) ≡ ok (encoder turn))
payloads-read = to_payload-to_event press flip turn refl refl refl refl refl refl

abbrev sent : Event
unfolding new_button_event
sent = new_button_event (codes "bar") (codes "ok") (codes "press") (pos 5) (pos 6)

unmarshal-marshal_example :
    (d : Event) × (unmarshal (ok (json_object (marshal sent))) sent ≡ ok d) × Restores sent d
unmarshal-marshal_example =
    unmarshal-marshal sent sent (unfold sent in omega arith) (unfold sent in omega arith)
