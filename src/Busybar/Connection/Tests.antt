-- ===== src/Busybar/Connection/Tests.antt =====
-- A connection with a frame, a ping that fails and a frame after it, and one whose activation fails.
use busybar_bridge.Prelude.{◌≡◌, refl, true, [], ◌∷◌, Option, none, some}
use busybar_bridge.Prelude.Int.{pos}
use busybar_bridge.Prelude.Text.{Text, codes}
use busybar_bridge.Busybar.Client.{after_connect, binary, default_config, new_client}
use busybar_bridge.Busybar.Connection.{arrives, ticks, Meets, connect_and_supervise}
use busybar_bridge.Busybar.Connection.Protocol.{
  offline, end_of, connection_of, Ends, connect_and_supervise-Ends,
}

abbrev meets : Option Text → Meets
meets write_error = record {
  dial_error = none;
  context_error = none;
  write_error = write_error;
  connected_at = pos 7;
  events =
      ticks none
      ∷ arrives (binary (1 ∷ []))
      ∷ ticks (some (codes "gone"))
      ∷ arrives (binary (2 ∷ []))
      ∷ ticks none
      ∷ [];
  read_error = codes "closed";
  late_tick = true;
}

connect_and_supervise-Ends_example :
    Ends offline
      (end_of none)
      (after_connect (new_client default_config).status (connection_of (meets none)))
      (connect_and_supervise (new_client default_config) (meets none))
connect_and_supervise-Ends_example =
    connect_and_supervise-Ends (new_client default_config) (meets none)

frames-connected :
    (connect_and_supervise (new_client default_config) (meets none)).client.frames_chan
    ≡ (1 ∷ []) ∷ (2 ∷ []) ∷ []
unfolding connect_and_supervise new_client default_config
frames-connected = refl

error-refused :
    (connect_and_supervise (new_client default_config) (meets (some (codes "broken")))).error
    ≡ some (codes "broken")
unfolding connect_and_supervise new_client default_config
error-refused = refl
