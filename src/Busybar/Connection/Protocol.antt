-- ===== src/Busybar/Connection/Protocol.antt =====
-- The protocol that every connection keeps.
use busybar_bridge.Prelude.{
  ◌≡◌, ◌≢◌, refl, ◌∙◌, Bool, true, false, List, [], ◌∷◌, ◌++◌, Option, none, some, arith,
  if◌then◌else◌,
}
use busybar_bridge.Prelude.Int.{ℤ}
use busybar_bridge.Prelude.Text.{Text, text_eq}
use busybar_bridge.Busybar.Client.{
  Client, ConnectionStatus, Message, read_message, binary, text, other, after_connect,
}
use busybar_bridge.Busybar.Connection.{
  Act, dials, writes_text, sets_active, clears_active, connects, pings, reads, fails_read, cancels,
  waits_for_pings, closes_normally, closes_with_error, Event, arrives, ticks, Meets, Supervised,
  activation, before, late_ping, conclusion, supervise, connected, with_write, with_context,
  with_dial, connect_and_supervise,
}

-- Where a connection is in the protocol.
pub data State : Type 0 where
  offline dialled registered written live cut failed cancelled quiet refused : State
  leaving unregistered concluded : State

-- The acts that the protocol allows, and where they lead.
pub next : State → Act → Option State
next offline (dials url) = some dialled
next dialled sets_active = some registered
next dialled (closes_normally reason) = some leaving
next registered (writes_text t) = if text_eq t activation then some written else none
next written (connects now) = some live
next written (closes_with_error reason) = some refused
next live (reads m) = some live
next live pings = some live
next live cancels = some cut
next live fails_read = some failed
next cut (reads m) = some cut
next cut fails_read = some failed
next failed cancels = some cancelled
next cancelled pings = some cancelled
next cancelled cancels = some cancelled
next cancelled waits_for_pings = some quiet
next quiet cancels = some quiet
next quiet clears_active = some unregistered
next refused clears_active = some unregistered
next unregistered (closes_with_error reason) = some concluded
next leaving (closes_with_error reason) = some concluded
next _ _ = none

pub follow : State → List Act → Option State
unfolding next
follow s [] = some s
follow s (a ∷ rest) = elim (next s a) [ none ↦ none | some t ↦ follow t rest ]

-- The time at which the connection is there, if it is: by the error of the activation, of the context
-- and of the dial.
module _ (w : Meets) where
  written_at : Option Text → Option ℤ
  written_at (some e) = none
  written_at none = some w.connected_at

  opened_at : Option Text → Option ℤ
  unfolding written_at
  opened_at (some e) = none
  opened_at none = written_at w.write_error

  dialled_at : Option Text → Option ℤ
  unfolding opened_at
  dialled_at (some e) = none
  dialled_at none = opened_at w.context_error

  pub connection_of : Option ℤ
  unfolding dialled_at
  connection_of = dialled_at w.dial_error

-- The state at which the connection ends.
pub end_of : Option Text → State
end_of (some e) = dialled
end_of none = concluded

-- From one state to another one, with an error and a status.
pub record Ends (from to : State) (s : ConnectionStatus) (out : Supervised) : Type 0 where
  pub protocol : follow from out.acts ≡ some to
  pub error : out.error ≢ none
  pub status : out.client.status ≡ s

-- A message leaves the status of the connection.
read_message-status : (c : Client) (m : Message) → (read_message c m).status ≡ c.status
unfolding read_message
read_message-status c (binary payload) = ground arith
read_message-status c text = refl
read_message-status c other = refl

late_ping-follow :
    (late : Bool)
    → follow cancelled (late_ping late ++ waits_for_pings ∷ cancels ∷ conclusion) ≡ some concluded
unfolding follow next late_ping
late_ping-follow true = refl
late_ping-follow false = refl

-- Where the connection is while its goroutine pings, or after a ping failed.
phase : Bool → State
phase true = live
phase false = cut

module _ (e : Text) (late : Bool) where
  supervise-follow :
      (c : Client) (pinging : Bool) (events : List Event)
      → follow (phase pinging) (supervise e late c pinging events).acts ≡ some concluded
  unfolding follow next supervise before late_ping phase
  supervise-follow c true [] = late_ping-follow late
  supervise-follow c false [] = refl
  supervise-follow c true (arrives m ∷ rest) = supervise-follow (read_message c m) true rest
  supervise-follow c false (arrives m ∷ rest) = supervise-follow (read_message c m) false rest
  supervise-follow c true (ticks none ∷ rest) = supervise-follow c true rest
  supervise-follow c true (ticks (some x) ∷ rest) = supervise-follow c false rest
  supervise-follow c false (ticks x ∷ rest) = supervise-follow c false rest

  supervise-error :
      (c : Client) (pinging : Bool) (events : List Event)
      → (supervise e late c pinging events).error ≡ some e
  unfolding supervise before
  supervise-error c pinging [] = refl
  supervise-error c pinging (arrives m ∷ rest) = supervise-error (read_message c m) pinging rest
  supervise-error c true (ticks none ∷ rest) = supervise-error c true rest
  supervise-error c true (ticks (some x) ∷ rest) = supervise-error c false rest
  supervise-error c false (ticks x ∷ rest) = supervise-error c false rest

  supervise-status :
      (c : Client) (pinging : Bool) (events : List Event)
      → (supervise e late c pinging events).client.status ≡ c.status
  unfolding supervise before
  supervise-status c pinging [] = refl
  supervise-status c pinging (arrives m ∷ rest) =
      supervise-status (read_message c m) pinging rest ∙ read_message-status c m
  supervise-status c true (ticks none ∷ rest) = supervise-status c true rest
  supervise-status c true (ticks (some x) ∷ rest) = supervise-status c false rest
  supervise-status c false (ticks x ∷ rest) = supervise-status c false rest

module _ (c : Client) (w : Meets) where
  with_write-Ends :
      (x : Option Text)
      → Ends written concluded (after_connect c.status (written_at w x)) (with_write c w x)
  unfolding with_write before follow next written_at after_connect connected phase
  with_write-Ends (some e) = record { protocol = refl; error = λ h. cc; status = refl }
  with_write-Ends none = record {
    protocol = supervise-follow w.read_error w.late_tick _ true w.events;
    error = λ h.
        cc (h, supervise-error w.read_error w.late_tick (connected c w.connected_at) true w.events);
    status = supervise-status w.read_error w.late_tick _ true w.events;
  }

  with_context-Ends :
      (x : Option Text)
      → Ends dialled concluded (after_connect c.status (opened_at w x)) (with_context c w x)
  unfolding with_context before follow next opened_at after_connect text_eq
  with_context-Ends (some e) = record { protocol = refl; error = λ h. cc; status = refl }
  with_context-Ends none =
      let e = with_write-Ends w.write_error in
      record { protocol = e.protocol; error = e.error; status = e.status }

  with_dial-Ends :
      (x : Option Text)
      → Ends dialled (end_of x) (after_connect c.status (dialled_at w x)) (with_dial c w x)
  unfolding with_dial follow dialled_at after_connect end_of
  with_dial-Ends (some e) = record { protocol = refl; error = λ h. cc; status = refl }
  with_dial-Ends none = with_context-Ends w.context_error

  -- Every connection keeps the protocol, whatever the websocket answers and however reads and pings
  -- interleave. Unless the dial fails, it goes through the protocol to its end: the activation is
  -- written first and nothing is read before it; after a ping has failed none is sent until the last
  -- read has failed; the goroutine of the pings has ended before the connection is cleared; and the
  -- connection is cleared, where it was set, before the last close, after which nothing is done. An
  -- error is always returned, also after a long connection; and the client's status is connected, at
  -- the time of the activation, if that was written, and is otherwise as it was.
  pub connect_and_supervise-Ends :
      Ends offline
        (end_of w.dial_error)
        (after_connect c.status (connection_of w))
        (connect_and_supervise c w)
  unfolding connect_and_supervise before follow next connection_of
  connect_and_supervise-Ends =
      let e = with_dial-Ends w.dial_error in
      record { protocol = e.protocol; error = e.error; status = e.status }
