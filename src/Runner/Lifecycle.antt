-- ===== src/Runner/Lifecycle.antt =====
-- internal/runner/runner.go: `Run`, from the start of the parts to the graceful shutdown.
-- What `Run` does is the list of its actions. The parts that are closed at the same time are one
-- action; the connection state is synchronised elsewhere, by a ticker that is not modelled.
pub mod Graceful
pub mod Shutdown
mod Tests
use busybar_bridge.Prelude.{
  Bool, true, false, List, [], ◌∷◌, ◌++◌, Option, none, some, map, if◌then◌else◌,
}
use busybar_bridge.Prelude.Text.{Text, codes}

pub data Part : Type 0 where
  server hass_client busy_client push_client calendar_poller display_orch : Part

module _ (Frame : Type 0) where
  pub data Action : Type 0 where
    starts : Part → Action
    handles : Frame → Action
    -- SetConnected(false)
    disconnects : Action
    -- one part, or the given parts at the same time
    closes : Part → Action
    closes_together : List Part → Action
    shuts_down_server : Action

  -- What the `select` of the frame loop receives.
  pub data Arrival : Type 0 where
    cancelled closed : Arrival
    frame : Frame → Arrival

-- The world of one `Run`: which parts there are, what their `Start` returns, whether there is a
-- telemetry store, what the loop receives, and the frames that are left in the channel.
pub record World (Frame : Type 0) : Type 0 where
  pub has : Part → Bool
  pub start_error : Part → Option Text
  pub has_store : Bool
  pub arrivals : List (Arrival Frame)
  pub left : List Frame

-- The error of a `Start` that fails.
pub failure_of : Part → Text → Text
failure_of server e = codes "failed to start HTTP server: " ++ e
failure_of hass_client e = codes "failed to start Home Assistant dispatcher: " ++ e
failure_of busy_client e = codes "failed to start Busy Bar client: " ++ e
failure_of push_client e = codes "failed to start outbound push client: " ++ e
failure_of calendar_poller e = codes "failed to start calendar poller: " ++ e
failure_of display_orch e = codes "failed to start display orchestrator: " ++ e

-- The order of the start.
abbrev pub start_order : List Part
start_order = server ∷ hass_client ∷ busy_client ∷ push_client ∷ calendar_poller ∷ display_orch ∷ []

-- if r.part != nil { … }
pub when {ℓ} : {A : Type ℓ} → Bool → A → List A
when b a = if b then a ∷ [] else []

module _ {Frame : Type 0} (w : World Frame) where
  -- The parts that are started, up to the first failure.
  start_part :
      Part → Option Text → List (Action Frame) × Option Text → List (Action Frame) × Option Text
  unfolding failure_of
  start_part part (some e) rest = (starts part ∷ [], some (failure_of part e))
  start_part part none rest = (starts part ∷ rest.0, rest.1)

  start_all : List Part → List (Action Frame) × Option Text
  unfolding start_part
  start_all [] = ([], none)
  start_all (part ∷ rest) =
      let others = start_all rest in
      if w.has part then start_part part (w.start_error part) others else others

  -- The frame loop, until the context is done or the channel closed (after the last arrival the context
  -- is done). Without a Busy Bar client the channel is nil, and only the context ends it.
  frame_loop : List (Arrival Frame) → List (Action Frame)
  frame_loop [] = []
  frame_loop (cancelled ∷ rest) = []
  frame_loop (closed ∷ rest) = []
  frame_loop (frame f ∷ rest) = handles f ∷ frame_loop rest

  closing_parts : List Part
  unfolding when
  closing_parts =
      when (w.has display_orch) display_orch
      ++ (when (w.has hass_client) hass_client
          ++ (when (w.has push_client) push_client ++ when (w.has calendar_poller) calendar_poller))

  -- From the end of the frame loop on.
  shut_down : List (Action Frame)
  unfolding when closing_parts
  shut_down =
      when w.has_store disconnects
      ++ (when (w.has busy_client) (closes busy_client)
          ++ ((if w.has busy_client then map handles w.left else [])
              ++ (closes_together closing_parts ∷ when (w.has server) shuts_down_server)))

  serve : List (Action Frame) × Option Text → List (Action Frame) × Option Text
  unfolding frame_loop shut_down
  serve (started, some e) = (started, some e)
  serve (started, none) =
      (started ++ ((if w.has busy_client then frame_loop w.arrivals else []) ++ shut_down), none)

  -- `running` is the flag of a `Run` that has not returned.
  unfoldable pub run : Bool → List (Action Frame) × Option Text
  unfolding serve start_all
  run true = ([], some (codes "runner is already running"))
  run false = serve (start_all start_order)
