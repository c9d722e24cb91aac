-- ===== src/Busybar/Push/Tests.antt =====
-- Three frames for a mailbox of one.
use busybar_bridge.Prelude.{◌≡◌, refl, true, false, List, [], ◌∷◌, none, some}
use busybar_bridge.Prelude.Int.{pos}
use busybar_bridge.Prelude.Result.{ok}
use busybar_bridge.Prelude.Text.{codes}
use busybar_bridge.Busybar.Push.{Frame, PushConfig, Answers, transmit, target_url, screen_of}
use busybar_bridge.Busybar.Push.Mailbox.{
  Call, pushes, starts, receives, closes, fresh, run, IsLatest, run-fresh-IsLatest,
}
use busybar_bridge.Busybar.Push.Transmit.{Reports, transmit-Reports}

abbrev config : PushConfig
config = record {
  enabled = true;
  host = codes "http://bar";
  port = pos 0;
  api_key = codes "k";
  timeout = pos 0;
  default_screen = pos 1;
}

abbrev frame : Frame
frame = record { screen = pos 0; bytes = 1 ∷ [] }

abbrev calls : List Call
calls =
    starts
    ∷ pushes (some frame) false
    ∷ pushes (some (record frame { bytes = 2 ∷ [] })) false
    ∷ pushes (some (record frame { bytes = 3 ∷ [] })) true
    ∷ pushes none false
    ∷ receives
    ∷ closes
    ∷ []

run-fresh-IsLatest_example : IsLatest (run (fresh config) calls)
run-fresh-IsLatest_example = run-fresh-IsLatest config calls

abbrev answers : Answers
answers = record { marshal_error = none; request_error = none; response = ok 204; latency = pos 3 }

transmit-Reports_example : Reports answers (transmit config frame answers)
transmit-Reports_example = transmit-Reports config frame answers refl

url-config : target_url config ≡ codes "http://bar:80/api/display/frame"
unfolding target_url
url-config = refl

-- The front is the number 0, which stands for no screen too.
screen-front : screen_of config frame ≡ pos 1
unfolding screen_of
screen-front = refl
