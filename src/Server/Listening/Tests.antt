-- ===== src/Server/Listening/Tests.antt =====
-- A server that starts, and one that starts once it is shut down.
use busybar_bridge.Prelude.{◌≡◌, refl, false, [], ◌∷◌, none, some}
use busybar_bridge.Prelude.Int.{pos}
use busybar_bridge.Prelude.Result.{Result, ok}
use busybar_bridge.Prelude.Text.{Text, codes}
use busybar_bridge.Server.Listening.{
  Address, tcp, Listening, start, shut_down, addr_of, step, run, starts,
}

abbrev server : Listening
server = record {
  port = pos 8080;
  addr = codes ":8080";
  listener = none;
  serving = [];
  is_shut = false;
}

listen : Text → Result Text Address
listen addr = ok (tcp (pos 8080))

addr-started : addr_of (run server (starts none listen ∷ [])) ≡ codes "127.0.0.1:8080"
unfolding run step start addr_of listen
addr-started = refl

-- `Start` returns no error, and nothing is served.
started-shut :
    start none listen (shut_down server)
    ≡ (record (shut_down server) { listener = some (tcp (pos 8080)) }, none)
unfolding start shut_down listen
started-shut = refl
