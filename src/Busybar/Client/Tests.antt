-- ===== src/Busybar/Client/Tests.antt =====
-- Three connections, and frames for a channel of one.
use busybar_bridge.Prelude.{
  ◌/◌, ◌*◌, ◌≡◌, refl, true, false, List, [], ◌∷◌, Option, none, some, arith,
}
use busybar_bridge.Prelude.Int.{ℤ, pos, negsuc}
use busybar_bridge.Prelude.Text.{codes}
use busybar_bridge.Busybar.Client.{Config, Session, binary, text, fill_config, new_client, run}
use busybar_bridge.Busybar.Client.Backoff.{IsJitter, IsGoodRun, run-new_client-IsGoodRun}
use busybar_bridge.Busybar.Client.Frames.{
  Step, arrives, takes, fresh, Kept, passed_on, IsLossless, run-fresh-IsLossless,
}
use busybar_bridge.Busybar.Client.Frames

abbrev config : Config
config = record {
  host = codes "bar";
  port = pos 0;
  ping_interval = pos 0;
  read_timeout = pos 0;
  initial_backoff = pos 8;
  max_backoff = pos 20;
  buffer_size = pos 1;
}

half : ℤ → ℤ
half (pos n) = pos (n / 2)
half (negsuc n) = negsuc n

double : ℤ → ℤ
double (pos n) = pos (2 * n)
double (negsuc n) = negsuc n

half-IsJitter : IsJitter half
unfolding half
half-IsJitter (pos n) h = (omega arith, omega arith)
half-IsJitter (negsuc n) h = absurd (omega arith)

session : Option ℤ → Session
session t = record {
  began_at = pos 1;
  connected_at = t;
  ended_at = pos 100_000_000_000;
  failed = true;
  done_after = false;
  done_in_sleep = false;
}

-- The delays before jitter are 8, 16 and, after a stable connection, 8.
abbrev sessions : List Session
sessions = session none ∷ session none ∷ session (some (pos 2)) ∷ []

run-new_client-IsGoodRun_example :
    IsGoodRun (fill_config config) 0 (run half double (new_client config) sessions)
run-new_client-IsGoodRun_example =
    run-new_client-IsGoodRun half double config sessions half-IsJitter

sleeps-run : (run half double (new_client config) sessions).1 ≡ pos 4 ∷ pos 8 ∷ pos 4 ∷ []
unfolding run half double session new_client
sleeps-run = refl

abbrev steps : List Step
steps = arrives (binary (1 ∷ [])) ∷ arrives (binary (2 ∷ [])) ∷ arrives text ∷ takes ∷ []

run-fresh-IsLossless_example :
    IsLossless (fill_config config) (Frames.run (fresh config) steps)
    × Kept (passed_on (Frames.run (fresh config) steps)) (Frames.run (fresh config) steps).arrived
run-fresh-IsLossless_example = run-fresh-IsLossless config steps
