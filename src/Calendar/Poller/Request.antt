-- ===== src/Calendar/Poller/Request.antt =====
-- internal/calendar/poller.go: the request of `Poll`, and `Poll` with a calendar that answers it.
-- `url.PathEscape`, `url.QueryEscape` and the RFC 3339 format of an instant are arguments; the format
-- drops the fraction of the second.
use busybar_bridge.Prelude.{ℕ, ◌==◌, Bool, ◌∷◌, ◌++◌, Option, none, some, if◌then◌else◌}
use busybar_bridge.Prelude.Int.{ℤ, pos, ltb_ℤ, ◌+ℤ◌, ◌-ℤ◌}
use busybar_bridge.Prelude.Text.{Text, codes, is_empty, trim_space, trim_right}
use busybar_bridge.Calendar.Store.{CalendarBinding}
use busybar_bridge.Calendar.Events.{idle_event}
use busybar_bridge.Calendar.Poller.{Poller, Reply, bound, poll}

-- The client that sends the request: the one of the settings, one with the tokens of the binding, or
-- the library's.
pub data Transport : Type 0 where
  given_client default_client : Transport
  token_client : Text → Text → Option ℤ → Transport

pub record Request : Type 0 where
  pub transport : Transport
  pub url : Text

-- Whether the settings have a client, and the manager.
transport_of : Bool → Bool → CalendarBinding → Transport
transport_of has_client has_manager b =
    if has_client
    then given_client
    else if has_manager
    then token_client b.access_token b.refresh_token
        (if ltb_ℤ (pos 0) b.token_expiry_unix then some b.token_expiry_unix else none)
    else default_client

pub calendar_id_of : CalendarBinding → Text
unfolding trim_space
calendar_id_of b = if is_empty (trim_space b.calendar_id) then codes "primary" else b.calendar_id

unfoldable pub base_url_of : Text → Text
base_url_of base_url =
    if is_empty base_url then codes "https://www.googleapis.com/calendar/v3/calendars" else base_url

pub is_slash : ℕ → Bool
is_slash c = c == b'/'

-- From 12 hours before now to 24 hours after it.
unfoldable pub time_min : ℤ → ℤ
unfolding ◌-ℤ◌
time_min now = now -ℤ pos 43_200_000_000_000

unfoldable pub time_max : ℤ → ℤ
unfolding ◌+ℤ◌
time_max now = now +ℤ pos 86_400_000_000_000

module _ (path_escape query_escape : Text → Text) (format_time : ℤ → Text) where
  unfoldable pub request_url : Text → CalendarBinding → ℤ → Text
  unfolding calendar_id_of base_url_of is_slash time_min time_max trim_right
  request_url base_url b now =
      trim_right is_slash (base_url_of base_url)
      ++ (b'/'
          ∷ (path_escape (calendar_id_of b)
              ++ (codes "/events?timeMin="
                  ++ (query_escape (format_time (time_min now))
                      ++ (codes "&timeMax="
                          ++ (query_escape (format_time (time_max now))
                              ++ codes "&singleEvents=true"))))))

  pub request_of : Bool → Bool → Text → CalendarBinding → ℤ → Request
  unfolding transport_of request_url
  request_of has_client has_manager base_url b now = record {
    transport = transport_of has_client has_manager b;
    url = request_url base_url b now;
  }

  -- Poll with a calendar; `send` has the request's creation and its answer.
  unfoldable pub poll_with :
      Bool
      → Bool
      → Text
      → (Text → Option ℤ)
      → Poller
      → ℤ
      → (Request → Reply)
      → ℤ
      → Option Request × Poller
  unfolding request_of
  poll_with has_client has_manager base_url parse_time p now send moment = elim (bound p) [
    | none ↦ (none, record p { active_event = idle_event })
    | some b ↦
        let r = request_of has_client has_manager base_url b now in
        (some r, (poll parse_time p now (send r) moment).0)
  ]
