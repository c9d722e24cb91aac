-- ===== src/Lib.antt =====
-- busybar-bridge: a verification library of the bridge between a Busy Bar, Home Assistant and Google
-- Calendar.
--
-- The program reads binary frames from the bar, decodes them into events and forwards these to Home
-- Assistant; it also polls a calendar and pushes a frame with the current meeting to the bar's
-- display. A telemetry store is shared by all parts, and an HTTP server shows it and links the
-- calendar.
--
-- Parts, and where they are modelled:
--   internal/telemetry/store.go      Telemetry: Types has the data, Store the methods, Store/Calls the
--                                    runs of any methods.
--   pkg/pb/busybar, pkg/pb           Proto: Upstream and Normalized are the messages that are read
--                                    (GetInput is get_input), Event is ToHomeAssistantJSON.
--   internal/busybar/decoder.go      Busybar/Decoder: decode is Decode, Decoder/Stream is Run.
--   internal/busybar/client.go       Busybar/Client: NewClient, the loop of run with its backoff, and
--                                    the frames that readLoop puts into the channel;
--                                    Busybar/Endpoint: endpointURL; Busybar/Connection:
--                                    connectAndSupervise with its pings; Busybar/Lifetime: Start and
--                                    Close, and the channel that both may close.
--   internal/busybar/push.go         Busybar/Push: push_frame is PushFrame with its mailbox, transmit
--                                    is transmit; Push/Mailbox drives a client.
--   internal/hass/event.go           Hass/Event: marshal and unmarshal are MarshalJSON and
--                                    UnmarshalJSON; Event/Payloads has the typed payloads.
--   internal/hass/client.go          Hass/Client: the queue (Start, Enqueue, worker, Close);
--                                    Hass/Dispatch: dispatch with its retries.
--   internal/hass/config.go          Hass/Settings: Validate.
--   internal/runner/runner.go        Runner/Translate: TranslateEvent and formatSummary;
--                                    Runner/Frame: handleFrame, which joins the decoder, the telemetry
--                                    store and the queue; Runner/Parts: the runner and its options;
--                                    Runner/Building: the parts that NewRunner builds; Runner/Wiring:
--                                    NewRunner and how the parts point to each other;
--                                    Runner/Lifecycle: Run, from the start of the parts to their
--                                    shutdown; Runner/Closing: Close and Shutdown.
--   internal/calendar/store.go       Calendar/Store: NewStore, Get and Save on a disk.
--   internal/calendar/manager.go     Calendar/Manager: exchange_code is ExchangeCode,
--                                    generate_auth_url is GenerateAuthURL with its base64 state.
--   internal/calendar/poller.go      Calendar/Events: the events, FormatCountdown and which events are
--                                    on; Calendar/Poller: Poll, GetCurrentEvent;
--                                    Poller/Request: the request of a poll and Poll with a calendar;
--                                    Poller/Query reads such a request.
--   internal/calendar/display.go     Calendar/Display: TruncateTitle, FormatDisplayState, Step;
--                                    Display/Render and Display/Font: RenderFrame. Calendar/Setup
--                                    and Calendar/Worker: the settings of the poller and the display,
--                                    and their Start, Close and loop, access by access.
--   internal/server/server.go        Server: Http has requests and replies, Probes the probes, Oauth the
--                                    handlers that link a calendar, Status is calendarStatus, Page is
--                                    handleStatus, Setup is New with its options, Routes the routes,
--                                    Listening has Start, Shutdown and Addr;
--                                    Oauth/Flow joins the handlers with Calendar/Manager.
--   internal/config/config.go        Config/App: AppConfig, Validate and Parse.
--   main.go                          Main: run, which joins Config, Runner/Wiring and
--                                    Runner/Lifecycle.
-- Prelude has what these share: integers, texts, maps, results, decimal numerals, hosts with
-- ports, search in texts.
--
-- Conventions. A method that locks its mutex is one atomic step on a record; goroutines interleave as
-- sequences of such steps. Times and durations are in nanoseconds, in an unbounded ℤ; where the
-- code's int64 arithmetic can wrap in the range of its inputs, the wrap is written out, and counters
-- are 64-bit patterns. A string is the list of its runes; strings.EqualFold folds the runes whose
-- orbit has an ASCII letter, and no others. A nil pointer is none. What the clock, the
-- network, the file system, protobuf, JSON and URL parsing answer are arguments.
--
-- Bounds and fuel: no model runs on fuel. The retry loop recurses on the rounds that MaxRetries
-- allows, MaxRetries + 1 of them; the drawing loops on the columns and rows that are left; all else
-- on lists.
--
-- Not modelled: the transports that sign the poller's request, which are the OAuth library's; the
-- cleaning of paths in the HTTP library's multiplexer; the ticker of Run that copies the connection
-- state; getters that read one field; the signals of main.go; and the code that protoc generates
-- beyond its messages.
pub mod Prelude
pub mod Telemetry
pub mod Proto
pub mod Busybar
pub mod Hass
pub mod Runner
pub mod Main
pub mod Calendar
pub mod Server
pub mod Config
