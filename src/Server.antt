-- ===== src/Server.antt =====
-- internal/server/server.go: the handlers of the HTTP server.
-- A handler is a function of the request to the reply and what it changes.
pub mod Http
pub mod Oauth
pub mod Probes
pub mod Status
pub mod Setup
pub mod Listening
pub mod Page
pub mod Routes
