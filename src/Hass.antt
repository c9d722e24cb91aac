-- ===== src/Hass.antt =====
-- internal/hass: events, and the dispatcher that delivers them to Home Assistant.
pub mod Event
pub mod Client
pub mod Dispatch
pub mod Settings
