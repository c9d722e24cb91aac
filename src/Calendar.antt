-- ===== src/Calendar.antt =====
-- internal/calendar: the calendar binding, the poller and the display.
pub mod Store
pub mod Manager
pub mod Events
pub mod Poller
pub mod Display
pub mod Worker
pub mod Setup
