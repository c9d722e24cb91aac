-- ===== src/Config.antt =====
-- internal/config/config.go and internal/hass/config.go: the settings.
pub mod App
pub mod Validation
mod Tests
