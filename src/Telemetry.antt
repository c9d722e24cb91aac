-- ===== src/Telemetry.antt =====
-- internal/telemetry: its data, and its store.
pub mod Types
pub mod Store
