-- ===== src/Busybar.antt =====
-- internal/busybar: the Busy Bar's frames in, and the display's frames out.
pub mod Decoder
pub mod Push
pub mod Client
pub mod Endpoint
pub mod Connection
pub mod Lifetime
