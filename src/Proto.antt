-- ===== src/Proto.antt =====
-- pkg/pb and pkg/pb/busybar: the messages of the generated code that the bridge reads.
pub mod Upstream
pub mod Normalized
pub mod Event
