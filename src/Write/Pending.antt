-- ===== src/Write/Pending.antt =====
-- The calls of src/write/mod.rs on a sink that may be pending, against one that waits.
pub mod Sink
pub mod Drain
pub mod Flush
pub mod Data
pub mod Round
pub mod Header
pub mod Cleared
pub mod Grows
pub mod Finish
pub mod Awaits
