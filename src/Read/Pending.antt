-- ===== src/Read/Pending.antt =====
-- The calls of src/read/mod.rs on a source that may be pending, against one that waits.
pub mod Source
pub mod Fill
pub mod Grows
pub mod ReadEntry
pub mod NextEntry
pub mod Skip
pub mod Passed
pub mod Ends
pub mod Awaits
pub mod Client
pub mod Whole
