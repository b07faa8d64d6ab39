-- ===== src/Write.antt =====
-- src/write/mod.rs: writing the entries of an archive.
pub mod Calls
pub mod Entries
pub mod Flush
pub mod Buffered
pub mod Finish
pub mod Blocks
pub mod Through
pub mod Puts
pub mod Room
pub mod Vectored
pub mod Ready
pub mod Full
pub mod Parts
pub mod Steps
pub mod Faults
pub mod Retry
pub mod Archived
pub mod Ends
pub mod Whole
pub mod Pending
