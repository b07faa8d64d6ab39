-- ===== src/Read.antt =====
-- src/read/mod.rs: reading the entries of an archive.
pub mod Consume
pub mod Calls
pub mod Buffered
pub mod Data
pub mod Faults
pub mod Fill
pub mod Stream
pub mod Padding
pub mod Skip
pub mod Header
pub mod Starts
pub mod Entries
pub mod Drain
pub mod Drained
pub mod Futures
pub mod Eof
pub mod Again
pub mod Archived
pub mod Whole
pub mod Pending
