-- ===== src/Io.antt =====
-- `std::io` and `std::task` as the crate uses them: error values, results and polls.
pub mod Error
pub mod Result
pub mod Await
pub mod Waited
pub mod Pends
pub mod Texts
pub mod Poll
