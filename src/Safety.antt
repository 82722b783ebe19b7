-- ===== src/Safety.antt =====
-- Safety
pub mod Stale
pub mod Running
pub mod Attempt
pub mod Cancelled
pub mod Ended
