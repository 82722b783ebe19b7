-- ===== src/Scripts.antt =====
-- The Lua scripts, a function of the database each.
pub mod Code
pub mod Guard
pub mod Dispatch
pub mod Release
pub mod Requeue
pub mod Submit
pub mod Cancel
pub mod Lifecycle
pub mod Schedule
