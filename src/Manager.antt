-- ===== src/Manager.antt =====
-- The process that holds a `TaskManager` (kernelgym/server/task_manager.py): the local index of its
-- claims beside the shared database, its settings, and the errors that its methods raise. A method
-- takes the time and the fresh token that it reads from the clock and from `uuid4`.
pub mod State
pub mod Claims
pub mod Requeue
pub mod Finish
pub mod Submit
pub mod Read
pub mod Recover
pub mod Dispatch
pub mod Nodes
pub mod Wait
