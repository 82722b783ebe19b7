-- ===== src/Promises.antt =====
-- What the methods of `TaskManager` promise together (kernelgym/server/task_manager.py).
pub mod Ownership
pub mod Results
pub mod Submission
pub mod Waiting
pub mod Selection
