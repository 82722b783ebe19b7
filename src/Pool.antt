-- ===== src/Pool.antt =====
-- The pool of worker processes on one GPU: `SubprocessWorkerPool` of
-- kernelgym/worker/subprocess_pool.py. Each section under the pool's lock is one function; starting,
-- stopping and probing a process are answers that come as arguments.
pub mod State
pub mod Faults
pub mod Recovery
pub mod Replacement
pub mod Checkout
pub mod Moves
pub mod Generations
pub mod Capacity
pub mod Asking
pub mod Settled
pub mod Kept
pub mod InOrder
pub mod Distinct
pub mod Runs
pub mod Handing
pub mod Retained
pub mod Late
pub mod Containment
pub mod Severity
pub mod Execute
pub mod Replay
pub mod Published
