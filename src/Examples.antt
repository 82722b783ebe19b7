-- ===== src/Examples.antt =====
-- Runs of the model on concrete data: one server, one worker with a GPU and one task, from its
-- submission to its end.
pub mod Data
mod Scripts
mod Methods
mod Workers
mod Payloads
mod Flows
mod Latches
