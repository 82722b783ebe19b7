-- ===== src/Admission.antt =====
-- Which tasks the scripts admit and hand out.
pub mod Claiming
pub mod Submitting
pub mod Requeueing
pub mod Workflows
