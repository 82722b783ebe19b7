-- ===== src/Quarantine.antt =====
-- The safety latches of quarantined GPUs (kernelgym/utils/gpu_quarantine.py): durable files and their Redis mirrors.
pub mod Latch
pub mod Merge
pub mod Store
pub mod Exclusion
pub mod Paging
pub mod Once
