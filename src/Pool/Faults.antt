-- ===== src/Pool/Faults.antt =====
-- How severe a fault is (_classify_cuda_fault and _strongest_cuda_fault of
-- kernelgym/worker/subprocess_pool.py), and the first answer to a context fault.
use kernel_gym.Prelude.{
  ℕ, suc, String, Bool, not, ◌||◌, Option, none, some, List, [], ◌∷◌, if◌then◌else◌, nat_eq,
}
use kernel_gym.Pool.State.{degraded_check, is_healthy, Pool, gpu_scope, set_health}

pub data Severity : Type 0 where
  no_fault context_fault device_fault : Severity

-- What the tests on the error's type and text find. `cuda` is the argument `is_cuda_error`.
pub record Signs : Type 0 where
  pub ends_process : Bool
  pub device_marker : Bool
  pub context_marker : Bool
  pub benign_marker : Bool
  pub mentions_cuda : Bool
  pub final_sync_failed : Bool
  pub cuda : Option Bool

abbrev is_cuda : Option Bool → Bool → Bool
is_cuda none mentioned = mentioned
is_cuda (some b) mentioned = b

unfoldable pub classify_cuda_fault : Signs → Severity
classify_cuda_fault s =
    if s.ends_process
    then device_fault
    else if s.device_marker
    then device_fault
    else if s.final_sync_failed || s.context_marker
    then context_fault
    else if s.benign_marker
    then no_fault
    else if is_cuda s.cuda s.mentions_cuda
    then context_fault
    else no_fault

abbrev pub rank : Severity → ℕ
rank no_fault = 0
rank context_fault = 1
rank device_fault = 2

abbrev pub stronger : Severity → Severity → Severity
stronger no_fault s = s
stronger context_fault device_fault = device_fault
stronger context_fault s = context_fault
stronger device_fault s = device_fault

-- `max` by rank. A text that is no severity counts as `none`.
unfoldable pub strongest_cuda_fault : List (Option Severity) → Severity
strongest_cuda_fault [] = no_fault
strongest_cuda_fault (none ∷ rest) = strongest_cuda_fault rest
strongest_cuda_fault (some s ∷ rest) = stronger s (strongest_cuda_fault rest)

pub data Validation : Type 0 where
  stale_report already_checking : Validation
  checks : ℕ → Validation

-- `_begin_context_fault_validation`. `observed` is the hard epoch in which the worker was handed out.
unfoldable pub begin_context_fault_validation : Pool → ℕ → String → String → Pool × Validation
begin_context_fault_validation p observed task reason =
    if not (nat_eq observed p.hard_recovery_epoch)
    then (p, stale_report)
    else if p.closing || not (is_healthy p.health_state)
    then (p, already_checking)
    else (
      record (set_health degraded_check reason task "context" gpu_scope
          (record p { pool_generation = suc p.pool_generation; pending_replacements = 0 })) {
            speculative = 1;
          },
      checks (suc p.pool_generation),
    )
