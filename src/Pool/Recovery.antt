-- ===== src/Pool/Recovery.antt =====
-- The recovery from a device fault, the quarantine, and the end of the pool
-- (kernelgym/worker/subprocess_pool.py).
use kernel_gym.Prelude.{
  ℕ, suc, String, Bool, true, not, ◌&&◌, List, [], ◌∷◌, ◌++◌, if◌then◌else◌, ◌==◌, nat_eq, nat_Eq,
}
use kernel_gym.Pool.State.{
  healthy, suspect, quarantined, is_suspect, is_quarantined, Pool, gpu_scope, set_health,
  register_ticket, tracked_workers, all_stopped, reaped, clear_workers, ensure_capacity,
}

-- The locked section of `_quarantine_unreaped_context`, with the workers to shut down.
unfoldable pub quarantine_unreaped_context : Pool → String → String → List ℕ → Pool × List ℕ
quarantine_unreaped_context p reason task extra = (
  set_health quarantined reason task "pre_fault_reap_failure" gpu_scope (record (clear_workers p) {
    pool_generation = suc p.pool_generation;
    hard_recovery_epoch = suc p.hard_recovery_epoch;
    pending_replacements = 0;
    unsafe_reason = reason;
  }),
  tracked_workers p extra,
)

-- The locked section of `_contain_unexpected_hard_recovery_failure`, and what follows the shutdowns.
unfoldable pub contain_hard_recovery_failure : Pool → String → String → List ℕ → Pool × List ℕ
contain_hard_recovery_failure p reason task extra = (
  set_health quarantined reason task "hard_recovery_failure" gpu_scope (record (clear_workers p) {
    pool_generation = suc p.pool_generation;
    hard_recovery_epoch = suc p.hard_recovery_epoch;
    pending_replacements = 0;
  }),
  tracked_workers p extra,
)

abbrev pub containment_reason : String
containment_reason =
    "one or more CUDA contexts could not be confirmed reaped after hard-recovery failure"

unfoldable pub after_containment : Pool → List (ℕ × Bool) → Pool
after_containment p results = record (reaped results p) {
  unsafe_reason = if all_stopped results then p.unsafe_reason else containment_reason;
}

-- How a report of a device fault is taken up.
pub data Gate : Type 0 where
  -- a shutdown owns the workers, an unsafe containment is raised, or the report changes nothing
  taken_over raises_unsafe leaves : Gate
  -- the generation of the recovery and the workers to retire
  opens : ℕ → List ℕ → Gate

abbrev unsafe_or_leaves : String → Gate
unsafe_or_leaves reason = if reason == "" then leaves else raises_unsafe

abbrev pub open_gate : Pool → ℕ → String → String → Pool × Gate
open_gate p worker task reason = (
  register_ticket (suc p.pool_generation) (
      set_health suspect reason task "device" gpu_scope (record (clear_workers p) {
        pool_generation = suc p.pool_generation;
        hard_recovery_epoch = suc p.hard_recovery_epoch;
        pending_replacements = 1;
      })),
  opens (suc p.pool_generation) (tracked_workers p (worker ∷ [])),
)

-- `_recover_from_device_fault` up to the end of the first locked section of
-- `_recover_from_device_fault_once`.
unfoldable pub recover_from_device_fault : Pool → ℕ → ℕ → String → String → Pool × Gate
recover_from_device_fault p worker observed task reason =
    if p.closing
    then (p, taken_over)
    else if is_quarantined p.health_state
    then (p, unsafe_or_leaves p.unsafe_reason)
    else if not (nat_eq observed p.hard_recovery_epoch)
    then (p, leaves)
    else open_gate p worker task reason

abbrev pub is_current : Pool → ℕ → Bool
is_current p g = not p.closing && nat_eq g p.pool_generation

abbrev pub unreaped_reason : String
unreaped_reason = "pre-fault CUDA context could not be confirmed reaped"

-- The old workers' exits: where one is not proven, the pool is unsafe and, if the recovery is still
-- current, quarantined.
unfoldable pub old_workers_reaped : Pool → ℕ → String → List (ℕ × Bool) → Pool
old_workers_reaped p g task results =
    let q = reaped results p in
    if all_stopped results
    then q
    else let u = record q { unsafe_reason = unreaped_reason } in
      if is_current p g
      then set_health quarantined unreaped_reason task "pre_fault_reap_failure" gpu_scope
          (record u { pending_replacements = 0 })
      else u

-- Whether a fresh context may be opened after the old ones are gone.
unfoldable pub may_validate : Pool → ℕ → Bool
may_validate p g = is_current p g && is_suspect p.health_state

-- The last locked section: a fresh worker reopens the pool, a failed probe quarantines it, and a recovery that
-- is no longer current changes nothing; its fresh worker is shut down.
unfoldable pub finish_validation : Pool → ℕ → String → String → String → Bool → Pool
unfolding may_validate
finish_validation p g task error fault started =
    if not (may_validate p g)
    then p
    else if not started
    then set_health quarantined error task fault gpu_scope (record p { pending_replacements = 0 })
    else ensure_capacity (
        set_health healthy "" "" "" gpu_scope (record p {
          pending_replacements = 0;
          workers = p.workers ++ p.next_worker ∷ [];
          idle_workers = p.idle_workers ++ p.next_worker ∷ [];
          restarted = suc p.restarted;
          failures = 0;
          next_worker = suc p.next_worker;
        }))

-- `_shutdown_once`: the pool closes and its workers are taken off every list.
unfoldable pub begin_shutdown : Pool → Pool × List ℕ
begin_shutdown p = (
  record (clear_workers p) {
    closing = true;
    pool_generation = suc p.pool_generation;
    pending_replacements = 0;
  },
  tracked_workers p [],
)

abbrev pub shutdown_reason : Bool → Bool → String → String
shutdown_reason drained stopped old =
    if not drained
    then "timed out waiting for background CUDA worker constructors"
    else if not stopped
    then "one or more CUDA workers could not be confirmed stopped"
    else old

-- The end of the shutdown: `drained` says that no constructor is on its way; the results are those of every worker.
unfoldable pub end_shutdown : Pool → Bool → List (ℕ × Bool) → Pool × Bool
end_shutdown p drained results =
    let reason = shutdown_reason drained (all_stopped results) p.unsafe_reason in
    (
      record (reaped results (clear_workers p)) { unsafe_reason = reason },
      drained && (all_stopped results && reason == ""),
    )
