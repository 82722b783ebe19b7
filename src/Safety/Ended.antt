-- ===== src/Safety/Ended.antt =====
-- A workflow generation that has ended admits no child again (kernelgym/server/
-- workflow_lifecycle.py).
pub mod Calls
pub mod Theorem
use kernel_gym.Prelude.{
  ℕ, zero, suc, String, Bool, true, false, not, ◌&&◌, Option, none, some, List, [], ◌∷◌, ◌≡◌, refl,
  arith, holds, ap, ◌∙◌, rpop, Bool-cases, Option-cases, inl, inr, ◌==◌, eq_iff,
}
use kernel_gym.Redis.Keys.{TaskKey, task_key_eq, task_key_eq_iff}
use kernel_gym.Redis.{Db, Status, is_active, is_terminal, task_at, set_queue}
use kernel_gym.Scripts.Dispatch.{ClaimArgs, claim_key, claimable, take_claim, claim_gpu_task}
use kernel_gym.Scripts.Schedule.{
  Call, submit_call, refresh_call, finalize_call, accept_call, renew_call,
}

-- The parent at `k` is not an active workflow of generation `g`.
pub record Ended (db : Db) (k : TaskKey) (g : String) : Type 0 where
  pub over : (holds (task_at db k).flow.generation g && is_active (task_at db k).status) ≡ false

-- Calls that keep to the discipline of the server: a parent's key is created by `accept` alone and
-- under a new generation, only terminal statuses are published, and a lease is
-- renewed for a generation that has a name.
abbrev pub fresh : Call → TaskKey → String → Bool
fresh (submit_call j q i m) k g = not (task_key_eq j k)
fresh (refresh_call a) k g = not (task_key_eq a.task k)
fresh (accept_call a) k g = not (task_key_eq a.keys.task k && a.generation == g)
fresh (finalize_call a) k g = is_terminal (some a.task_mapping.status)
fresh (renew_call a) k g = not (a.generation == "")
fresh _ k g = true
