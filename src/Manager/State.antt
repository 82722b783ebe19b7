-- ===== src/Manager/State.antt =====
-- `TaskClaim`, the state of `TaskManager.__init__` that its methods change, and the keys that they
-- build (kernelgym/server/task_manager.py).
use kernel_gym.Prelude.{
  ℕ, String, Bool, true, false, Option, none, some, if◌then◌else◌, ◌==◌, update, string_eq,
}
use kernel_gym.Redis.Keys.{QueueKey, MarkerKey, cancel_key, Resource, cpu, gpu, Item}
use kernel_gym.Redis.{Db, Status, TaskJson}
use kernel_gym.Scripts.Code.{Code, minus_four, minus_two, one}

-- `entry` is always `{token}|{task_id}`.
pub record TaskClaim : Type 0 where
  pub prefix : String
  pub inflight_queue : QueueKey
  pub source_queue : QueueKey
  pub token : String
  pub item : Item
  pub worker_instance : String

pub record Settings : Type 0 where
  pub key_prefix : String
  pub legacy_prefix : String
  pub worker_instance_id : String
  pub terminal_task_ttl_sec : ℕ
  pub terminal_result_ttl_sec : ℕ
  pub default_timeout : ℕ

-- `_task_claims` and the statuses of `active_tasks`.
pub record Server : Type 0 where
  pub db : Db
  pub claims : String → Option TaskClaim
  pub active_tasks : String → Option Status

pub data Error : Type 0 where
  stale_claim frozen_claim refresh_conflict workflow_stopped value_error : Error

-- What a method does in the end.
pub data Reply (A : Type 0) : Type 0 where
  raises : Error → Reply A
  returns : A → Reply A

abbrev pub drop_claim : Server → String → Server
drop_claim s id = record s { claims = update s.claims id none }

abbrev pub keep_claim : Server → String → TaskClaim → Server
keep_claim s id c = record s { claims = update s.claims id (some c) }

abbrev pub drop_claim_if : Bool → Server → String → Server
drop_claim_if on s id = record s { claims = if on then update s.claims id none else s.claims }

abbrev pub is_one : Code → Bool
is_one one = true
is_one _ = false

abbrev pub is_minus_two : Code → Bool
is_minus_two minus_two = true
is_minus_two _ = false

abbrev pub is_minus_four : Code → Bool
is_minus_four minus_four = true
is_minus_four _ = false

-- The marker that the code checks for the parent: the task's own where it has no parent.
abbrev pub parent_cancel_key : String → String → String → MarkerKey
parent_cancel_key prefix id base = cancel_key prefix (if base == "" then id else base)

-- `_resolve_required_resource`, on the texts after `strip` and `lower`.
unfoldable pub resolve_required_resource : TaskJson → Resource
resolve_required_resource j =
    if j.required_resource == "cpu"
    then cpu
    else if j.required_resource == "gpu"
    then gpu
    else if j.task_stage == "compile"
    then cpu
    else if j.pure_compile_task
    then cpu
    else gpu

abbrev pub resource_text : Resource → String
resource_text cpu = "cpu"
resource_text gpu = "gpu"
