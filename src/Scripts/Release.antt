-- ===== src/Scripts/Release.antt =====
-- The scripts that end or fence an attempt (kernelgym/server/task_manager.py): _RETURN_CLAIM_LUA,
-- _ACK_CLAIM_LUA, _FREEZE_CLAIM_RECOVERY_LUA and _FINALIZE_CLAIM_LUA.
use kernel_gym.Prelude.{ℕ, String, Bool, not, ◌&&◌, Option, none, some, if◌then◌else◌, holds}
use kernel_gym.Redis.Keys.{TaskKey, QueueKey, Item, waiting, task_key_Eq, queue_key_Eq}
use kernel_gym.Redis.{
  Db, TaskHash, ResultHash, Status, frozen, task_at, task_exists, is_unfenced, is_frozen,
  cleared_claim, hset_task, hset_result, lpush, lrem_first, lrem_each, expire_task, expire_result,
}
use kernel_gym.Scripts.Guard.{workflow_task_allowed}
use kernel_gym.Scripts.Code.{Code, minus_two, zero_code, one}
use kernel_gym.Scripts.Dispatch.{clear_claim}

pub record ReturnArgs : Type 0 where
  pub source : QueueKey
  pub inflight : QueueKey
  pub task : TaskKey
  pub id : String
  pub item : Item
  pub token : String

unfoldable pub return_claim : Db → ReturnArgs → Db × Code
return_claim db a =
    let dropped = lrem_first db a.inflight a.item in
    if not (holds (task_at db a.task).claim.token a.token)
    then (dropped, zero_code)
    else let emptied = lrem_each dropped a.source (waiting a.id) in
      let queued =
        if workflow_task_allowed emptied a.task
        then lpush emptied a.source (waiting a.id)
        else emptied in
      (clear_claim a.task queued, one)

pub record AckArgs : Type 0 where
  pub task : TaskKey
  pub inflight : QueueKey
  pub item : Item
  pub token : String
  pub release_fence : Bool

unfoldable pub ack_claim : Db → AckArgs → Db × Code
ack_claim db a =
    let dropped = lrem_first db a.inflight a.item in
    if not (task_exists db a.task)
    then (dropped, one)
    else if not (holds (task_at db a.task).claim.token a.token)
    then (dropped, zero_code)
    else if not (is_unfenced (task_at db a.task).claim.recovery_state) && not a.release_fence
    then (db, minus_two)
    else (clear_claim a.task dropped, one)

unfoldable pub freeze_claim : Db → TaskKey → String → String → String → Db × Code
freeze_claim db k token reason now =
    if not (holds (task_at db k).claim.token token) then (db, zero_code) else (
      hset_task db k (λ h. record h {
        claim = record (h.claim) {
          recovery_state = some frozen;
          recovery_reason = some reason;
          recovery_at = some now;
        };
      }),
      one,
    )

-- The task mapping that `_finalize_task_records` builds: the terminal status and its time, and the
-- cleared claim.
pub record TerminalMapping : Type 0 where
  pub status : Status
  pub completed_at : Option String
  pub failed_at : Option String
  pub timeout_at : Option String

-- A field that the mapping holds replaces the old one.
abbrev pub override {ℓ} : {A : Type ℓ} → Option A → Option A → Option A
override none old = old
override (some new) old = some new

unfoldable pub set_terminal : TerminalMapping → TaskHash → TaskHash
set_terminal m h = record h {
  status = some m.status;
  claim = cleared_claim;
  stamps = record (h.stamps) {
    completed_at = override m.completed_at h.stamps.completed_at;
    failed_at = override m.failed_at h.stamps.failed_at;
    timeout_at = override m.timeout_at h.stamps.timeout_at;
  };
}

unfoldable pub set_result : ResultHash → ResultHash → ResultHash
set_result m r = record {
  result = override m.result r.result;
  error = override m.error r.error;
  error_code = override m.error_code r.error_code;
  request_hash = override m.request_hash r.request_hash;
  completed_at = override m.completed_at r.completed_at;
  failed_at = override m.failed_at r.failed_at;
  timeout_at = override m.timeout_at r.timeout_at;
}

pub record FinalizeArgs : Type 0 where
  pub task : TaskKey
  pub result : TaskKey
  pub inflight : QueueKey
  pub token : String
  pub item : Item
  pub task_mapping : TerminalMapping
  pub result_mapping : ResultHash
  pub task_ttl : ℕ
  pub result_ttl : ℕ
  pub allow_frozen : Bool

unfoldable pub finalize_claim : Db → FinalizeArgs → Db × Code
finalize_claim db a =
    if not (holds (task_at db a.task).claim.token a.token)
    then (lrem_first db a.inflight a.item, zero_code)
    else if is_frozen (task_at db a.task).claim.recovery_state && not a.allow_frozen
    then (db, minus_two)
    else let written =
        hset_result (hset_task db a.task (set_terminal a.task_mapping)) a.result
          (set_result a.result_mapping) in
      let dropped = lrem_first written a.inflight a.item in
      (expire_result a.result_ttl a.result (expire_task a.task_ttl a.task dropped), one)
