-- ===== src/Scripts/Dispatch.antt =====
-- The scripts that take a task for a worker (kernelgym/server/task_manager.py):
-- _CLAIM_GPU_TASK_LUA, _MARK_CLAIM_PROCESSING_LUA and _MARK_WORKFLOW_CPU_PROCESSING_LUA.
use Prim.Native.String.{◌++◌ as join}
use kernel_gym.Prelude.{
  ℕ, zero, suc, String, Bool, true, false, not, ◌&&◌, ◌||◌, Option, none, some, if◌then◌else◌,
  is_blank, holds, rpop,
}
use kernel_gym.Redis.Keys.{
  TaskKey, QueueKey, MarkerKey, Item, waiting, entry, task_key_Eq, queue_key_Eq,
}
use kernel_gym.Redis.{
  Db, TaskHash, Claim, processing, execution_fenced, unfenced, cleared_claim, task_at, task_exists,
  is_pending, hset_task, set_queue, lpush, lrem_first, marked,
}
use kernel_gym.Scripts.Guard.{workflow_task_allowed}
use kernel_gym.Scripts.Code.{Code, minus_two, minus_one, zero_code, one}

pub record ClaimArgs : Type 0 where
  pub source : QueueKey
  pub inflight : QueueKey
  pub token : String
  pub worker : String
  pub worker_instance : String
  pub prefix : String

-- The text of a queue item, which the script takes for a task id.
abbrev pub item_text : Item → String
item_text (waiting i) = i
item_text (entry t i) = join t (join "|" i)

-- The task key `ARGV[4] .. task_id`.
abbrev pub claim_key : ClaimArgs → Item → TaskKey
claim_key a x = record { prefix = a.prefix; id = item_text x }

unfoldable pub claimable : Db → TaskKey → Bool
claimable db k =
    task_exists db k
    && (is_pending (task_at db k).status
        && (is_blank (task_at db k).claim.token && workflow_task_allowed db k))

abbrev pub claim_of : ClaimArgs → Claim
claim_of a = record {
  token = some a.token;
  worker = some a.worker;
  worker_instance = some a.worker_instance;
  source_queue = some a.source;
  inflight_queue = some a.inflight;
  recovery_state = some unfenced;
  recovery_reason = some "";
  recovery_at = some "";
}

unfoldable pub take_claim : Db → ClaimArgs → Item → Db
take_claim db a x =
    hset_task (lpush db a.inflight (entry a.token (item_text x))) (claim_key a x)
      λ h. record h { claim = claim_of a }

-- The loop of the claim script over `scan_limit`; debris is popped and skipped.
unfoldable pub claim_gpu_task : ℕ → Db → ClaimArgs → Db × Option String
unfolding claimable take_claim
claim_gpu_task zero db a = (db, none)
claim_gpu_task (suc n) db a = elim (rpop (db.queues a.source)) [
  | none ↦ (db, none)
  | some (x, rest) ↦
      let db' = set_queue db a.source rest in
      elim (claimable db' (claim_key a x)) [
        | true ↦ (take_claim db' a x, some (item_text x))
        | false ↦ claim_gpu_task n db' a
      ]
]

-- `clear_claim` of the scripts.
abbrev pub clear_claim : TaskKey → Db → Db
clear_claim k db = hset_task db k (λ h. record h { claim = cleared_claim })

pub record MarkArgs : Type 0 where
  pub task : TaskKey
  pub inflight : QueueKey
  pub own_cancel : MarkerKey
  pub parent_cancel : MarkerKey
  pub item : Item
  pub token : String
  pub started_at : String
  pub worker : String
  pub worker_instance : String
  pub source : QueueKey

abbrev pub fence_reason : String
fence_reason = "GPU execution is in flight; automatic recovery requires proven process containment"

unfoldable pub start_task : MarkArgs → TaskHash → TaskHash
start_task a h = record h {
  status = some processing;
  stamps = record (h.stamps) { started_at = some a.started_at };
  claim = record (h.claim) {
    worker = some a.worker;
    worker_instance = some a.worker_instance;
    source_queue = some a.source;
    inflight_queue = some a.inflight;
    recovery_state = some execution_fenced;
    recovery_reason = some fence_reason;
    recovery_at = some a.started_at;
  };
}

unfoldable pub mark_claim_processing : Db → MarkArgs → Db × Code
mark_claim_processing db a =
    let h = task_at db a.task in
    let dropped = lrem_first db a.inflight a.item in
    if not (holds h.claim.token a.token)
    then (dropped, minus_two)
    else if not (is_pending h.status)
    then (clear_claim a.task dropped, zero_code)
    else if not (workflow_task_allowed db a.task)
        || (marked db a.own_cancel || marked db a.parent_cancel)
    then (clear_claim a.task dropped, minus_one)
    else (hset_task db a.task (start_task a), one)

unfoldable pub mark_cpu_processing : Db → TaskKey → MarkerKey → MarkerKey → String → Db × Code
mark_cpu_processing db k own_cancel parent_cancel started_at =
    if not (is_pending (task_at db k).status)
    then (db, zero_code)
    else if not (workflow_task_allowed db k)
    then (db, zero_code)
    else if marked db own_cancel || marked db parent_cancel
    then (db, zero_code)
    else (
      hset_task db k (λ h. record h {
        status = some processing;
        stamps = record (h.stamps) { started_at = some started_at };
      }),
      one,
    )
