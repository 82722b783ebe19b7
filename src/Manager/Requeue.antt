-- ===== src/Manager/Requeue.antt =====
-- `requeue_unstarted_task` and `_conditionally_requeue_waiting_task` of `TaskManager`
-- (kernelgym/server/task_manager.py).
use kernel_gym.Prelude.{
  String, Bool, false, not, ◌&&◌, Option, none, some, if◌then◌else◌, ◌==◌, or_else,
}
use kernel_gym.Redis.Keys.{resource_queue, worker_queue, cancel_key}
use kernel_gym.Redis.{Db, TaskJson, TaskHash, task_at}
use kernel_gym.Scripts.Code.{Code}
use kernel_gym.Scripts.Requeue.{
  RequeueArgs, Release, release_none, release_execution, release_all, conditional_requeue,
  Operation, WaitArgs, queue_wait_requeue,
}
use kernel_gym.Manager.State.{
  TaskClaim, Server, value_error, Reply, raises, returns, drop_claim_if, is_one, is_minus_four,
  parent_cancel_key, resolve_required_resource, resource_text,
}
use kernel_gym.Manager.Claims.{claim_task}

pub record RequeueOrder : Type 0 where
  pub reason : String
  pub restore_claim_source : Bool
  pub release_frozen_claim : Bool
  pub release_execution_fence : Bool

abbrev pub release_of : RequeueOrder → Release
release_of o =
    if o.release_frozen_claim
    then release_all
    else if o.release_execution_fence
    then release_execution
    else release_none

-- The task's JSON with the fields that a requeue sets.
abbrev pub restored_json : TaskJson → String → String → String → TaskJson
restored_json j worker reason now = record j {
  required_resource = resource_text (resolve_required_resource j);
  assigned_worker = worker;
  queue_timeout_reason = reason;
  queue_timeout_at = now;
}

-- The worker and the time that a claim's task goes back with, and the queue that it goes to.
unfoldable pub requeue_args : Db → TaskClaim → TaskJson → RequeueOrder → String → RequeueArgs
requeue_args db claim j o now =
    let h = task_at db (claim_task claim j.task_id) in
    let worker = if o.restore_claim_source then or_else h.assigned_worker "" else "" in
    record {
      task = claim_task claim j.task_id;
      destination =
          if o.restore_claim_source
          then claim.source_queue
          else resource_queue claim.prefix (resolve_required_resource j);
      inflight = claim.inflight_queue;
      own_cancel = cancel_key claim.prefix j.task_id;
      parent_cancel = parent_cancel_key claim.prefix j.task_id j.base_task_id;
      id = j.task_id;
      item = claim.item;
      token = claim.token;
      new_json = restored_json j worker o.reason now;
      reason = o.reason;
      now = now;
      assigned_worker = worker;
      assigned_at = if o.restore_claim_source then or_else h.stamps.assigned_at "" else "";
      release = release_of o;
    }

unfoldable pub requeue_with :
    Server → TaskJson → RequeueOrder → String → Option TaskClaim → Server × Reply Bool
requeue_with s j o now none = (s, returns false)
requeue_with s j o now (some claim) =
    let (db, code) = conditional_requeue s.db (requeue_args s.db claim j o now) in
    (
      drop_claim_if (not (is_minus_four code)) (record s { db = db }) j.task_id,
      returns (is_one code),
    )

unfoldable pub requeue_unstarted_task :
    Server → TaskJson → RequeueOrder → String → Server × Reply Bool
unfolding requeue_with
requeue_unstarted_task s j o now =
    if j.task_id == ""
    then (s, raises value_error)
    else if o.release_frozen_claim && o.release_execution_fence
    then (s, raises value_error)
    else requeue_with s j o now (s.claims j.task_id)

-- The arguments of the compare-and-set by which the monitor moves one waiting task: the snapshot
-- `h` that it has read, and the JSON that the task goes back with.
abbrev pub wait_args :
    String → String → String → TaskHash → TaskJson → String → String → Operation → String → WaitArgs
wait_args prefix worker id h j reason now operation move_token = record {
  task = record { prefix = prefix; id = id };
  worker_queue = worker_queue prefix worker;
  resource_queue = resource_queue prefix (resolve_required_resource j);
  own_cancel = cancel_key prefix id;
  parent_cancel = parent_cancel_key prefix id j.base_task_id;
  id = id;
  worker = worker;
  operation = operation;
  assigned_worker = or_else h.assigned_worker "";
  assigned_at = or_else h.stamps.assigned_at "";
  submitted_at = or_else h.stamps.submitted_at "";
  json = h.json;
  new_json = restored_json j "" reason now;
  reason = reason;
  now = now;
  move_token = move_token;
}

unfoldable pub conditionally_requeue_waiting_task :
    Server
    → String
    → String
    → String
    → TaskHash
    → TaskJson
    → String
    → String
    → Operation
    → String
    → Server × Code
conditionally_requeue_waiting_task s prefix worker id h j reason now operation move_token =
    let (db, code) =
      queue_wait_requeue s.db (wait_args prefix worker id h j reason now operation move_token) in
    (record s { db = db }, code)
