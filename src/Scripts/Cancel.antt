-- ===== src/Scripts/Cancel.antt =====
-- CANCEL_TASK_LUA of kernelgym/server/workflow_lifecycle.py.
use kernel_gym.Prelude.{
  ℕ, String, Bool, true, false, not, ◌&&◌, Option, none, some, List, [], ◌∷◌, if◌then◌else◌, ◌==◌,
  or_else,
}
use kernel_gym.Redis.Keys.{
  TaskKey, QueueKey, no_queue, resource_queue, worker_queue, cpu, gpu, Stage, compile, kernel, ref,
  MarkerKey, cancel_key, tombstone_key, stage_tombstone, waiting, entry, task_key_Eq, queue_key_Eq,
  marker_key_Eq,
}
use kernel_gym.Redis.{
  Db, TaskHash, Claim, ResultHash, Payload, failed, task_at, task_exists, is_pending, is_unfenced,
  hset_task, hset_result, lrem_first_if, lrem_each, lrem_each_if, set_marker, expire_task,
  expire_result,
}

pub record CancelArgs : Type 0 where
  pub task : TaskKey
  pub result : TaskKey
  pub tombstone : MarkerKey
  pub cancel : MarkerKey
  pub id : String
  pub now : String
  pub prefix : String
  pub task_ttl : ℕ
  pub result_ttl : ℕ

-- The fences that are set whether the task exists or not.
unfoldable pub fence_id : CancelArgs → Db → Db
unfolding stage_tombstone
fence_id a db =
    let d1 = set_marker (set_marker db a.tombstone a.now) a.cancel "1" in
    let d2 = set_marker d1 (stage_tombstone a.prefix a.id compile) a.now in
    let d3 = set_marker d2 (stage_tombstone a.prefix a.id kernel) a.now in
    set_marker d3 (stage_tombstone a.prefix a.id ref) a.now

unfoldable pub fence_children : CancelArgs → List (Stage × String) → Db → Db
unfolding stage_tombstone
fence_children a [] db = db
fence_children a ((stage, child) ∷ rest) db =
    let d1 = set_marker db (tombstone_key a.prefix child) a.now in
    let d2 = set_marker d1 (cancel_key a.prefix child) "1" in
    let d3 = set_marker d2 (stage_tombstone a.prefix a.id stage) a.now in fence_children a rest d3

-- The two resource queues and the queue of the assigned worker lose the id.
unfoldable pub unqueue : String → String → Option String → Db → Db
unqueue prefix id assigned db =
    let worker = or_else assigned "" in
    let d1 = lrem_each db (resource_queue prefix cpu) (waiting id) in
    let d2 = lrem_each d1 (resource_queue prefix gpu) (waiting id) in
    lrem_each_if (not (worker == "")) d2 (worker_queue prefix worker) (waiting id)

abbrev is_no_queue : QueueKey → Bool
is_no_queue no_queue = true
is_no_queue _ = false

-- The inflight entry of a claim, where the claim names a token and a queue.
unfoldable pub drop_entry : Claim → String → Db → Db
drop_entry c id db =
    let token = or_else c.token "" in
    let inflight = or_else c.inflight_queue no_queue in
    lrem_first_if (not (token == "") && not (is_no_queue inflight)) db inflight (entry token id)

-- The five claim fields that the cancelling scripts clear. The recovery fields stay.
abbrev pub drop_owner : Claim → Claim
drop_owner c = record c {
  token = some "";
  worker = some "";
  worker_instance = some "";
  source_queue = some no_queue;
  inflight_queue = some no_queue;
}

abbrev pub fail_hash : String → TaskHash → TaskHash
fail_hash now h = record h {
  status = some failed;
  claim = drop_owner h.claim;
  stamps = record (h.stamps) { completed_at = some now };
}

abbrev pub failure_payload : String → String → Payload
failure_payload id message = record {
  task_id = id;
  status = failed;
  error_message = some message;
  error_code = some "SYSTEM_ERROR";
  compiled = false;
  correctness = false;
  workflow_generation = none;
  workflow_children = [];
  rest = "";
}

abbrev pub cancelled_result : CancelArgs → ResultHash → ResultHash
cancelled_result a r = record r {
  result = some (failure_payload a.id "Task cancelled");
  error = some "Task cancelled";
  error_code = some "SYSTEM_ERROR";
  completed_at = some a.now;
}

-- A task that has not started fails; a running or fenced attempt stays with its worker.
unfoldable pub cancel_unstarted : CancelArgs → Db → Db
unfolding drop_entry
cancel_unstarted a db =
    let h = task_at db a.task in
    if not (is_pending h.status)
    then db
    else if not (is_unfenced h.claim.recovery_state)
    then db
    else let written =
        hset_result (hset_task (drop_entry h.claim a.id db) a.task (fail_hash a.now)) a.result
          (cancelled_result a) in
      expire_result a.result_ttl a.result (expire_task a.task_ttl a.task written)

abbrev pub cancel_existing : CancelArgs → Option (List (Stage × String)) → Db → Db
cancel_existing a (some children) db = fence_children a children db
cancel_existing a none db =
    cancel_unstarted a (unqueue a.prefix a.id (task_at db a.task).assigned_worker db)

-- `cancelled_at` is set before the script looks at the status.
abbrev pub stamp_cancelled : CancelArgs → Db → Db
stamp_cancelled a db =
    hset_task db a.task λ h. record h { stamps = record (h.stamps) { cancelled_at = some a.now } }

unfoldable pub cancel_task : Db → CancelArgs → Db
unfolding fence_id fence_children unqueue cancel_unstarted
cancel_task db a =
    let fenced = fence_id a db in
    if not (task_exists fenced a.task)
    then fenced
    else let stamped = stamp_cancelled a fenced in
      cancel_existing a (task_at stamped a.task).parent.children stamped
