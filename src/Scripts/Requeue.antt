-- ===== src/Scripts/Requeue.antt =====
-- The scripts that put a task back into a queue (kernelgym/server/task_manager.py):
-- _QUEUE_WAIT_REQUEUE_LUA and _CONDITIONAL_REQUEUE_LUA.
use kernel_gym.Prelude.{
  String, Bool, true, false, not, ◌&&◌, ◌||◌, Option, none, some, if◌then◌else◌, ◌==◌, or_else,
  holds, is_blank, contains,
}
use kernel_gym.Redis.Keys.{
  TaskKey, QueueKey, MarkerKey, Item, waiting, task_key_Eq, queue_key_Eq, item_Eq,
}
use kernel_gym.Redis.{
  Db, TaskHash, TaskJson, Status, pending, Fence, unfenced, execution_fenced, frozen, fence_of,
  task_at, is_pending, is_terminal, cleared_claim, hset_task, lpush, lrem_first, lrem_each, marked,
}
use kernel_gym.Scripts.Guard.{workflow_task_allowed}
use kernel_gym.Scripts.Code.{
  Code, minus_eight, minus_seven, minus_six, minus_five, minus_four, minus_three, minus_two,
  minus_one, zero_code, one, two,
}
use kernel_gym.Scripts.Dispatch.{clear_claim}

abbrev bool_eq : Bool → Bool → Bool
bool_eq true b = b
bool_eq false b = not b

-- Two serialised tasks are the same text. Both come from `json.dumps`.
unfoldable pub json_eq : TaskJson → TaskJson → Bool
json_eq a b =
    (a.task_id == b.task_id && a.base_task_id == b.base_task_id)
    && (a.workflow_source_task_id == b.workflow_source_task_id
        && a.required_resource == b.required_resource)
    && (a.task_stage == b.task_stage && bool_eq a.pure_compile_task b.pure_compile_task)
    && (a.assigned_worker == b.assigned_worker && bool_eq a.force_refresh b.force_refresh)
    && (a.queue_timeout_reason == b.queue_timeout_reason
        && a.queue_timeout_at == b.queue_timeout_at)
    && a.rest == b.rest

unfoldable pub same_json : Option TaskJson → Option TaskJson → Bool
unfolding json_eq
same_json none none = true
same_json (some a) (some b) = json_eq a b
same_json _ _ = false

pub data Operation : Type 0 where
  requeue remove_stale_copy : Operation

abbrev pub is_stale_copy : Operation → Bool
is_stale_copy remove_stale_copy = true
is_stale_copy requeue = false

pub record WaitArgs : Type 0 where
  pub task : TaskKey
  pub worker_queue : QueueKey
  pub resource_queue : QueueKey
  pub own_cancel : MarkerKey
  pub parent_cancel : MarkerKey
  pub id : String
  pub worker : String
  pub operation : Operation
  pub assigned_worker : String
  pub assigned_at : String
  pub submitted_at : String
  pub json : Option TaskJson
  pub new_json : TaskJson
  pub reason : String
  pub now : String
  pub move_token : String

-- The fields of a task that waits again.
unfoldable pub wait_again : WaitArgs → TaskHash → TaskHash
wait_again a h = record h {
  json = some a.new_json;
  status = some pending;
  assigned_worker = some "";
  claim = cleared_claim;
  stamps = record (h.stamps) {
    assigned_at = some "";
    started_at = some "";
    queue_timeout_reason = some a.reason;
    queue_timeout_at = some a.now;
    queue_move_token = some a.move_token;
    updated_at = some a.now;
  };
}

-- The part of the script for an obsolete copy in another worker's queue.
unfoldable pub remove_copy : Db → WaitArgs → Db × Code
remove_copy db a =
    if a.assigned_worker == "" || a.assigned_worker == a.worker
    then (db, minus_eight)
    else if contains (waiting a.id) (db.queues a.worker_queue)
    then (lrem_first db a.worker_queue (waiting a.id), two)
    else (db, minus_seven)

-- One copy leaves the worker's queue; the resource queue holds the id once, at its left end.
abbrev pub move_waiting : Db → WaitArgs → Db
move_waiting db a =
    let taken = lrem_first db a.worker_queue (waiting a.id) in
    let emptied = lrem_each taken a.resource_queue (waiting a.id) in
    lpush (hset_task emptied a.task (wait_again a)) a.resource_queue (waiting a.id)

unfoldable pub requeue_waiting : Db → WaitArgs → Db × Code
requeue_waiting db a =
    if not (is_pending (task_at db a.task).status)
    then (db, zero_code)
    else if not (is_blank (task_at db a.task).claim.token)
    then (db, minus_one)
    else if not (workflow_task_allowed db a.task)
        || (marked db a.own_cancel || marked db a.parent_cancel)
    then (db, minus_two)
    else if not (contains (waiting a.id) (db.queues a.worker_queue))
    then (db, minus_seven)
    else (move_waiting db a, one)

-- The first part of the script: the code of the first field that differs from the snapshot.
unfoldable pub snapshot_code : Db → WaitArgs → Option Code
snapshot_code db a =
    let h = task_at db a.task in
    if not (or_else h.assigned_worker "" == a.assigned_worker)
    then some minus_three
    else if not (or_else h.stamps.assigned_at "" == a.assigned_at)
    then some minus_four
    else if not (or_else h.stamps.submitted_at "" == a.submitted_at)
    then some minus_five
    else if not (same_json h.json a.json)
    then some minus_six
    else none

abbrev pub unless_refused : Option Code → Db → Db × Code → Db × Code
unless_refused (some c) db done = (db, c)
unless_refused none db done = done

unfoldable pub perform_wait : Db → WaitArgs → Db × Code
perform_wait db a =
    if is_stale_copy a.operation
    then remove_copy db a
    else if not (a.assigned_worker == "") && not (a.assigned_worker == a.worker)
    then (db, minus_eight)
    else requeue_waiting db a

unfoldable pub queue_wait_requeue : Db → WaitArgs → Db × Code
unfolding perform_wait
queue_wait_requeue db a = unless_refused (snapshot_code db a) db (perform_wait db a)

-- The recovery fences that the caller may release.
pub data Release : Type 0 where
  release_none release_execution release_all : Release

unfoldable pub release_allowed : Fence → Release → Bool
release_allowed unfenced _ = true
release_allowed execution_fenced release_none = false
release_allowed execution_fenced _ = true
release_allowed frozen release_all = true
release_allowed frozen _ = false

pub record RequeueArgs : Type 0 where
  pub task : TaskKey
  pub destination : QueueKey
  pub inflight : QueueKey
  pub own_cancel : MarkerKey
  pub parent_cancel : MarkerKey
  pub id : String
  pub item : Item
  pub token : String
  pub new_json : TaskJson
  pub reason : String
  pub now : String
  pub assigned_worker : String
  pub assigned_at : String
  pub release : Release

unfoldable pub restore_task : RequeueArgs → TaskHash → TaskHash
restore_task a h = record h {
  json = some a.new_json;
  status = some pending;
  assigned_worker = some a.assigned_worker;
  claim = cleared_claim;
  stamps = record (h.stamps) {
    assigned_at = some a.assigned_at;
    started_at = some "";
    queue_timeout_reason = some a.reason;
    queue_timeout_at = some a.now;
    updated_at = some a.now;
  };
}

abbrev is_missing : Option Status → Bool
is_missing none = true
is_missing (some _) = false

-- The attempt's entry leaves the inflight list; the destination holds the id once.
abbrev pub put_back : Db → RequeueArgs → Db
put_back db a =
    let dropped = lrem_first db a.inflight a.item in
    let emptied = lrem_each dropped a.destination (waiting a.id) in
    lpush (hset_task emptied a.task (restore_task a)) a.destination (waiting a.id)

unfoldable pub conditional_requeue : Db → RequeueArgs → Db × Code
conditional_requeue db a =
    let h = task_at db a.task in
    let dropped = lrem_first db a.inflight a.item in
    if not (holds h.claim.token a.token)
    then (dropped, minus_three)
    else if not (release_allowed (fence_of h.claim.recovery_state) a.release)
    then (db, minus_four)
    else if is_missing h.status
    then (clear_claim a.task dropped, zero_code)
    else if is_terminal h.status
    then (clear_claim a.task dropped, minus_one)
    else if not (workflow_task_allowed db a.task)
        || (marked db a.own_cancel || marked db a.parent_cancel)
    then (clear_claim a.task dropped, minus_two)
    else (put_back db a, one)
