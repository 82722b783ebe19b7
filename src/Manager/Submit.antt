-- ===== src/Manager/Submit.antt =====
-- How `TaskManager` submits a task: submit_task, _submit_task_if_absent and _force_refresh_task
-- (kernelgym/server/task_manager.py). The names of the registered toolkits and backends are what
-- `list_toolkits` and `list_backends` return.
use kernel_gym.Prelude.{
  String, Bool, true, false, not, ◌||◌, some, List, [], ◌∷◌, ◌++◌, if◌then◌else◌, ◌==◌, update,
  string_eq,
}
use kernel_gym.Redis.Keys.{
  QueueKey, queue_key_eq, resource_queue, worker_queue, cpu, gpu, MarkerKey, tombstone_key,
}
use kernel_gym.Redis.{pending, Priority, TaskJson, TaskHash, Flow, blank_task, no_stamps}
use kernel_gym.Scripts.Code.{Code, minus_five, zero_code, one, two}
use kernel_gym.Scripts.Submit.{submit_task_if_absent, RefreshArgs, force_refresh_task}
use kernel_gym.Manager.State.{
  Settings, Server, workflow_stopped, refresh_conflict, value_error, Reply, raises, returns, is_one,
  resolve_required_resource, resource_text,
}

-- A request: the names that are looked up, the task's JSON and the workflow fields that it has.
pub record Request : Type 0 where
  pub toolkit : String
  pub backend_adapter : String
  pub priority : Priority
  pub json : TaskJson
  pub flow : Flow

abbrev pub is_listed : String → List String → Bool
is_listed name [] = false
is_listed name (x ∷ xs) = name == x || is_listed name xs

abbrev pub tombstone_if : String → String → List MarkerKey
tombstone_if prefix id = if id == "" then [] else tombstone_key prefix id ∷ []

unfoldable pub tombstones_of : Settings → TaskJson → List MarkerKey
tombstones_of c j =
    tombstone_key c.key_prefix j.task_id
    ∷ (tombstone_if c.key_prefix j.base_task_id
        ++ tombstone_if c.key_prefix j.workflow_source_task_id)

unfoldable pub submitted_mapping : Settings → Request → String → TaskHash
submitted_mapping c r now = record blank_task {
  json =
      some
        (record (r.json) { required_resource = resource_text (resolve_required_resource r.json) });
  status = some pending;
  priority = some r.priority;
  assigned_worker = some r.json.assigned_worker;
  flow = record (r.flow) { cancellation_keys = some (tombstones_of c r.json) };
  stamps = record no_stamps {
    submitted_at = some now;
    assigned_at = some (if r.json.assigned_worker == "" then "" else now);
  };
}

unfoldable pub destination_queue : Settings → TaskJson → QueueKey
destination_queue c j =
    if j.assigned_worker == ""
    then resource_queue c.key_prefix (resolve_required_resource j)
    else worker_queue c.key_prefix j.assigned_worker

abbrev pub is_minus_five : Code → Bool
is_minus_five minus_five = true
is_minus_five _ = false

abbrev pub is_negative : Code → Bool
is_negative zero_code = false
is_negative one = false
is_negative two = false
is_negative _ = true

abbrev pub is_queued : QueueKey → List QueueKey → Bool
is_queued q [] = false
is_queued q (x ∷ xs) = queue_key_eq q x || is_queued q xs

-- `dict.fromkeys`: each queue once, at its first place.
unfoldable pub distinct : List QueueKey → List QueueKey → List QueueKey
distinct seen [] = []
distinct seen (q ∷ qs) = if is_queued q seen then distinct seen qs else q ∷ distinct (q ∷ seen) qs

abbrev pub refresh_args : Settings → String → TaskHash → QueueKey → List QueueKey → RefreshArgs
refresh_args c id mapping destination worker_queues = record {
  task = record { prefix = c.key_prefix; id = id };
  result = record { prefix = c.key_prefix; id = id };
  destination = destination;
  cleanup = distinct [] (
      destination
      ∷ resource_queue c.key_prefix cpu
      ∷ resource_queue c.key_prefix gpu
      ∷ worker_queues);
  id = id;
  mapping = mapping;
  prefix = c.key_prefix;
}

-- The errors by which the two submitting scripts refuse.
unfoldable pub submit_reply : Code → Reply Bool
submit_reply code = if is_minus_five code then raises workflow_stopped else returns (is_one code)

unfoldable pub refresh_reply : Code → Reply Bool
refresh_reply code =
    if not (is_negative code)
    then returns true
    else if is_minus_five code
    then raises workflow_stopped
    else raises refresh_conflict

-- The id is returned, also where the task was there; only a new or a replaced task is put on the
-- local record.
abbrev pub note_submitted : Server → String → Reply Bool → Server × Reply String
note_submitted s id (raises e) = (s, raises e)
note_submitted s id (returns true) =
    (record s { active_tasks = update s.active_tasks id (some pending) }, returns id)
note_submitted s id (returns false) = (s, returns id)

-- The last part of `submit_task`, by `force_refresh`. `worker_queues` are the values of the process's
-- map of queues, the destination among them.
unfoldable pub submit_by :
    Bool → Settings → Server → Request → List QueueKey → String → Server × Reply String
submit_by true c s r worker_queues now =
    let (db, code) = force_refresh_task s.db (
      refresh_args c r.json.task_id (submitted_mapping c r now) (destination_queue c r.json)
        worker_queues) in
    note_submitted (record s { db = db }) r.json.task_id (refresh_reply code)
submit_by false c s r worker_queues now =
    let (db, code) =
      submit_task_if_absent s.db (record { prefix = c.key_prefix; id = r.json.task_id })
        (destination_queue c r.json) r.json.task_id (submitted_mapping c r now) in
    note_submitted (record s { db = db }) r.json.task_id (submit_reply code)

unfoldable pub submit_task :
    List String
    → List String
    → Settings
    → Server
    → Request
    → List QueueKey
    → String
    → Server × Reply String
submit_task toolkits backends c s r worker_queues now =
    if not (is_listed r.toolkit toolkits)
    then (s, raises value_error)
    else if not (is_listed r.backend_adapter backends)
    then (s, raises value_error)
    else submit_by r.json.force_refresh c s r worker_queues now
