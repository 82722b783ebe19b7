-- ===== src/Examples/Data.antt =====
-- The databases, the tasks and the arguments of the runs.
use kernel_gym.Prelude.{true, false, none, some, List, [], ◌∷◌, update, string_eq}
use kernel_gym.Redis.Keys.{
  TaskKey, QueueKey, resource_queue, worker_queue, inflight_queue, cpu, gpu, cancel_key,
  tombstone_key, children_key, active_key, Item, waiting, entry, task_key_Eq, queue_key_Eq,
}
use kernel_gym.Redis.{
  Db, TaskHash, TaskJson, Claim, Flow, Payload, pending, processing, completed, normal, blank_task,
  no_flow, frozen, execution_fenced, unfenced, blank_result,
}
use kernel_gym.Scripts.Dispatch.{ClaimArgs, MarkArgs}
use kernel_gym.Scripts.Release.{AckArgs, FinalizeArgs}
use kernel_gym.Scripts.Requeue.{WaitArgs, requeue, RequeueArgs, release_none}
use kernel_gym.Scripts.Submit.{RefreshArgs}
use kernel_gym.Scripts.Cancel.{CancelArgs}
use kernel_gym.Scripts.Lifecycle.{FlowKeys, AcceptArgs, FinishArgs}
use kernel_gym.Manager.State.{TaskClaim, Settings, Server}
use kernel_gym.Manager.Finish.{RawResult, FailOrder}
use kernel_gym.Manager.Submit.{Request}
use kernel_gym.Manager.Recover.{Scan}
use kernel_gym.Manager.Dispatch.{Pull}
use kernel_gym.Manager.Nodes.{WorkerInfo, Wanted}
use kernel_gym.Manager.Wait.{Monitor, Limits, missing}

abbrev pub key : TaskKey
key = record { prefix = "kg"; id = "t1" }

abbrev pub gpu_queue : QueueKey
gpu_queue = resource_queue "kg" gpu

abbrev pub w_queue : QueueKey
w_queue = worker_queue "kg" "w1"

abbrev pub inflight : QueueKey
inflight = inflight_queue "kg" "w1"

abbrev pub json : TaskJson
json = record {
  task_id = "t1";
  base_task_id = "";
  workflow_source_task_id = "";
  required_resource = "gpu";
  task_stage = "";
  pure_compile_task = false;
  assigned_worker = "";
  force_refresh = false;
  queue_timeout_reason = "";
  queue_timeout_at = "";
  rest = "{}";
}

abbrev pub waiting_hash : TaskHash
waiting_hash = record blank_task {
  json = some json;
  status = some pending;
  assigned_worker = some "";
}

abbrev pub claim : Claim
claim = record {
  token = some "tok";
  worker = some "w1";
  worker_instance = some "i1";
  source_queue = some gpu_queue;
  inflight_queue = some inflight;
  recovery_state = some unfenced;
  recovery_reason = some "";
  recovery_at = some "";
}

abbrev pub claimed_hash : TaskHash
claimed_hash = record waiting_hash { claim = claim }

abbrev pub running_hash : TaskHash
running_hash = record waiting_hash {
  status = some processing;
  claim = record claim { recovery_state = some execution_fenced };
}

abbrev pub frozen_hash : TaskHash
frozen_hash = record waiting_hash {
  status = some processing;
  claim = record claim { recovery_state = some frozen };
}

abbrev pub done_hash : TaskHash
done_hash = record blank_task { json = some json; status = some completed }

abbrev pub empty_db : Db
empty_db = record {
  tasks = λ k. none;
  results = λ k. none;
  queues = λ q. [];
  markers = λ m. none;
  leases = λ k. none;
  sets = λ k. [];
  task_expiry = λ k. none;
  result_expiry = λ k. none;
  marker_expiry = λ m. none;
  set_expiry = λ k. none;
  clock = 100;
}

abbrev pub with_task : TaskHash → QueueKey → List Item → Db
with_task h q l = record empty_db {
  tasks = update empty_db.tasks key (some h);
  queues = update empty_db.queues q l;
}

abbrev pub waiting_db : Db
waiting_db = with_task waiting_hash gpu_queue (waiting "t1" ∷ [])

-- The copy of the task in the queue of a worker.
abbrev pub direct_db : Db
direct_db = with_task waiting_hash w_queue (waiting "t1" ∷ [])

abbrev pub claimed_db : Db
claimed_db = with_task claimed_hash inflight (entry "tok" "t1" ∷ [])

abbrev pub running_db : Db
running_db = with_task running_hash inflight (entry "tok" "t1" ∷ [])

abbrev pub frozen_db : Db
frozen_db = with_task frozen_hash inflight (entry "tok" "t1" ∷ [])

abbrev pub done_db : Db
done_db = with_task done_hash gpu_queue []

abbrev pub claim_request : ClaimArgs
claim_request = record {
  source = gpu_queue;
  inflight = inflight;
  token = "tok";
  worker = "w1";
  worker_instance = "i1";
  prefix = "kg";
}

abbrev pub mark_request : MarkArgs
mark_request = record {
  task = key;
  inflight = inflight;
  own_cancel = cancel_key "kg" "t1";
  parent_cancel = cancel_key "kg" "t1";
  item = entry "tok" "t1";
  token = "tok";
  started_at = "s";
  worker = "w1";
  worker_instance = "i1";
  source = gpu_queue;
}

abbrev pub ack_request : AckArgs
ack_request = record {
  task = key;
  inflight = inflight;
  item = entry "old" "t1";
  token = "old";
  release_fence = false;
}

abbrev pub requeue_request : RequeueArgs
requeue_request = record {
  task = key;
  destination = gpu_queue;
  inflight = inflight;
  own_cancel = cancel_key "kg" "t1";
  parent_cancel = cancel_key "kg" "t1";
  id = "t1";
  item = entry "tok" "t1";
  token = "tok";
  new_json = json;
  reason = "r";
  now = "n";
  assigned_worker = "";
  assigned_at = "";
  release = release_none;
}

abbrev pub wait_request : WaitArgs
wait_request = record {
  task = key;
  worker_queue = w_queue;
  resource_queue = gpu_queue;
  own_cancel = cancel_key "kg" "t1";
  parent_cancel = cancel_key "kg" "t1";
  id = "t1";
  worker = "w1";
  operation = requeue;
  assigned_worker = "";
  assigned_at = "";
  submitted_at = "";
  json = some json;
  new_json = json;
  reason = "stale_assignment";
  now = "n";
  move_token = "m";
}

abbrev pub finalize_request : FinalizeArgs
finalize_request = record {
  task = key;
  result = key;
  inflight = inflight;
  token = "tok";
  item = entry "tok" "t1";
  task_mapping = record {
    status = completed;
    completed_at = some "c";
    failed_at = none;
    timeout_at = none;
  };
  result_mapping = record blank_result { completed_at = some "c" };
  task_ttl = 0;
  result_ttl = 0;
  allow_frozen = false;
}

abbrev pub refresh_request : RefreshArgs
refresh_request = record {
  task = key;
  result = key;
  destination = gpu_queue;
  cleanup = gpu_queue ∷ resource_queue "kg" cpu ∷ [];
  id = "t1";
  mapping = waiting_hash;
  prefix = "kg";
}

abbrev pub cancel_request : CancelArgs
cancel_request = record {
  task = key;
  result = key;
  tombstone = tombstone_key "kg" "t1";
  cancel = cancel_key "kg" "t1";
  id = "t1";
  now = "n";
  prefix = "kg";
  task_ttl = 60;
  result_ttl = 60;
}

-- A workflow's parent and one child.
abbrev pub parent_key : TaskKey
parent_key = record { prefix = "kg"; id = "p1" }

abbrev pub flow_keys : FlowKeys
flow_keys = record {
  task = parent_key;
  result = parent_key;
  lease = parent_key;
  cancel = cancel_key "kg" "p1";
  active = active_key "kg";
}

abbrev pub child_flow : Flow
child_flow = record no_flow {
  cancellation_keys = some (tombstone_key "kg" "t1" ∷ []);
  generation = some "g1";
  parent_key = some parent_key;
  lease_key = some parent_key;
  deadline = some 900;
}

abbrev pub accept_request : AcceptArgs
accept_request = record {
  keys = flow_keys;
  tombstone = tombstone_key "kg" "p1";
  id = "p1";
  generation = "g1";
  request_hash = "h";
  workflow = "evaluate";
  timeout = 800;
  lease_ms = 1;
  force = false;
  submitted_at = "s";
  children = [];
}

abbrev pub payload : Payload
payload = record {
  task_id = "t1";
  status = completed;
  error_message = none;
  error_code = none;
  compiled = true;
  correctness = true;
  workflow_generation = none;
  workflow_children = [];
  rest = "";
}

abbrev pub parent_hash : TaskHash
parent_hash = record blank_task {
  status = some processing;
  flow = record no_flow { generation = some "g1"; deadline = some 900 };
}

abbrev pub flow_db : Db
flow_db = record empty_db {
  tasks = update (update empty_db.tasks parent_key (some parent_hash)) key (some waiting_hash);
  leases = update empty_db.leases parent_key (some (record { owner = "g1"; expires_at = 500 }));
  sets = λ k. "t1" ∷ [];
}

abbrev pub finish_request : FinishArgs
finish_request = record {
  keys = flow_keys;
  children = children_key "kg" "p1" "g1";
  generation = "g1";
  result = payload;
  now = "n";
  task_ttl = 60;
  result_ttl = 60;
  id = "p1";
  reason = "";
  prefix = "kg";
}

abbrev pub settings : Settings
settings = record {
  key_prefix = "kg";
  legacy_prefix = "";
  worker_instance_id = "i1";
  terminal_task_ttl_sec = 60;
  terminal_result_ttl_sec = 60;
  default_timeout = 300;
}

abbrev pub local_claim : TaskClaim
local_claim = record {
  prefix = "kg";
  inflight_queue = inflight;
  source_queue = gpu_queue;
  token = "tok";
  item = entry "tok" "t1";
  worker_instance = "i1";
}

abbrev pub server_at : Db → Server
server_at db = record { db = db; claims = λ id. none; active_tasks = λ id. none }

abbrev pub owner_at : Db → Server
owner_at db = record (server_at db) { claims = update (λ id. none) "t1" (some local_claim) }

abbrev pub raw_result : RawResult
raw_result = record { raw_status = "completed"; raw_error_code = ""; body = payload }

abbrev pub fail_request : FailOrder
fail_request = record {
  error_message = "boom";
  error_code = "RUNTIME_ERROR";
  prefix = none;
  adopt_current_claim = false;
  allow_frozen = false;
}

abbrev pub request : Request
request = record {
  toolkit = "kernelbench";
  backend_adapter = "kernelbench";
  priority = normal;
  json = json;
  flow = no_flow;
}

abbrev pub scan : Scan
scan = record { prefix = "kg"; worker = "w1"; release_frozen_claims = false; now = "n" }

abbrev pub pull : Pull
pull = record {
  prefix = "kg";
  worker = "w1";
  is_gpu_worker = true;
  scan_limit = 2;
  token = λ n. "tok";
  now = λ n. "n";
  admission_open = λ n. true;
  matches_node = λ j. true;
}

abbrev pub monitor : Monitor
monitor = record {
  prefix = "kg";
  worker = "w1";
  default_timeout = 300;
  timeout_sec = 60;
  time_of = λ t. none;
  limits_of = λ j. no_limits;
  now = 100;
  now_text = "n";
}
  where
    no_limits : Limits
    no_limits = record {
      timeout = none;
      per_task_timeout = missing;
      queue_wait_timeout = none;
      queue_timeout = missing;
    }

abbrev pub worker : WorkerInfo
worker = record {
  worker_id = "w1";
  device = "cuda:0";
  node_id = "n1";
  hostname = "h1";
  status = "online";
  online = "true";
  accepting_tasks = "true";
  health_state = "healthy";
  current_task = "";
  last_heartbeat = some 90;
}

abbrev pub wanted : Wanted
wanted = record {
  resource = gpu;
  idle_only = true;
  target_node_id = "";
  target_hostname = "";
  max_heartbeat_age_s = 30;
}
