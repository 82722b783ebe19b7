-- ===== src/Redis.antt =====
-- The Redis database as the server's scripts see it: task and result hashes with a field for each
-- name that the code reads or writes, lists, markers, leases and sets (kernelgym/server/
-- task_manager.py and kernelgym/server/workflow_lifecycle.py). One script runs at a time, so a
-- script is a function of the database. Times are counted in microseconds.
pub mod Keys
use kernel_gym.Prelude.{
  ℕ, ◌+◌, ◌*◌, String, Bool, true, false, ◌||◌, Option, none, some, List, [], ◌∷◌, ltb,
  if◌then◌else◌, or_else, is_some, update, lrem_all, lrem_one, string_eq,
}
use kernel_gym.Redis.Keys.{
  TaskKey, QueueKey, no_queue, Stage, MarkerKey, SetKey, Item, task_key_Eq, queue_key_Eq,
  marker_key_Eq, set_key_Eq, item_Eq,
}

-- `TaskStatus` of kernelgym/common.py.
pub data Status : Type 0 where
  pending processing completed failed timeout : Status

abbrev pub is_pending : Option Status → Bool
is_pending (some pending) = true
is_pending _ = false

abbrev pub is_active : Option Status → Bool
is_active (some pending) = true
is_active (some processing) = true
is_active _ = false

abbrev pub is_terminal : Option Status → Bool
is_terminal (some completed) = true
is_terminal (some failed) = true
is_terminal (some timeout) = true
is_terminal _ = false

-- The values of `claim_recovery_state`; `unfenced` is the empty text.
pub data Fence : Type 0 where
  unfenced execution_fenced frozen : Fence

abbrev pub fence_of : Option Fence → Fence
fence_of o = or_else o unfenced

abbrev pub is_unfenced : Option Fence → Bool
is_unfenced (some execution_fenced) = false
is_unfenced (some frozen) = false
is_unfenced _ = true

abbrev pub is_frozen : Option Fence → Bool
is_frozen (some frozen) = true
is_frozen _ = false

-- `Priority` of kernelgym/common.py.
pub data Priority : Type 0 where
  low normal high : Priority

-- What the server reads of the task's JSON; the rest is carried as one text.
pub record TaskJson : Type 0 where
  pub task_id : String
  pub base_task_id : String
  pub workflow_source_task_id : String
  pub required_resource : String
  pub task_stage : String
  pub pure_compile_task : Bool
  pub assigned_worker : String
  pub force_refresh : Bool
  pub queue_timeout_reason : String
  pub queue_timeout_at : String
  pub rest : String

-- The `claim_…` fields of a task hash.
pub record Claim : Type 0 where
  pub token : Option String
  pub worker : Option String
  pub worker_instance : Option String
  pub source_queue : Option QueueKey
  pub inflight_queue : Option QueueKey
  pub recovery_state : Option Fence
  pub recovery_reason : Option String
  pub recovery_at : Option String

-- The fields that tie a task to its workflow.
pub record Flow : Type 0 where
  pub cancellation_keys : Option (List MarkerKey)
  pub generation : Option String
  pub parent_key : Option TaskKey
  pub lease_key : Option TaskKey
  pub deadline : Option ℕ
  pub children_key : Option SetKey

-- The fields that only a workflow's parent has.
pub record Parent : Type 0 where
  pub task_id : Option String
  pub request_hash : Option String
  pub workflow : Option String
  pub children : Option (List (Stage × String))
  pub cancellation_key : Option MarkerKey
  pub heartbeat_at : Option String
  pub error_message : Option String

pub record Stamps : Type 0 where
  pub submitted_at : Option String
  pub assigned_at : Option String
  pub started_at : Option String
  pub completed_at : Option String
  pub failed_at : Option String
  pub timeout_at : Option String
  pub cancelled_at : Option String
  pub updated_at : Option String
  pub queue_timeout_reason : Option String
  pub queue_timeout_at : Option String
  pub queue_move_token : Option String

pub record TaskHash : Type 0 where
  pub json : Option TaskJson
  pub status : Option Status
  pub priority : Option Priority
  pub assigned_worker : Option String
  pub claim : Claim
  pub flow : Flow
  pub parent : Parent
  pub stamps : Stamps

abbrev pub no_claim : Claim
no_claim = record {
  token = none;
  worker = none;
  worker_instance = none;
  source_queue = none;
  inflight_queue = none;
  recovery_state = none;
  recovery_reason = none;
  recovery_at = none;
}

-- What every script writes to release a claim: the eight fields set to the empty text.
abbrev pub cleared_claim : Claim
cleared_claim = record {
  token = some "";
  worker = some "";
  worker_instance = some "";
  source_queue = some no_queue;
  inflight_queue = some no_queue;
  recovery_state = some unfenced;
  recovery_reason = some "";
  recovery_at = some "";
}

abbrev pub no_flow : Flow
no_flow = record {
  cancellation_keys = none;
  generation = none;
  parent_key = none;
  lease_key = none;
  deadline = none;
  children_key = none;
}

abbrev pub no_parent : Parent
no_parent = record {
  task_id = none;
  request_hash = none;
  workflow = none;
  children = none;
  cancellation_key = none;
  heartbeat_at = none;
  error_message = none;
}

abbrev pub no_stamps : Stamps
no_stamps = record {
  submitted_at = none;
  assigned_at = none;
  started_at = none;
  completed_at = none;
  failed_at = none;
  timeout_at = none;
  cancelled_at = none;
  updated_at = none;
  queue_timeout_reason = none;
  queue_timeout_at = none;
  queue_move_token = none;
}

-- A hash with no field, from which HSET on a missing key starts.
abbrev pub blank_task : TaskHash
blank_task = record {
  json = none;
  status = none;
  priority = none;
  assigned_worker = none;
  claim = no_claim;
  flow = no_flow;
  parent = no_parent;
  stamps = no_stamps;
}

-- The JSON of a result, as far as the scripts read or write it.
pub record Payload : Type 0 where
  pub task_id : String
  pub status : Status
  pub error_message : Option String
  pub error_code : Option String
  pub compiled : Bool
  pub correctness : Bool
  pub workflow_generation : Option String
  pub workflow_children : List (Stage × String)
  pub rest : String

pub record ResultHash : Type 0 where
  pub result : Option Payload
  pub error : Option String
  pub error_code : Option String
  pub request_hash : Option String
  pub completed_at : Option String
  pub failed_at : Option String
  pub timeout_at : Option String

abbrev pub blank_result : ResultHash
blank_result = record {
  result = none;
  error = none;
  error_code = none;
  request_hash = none;
  completed_at = none;
  failed_at = none;
  timeout_at = none;
}

pub record Lease : Type 0 where
  pub owner : String
  pub expires_at : ℕ

pub record Db : Type 0 where
  pub tasks : TaskKey → Option TaskHash
  pub results : TaskKey → Option ResultHash
  pub queues : QueueKey → List Item
  pub markers : MarkerKey → Option String
  pub leases : TaskKey → Option Lease
  pub sets : SetKey → List String
  pub task_expiry : TaskKey → Option ℕ
  pub result_expiry : TaskKey → Option ℕ
  pub marker_expiry : MarkerKey → Option ℕ
  pub set_expiry : SetKey → Option ℕ
  pub clock : ℕ

-- The hash that the HGETs of a script read: a missing key has no field.
abbrev pub task_at : Db → TaskKey → TaskHash
task_at db k = or_else (db.tasks k) blank_task

abbrev pub task_exists : Db → TaskKey → Bool
task_exists db k = is_some (db.tasks k)

-- HSET: `f` sets the fields that it names.
abbrev pub hset_task : Db → TaskKey → (TaskHash → TaskHash) → Db
hset_task db k f = record db { tasks = update db.tasks k (some (f (task_at db k))) }

abbrev pub hset_result : Db → TaskKey → (ResultHash → ResultHash) → Db
hset_result db k f = record db {
  results = update db.results k (some (f (or_else (db.results k) blank_result)));
}

abbrev pub del_task : Db → TaskKey → Db
del_task db k = record db {
  tasks = update db.tasks k none;
  task_expiry = update db.task_expiry k none;
}

abbrev pub del_result : Db → TaskKey → Db
del_result db k = record db {
  results = update db.results k none;
  result_expiry = update db.result_expiry k none;
}

abbrev pub lpush : Db → QueueKey → Item → Db
lpush db q x = record db { queues = update db.queues q (x ∷ db.queues q) }

abbrev pub set_queue : Db → QueueKey → List Item → Db
set_queue db q l = record db { queues = update db.queues q l }

-- LREM with count 0, and with count 1.
abbrev pub lrem_each : Db → QueueKey → Item → Db
lrem_each db q x = set_queue db q (lrem_all x (db.queues q))

abbrev pub lrem_first : Db → QueueKey → Item → Db
lrem_first db q x = set_queue db q (lrem_one x (db.queues q))

-- The same where `on` holds, and nothing else.
abbrev pub lrem_each_if : Bool → Db → QueueKey → Item → Db
lrem_each_if on db q x = set_queue db q (if on then lrem_all x (db.queues q) else db.queues q)

abbrev pub lrem_first_if : Bool → Db → QueueKey → Item → Db
lrem_first_if on db q x = set_queue db q (if on then lrem_one x (db.queues q) else db.queues q)

abbrev pub marked : Db → MarkerKey → Bool
marked db k = is_some (db.markers k)

abbrev pub set_marker : Db → MarkerKey → String → Db
set_marker db k v = record db {
  markers = update db.markers k (some v);
  marker_expiry = update db.marker_expiry k none;
}

abbrev pub del_marker : Db → MarkerKey → Db
del_marker db k = record db {
  markers = update db.markers k none;
  marker_expiry = update db.marker_expiry k none;
}

abbrev pub del_lease : Db → TaskKey → Db
del_lease db k = record db { leases = update db.leases k none }

unfoldable pub any_marked : (MarkerKey → Option String) → List MarkerKey → Bool
any_marked markers [] = false
any_marked markers (k ∷ ks) = is_some (markers k) || any_marked markers ks

-- GET of a lease: its owner until the PX time is over.
abbrev live_owner : ℕ → Option Lease → Option String
live_owner now none = none
live_owner now (some l) = if ltb now l.expires_at then some l.owner else none

unfoldable pub lease_owner : Db → TaskKey → Option String
lease_owner db k = live_owner db.clock (db.leases k)

-- SADD, SREM.
abbrev pub sadd : Db → SetKey → String → Db
sadd db k v = record db { sets = update db.sets k (v ∷ lrem_all v (db.sets k)) }

abbrev pub srem : Db → SetKey → String → Db
srem db k v = record db { sets = update db.sets k (lrem_all v (db.sets k)) }

-- EXPIRE in seconds, left out where the setting is 0.
abbrev pub expire_task : ℕ → TaskKey → Db → Db
expire_task ttl k db = record db {
  task_expiry =
      if ltb 0 ttl
      then update db.task_expiry k (some (db.clock + ttl * 1000000))
      else db.task_expiry;
}

abbrev pub expire_result : ℕ → TaskKey → Db → Db
expire_result ttl k db = record db {
  result_expiry =
      if ltb 0 ttl
      then update db.result_expiry k (some (db.clock + ttl * 1000000))
      else db.result_expiry;
}

abbrev pub expire_marker : ℕ → MarkerKey → Db → Db
expire_marker ttl k db = record db {
  marker_expiry =
      if ltb 0 ttl
      then update db.marker_expiry k (some (db.clock + ttl * 1000000))
      else db.marker_expiry;
}

abbrev pub expire_set : ℕ → SetKey → Db → Db
expire_set ttl k db = record db {
  set_expiry =
      if ltb 0 ttl then update db.set_expiry k (some (db.clock + ttl * 1000000)) else db.set_expiry;
}
