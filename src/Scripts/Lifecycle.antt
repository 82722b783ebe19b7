-- ===== src/Scripts/Lifecycle.antt =====
-- The scripts of a workflow's parent (kernelgym/server/workflow_lifecycle.py): _ACCEPT, _RENEW,
-- _FINISH and DISCARD_WORKFLOW_RECORDS_LUA.
use kernel_gym.Prelude.{
  ℕ, ◌+◌, ◌*◌, String, Bool, false, not, ◌&&◌, ◌||◌, Option, none, some, List, [], ◌∷◌,
  if◌then◌else◌, ◌==◌, leb, ltb, or_else, is_some, is_blank, holds, update, string_eq,
}
use kernel_gym.Redis.Keys.{
  TaskKey, Stage, MarkerKey, SetKey, task_key_Eq, marker_key_Eq, set_key_Eq,
}
use kernel_gym.Redis.{
  Db, TaskHash, Flow, Payload, Lease, Status, pending, processing, failed, timeout, blank_task,
  no_flow, no_parent, no_stamps, task_at, task_exists, is_active, is_terminal, is_pending,
  is_unfenced, hset_task, hset_result, del_task, del_result, del_marker, del_lease, set_marker,
  marked, lease_owner, sadd, srem, expire_task, expire_result, expire_marker, expire_set,
}
use kernel_gym.Scripts.Guard.{workflow_allowed, parent_cancelled}
use kernel_gym.Scripts.Code.{Code, minus_two, minus_one, zero_code, one}
use kernel_gym.Scripts.Cancel.{unqueue, drop_entry, fail_hash, failure_payload}

-- The keys of a workflow, in the order of `WorkflowLifecycle.keys`.
pub record FlowKeys : Type 0 where
  pub task : TaskKey
  pub result : TaskKey
  pub lease : TaskKey
  pub cancel : MarkerKey
  pub active : SetKey

pub record AcceptArgs : Type 0 where
  pub keys : FlowKeys
  pub tombstone : MarkerKey
  pub id : String
  pub generation : String
  pub request_hash : String
  pub workflow : String
  pub timeout : ℕ
  pub lease_ms : ℕ
  pub force : Bool
  pub submitted_at : String
  pub children : List (Stage × String)

abbrev same_request : Db → AcceptArgs → Bool
same_request db a = holds (task_at db a.keys.task).parent.request_hash a.request_hash

-- What an existing task hash says to the request: a code, or nothing where it may be replaced.
unfoldable pub existing_code : Db → AcceptArgs → Option Code
existing_code db a =
    let h = task_at db a.keys.task in
    if is_active h.status
    then (if not (is_some h.flow.generation) || not (same_request db a)
        then some minus_one
        else some zero_code)
    else if not (is_terminal h.status)
    then some minus_one
    else if not (is_blank h.claim.token)
    then some minus_one
    else if a.force
    then none
    else if same_request db a && is_some (db.results a.keys.result)
    then some zero_code
    else some minus_one

unfoldable pub new_parent : Db → AcceptArgs → TaskHash
new_parent db a = record blank_task {
  status = some pending;
  flow = record no_flow { generation = some a.generation; deadline = some (db.clock + a.timeout) };
  parent = record no_parent {
    task_id = some a.id;
    request_hash = some a.request_hash;
    workflow = some a.workflow;
    children = some a.children;
    cancellation_key = some a.tombstone;
  };
  stamps = record no_stamps { submitted_at = some a.submitted_at };
}

unfoldable pub start_workflow : Db → AcceptArgs → Db
start_workflow db a =
    let d1 = del_result (del_task db a.keys.task) a.keys.result in
    let d2 = del_marker (del_lease d1 a.keys.lease) a.keys.cancel in
    let d3 = record d2 { tasks = update d2.tasks a.keys.task (some (new_parent db a)) } in
    let d4 = record d3 {
      leases =
          update d3.leases a.keys.lease
            (some (record { owner = a.generation; expires_at = db.clock + a.lease_ms * 1000 }));
    } in
    sadd d4 a.keys.active a.id

abbrev start_or : Option Code → Db → AcceptArgs → Db × Code
start_or (some c) db a = (db, c)
start_or none db a = (start_workflow db a, one)

unfoldable pub accept : Db → AcceptArgs → Db × Code
unfolding existing_code start_workflow
accept db a =
    if marked db a.tombstone
    then (db, minus_two)
    else if not (task_exists db a.keys.task)
    then (if is_some (lease_owner db a.keys.lease)
        then (db, minus_one)
        else (start_workflow db a, one))
    else start_or (existing_code db a) db a

pub record RenewArgs : Type 0 where
  pub task : TaskKey
  pub lease : TaskKey
  pub generation : String
  pub lease_ms : ℕ
  pub now : String

abbrev pub renew_flow : Db → RenewArgs → Flow
renew_flow db a = record {
  cancellation_keys = none;
  generation = some a.generation;
  parent_key = some a.task;
  lease_key = some a.lease;
  deadline = (task_at db a.task).flow.deadline;
  children_key = none;
}

abbrev set_if_missing : Option String → String → Option String
set_if_missing none v = some v
set_if_missing (some old) v = some old

-- PEXPIRE: the lease that is there gets another time; a lease that is over or missing stays as it is.
abbrev until : ℕ → ℕ → Option Lease → Option Lease
until now t none = none
until now t (some l) = if ltb now l.expires_at then some (record l { expires_at = t }) else some l

abbrev pub extend_lease : Db → TaskKey → ℕ → Db
extend_lease db k t = record db { leases = update db.leases k (until db.clock t (db.leases k)) }

unfoldable pub renew : Db → RenewArgs → Db × Code
renew db a =
    if not (workflow_allowed db (renew_flow db a))
    then (db, zero_code)
    else if not (holds (task_at db a.task).flow.generation a.generation)
    then (db, zero_code)
    else (
      hset_task (extend_lease db a.lease (db.clock + a.lease_ms * 1000)) a.task (λ h. record h {
        status = some processing;
        parent = record (h.parent) { heartbeat_at = some a.now };
        stamps = record (h.stamps) { started_at = set_if_missing h.stamps.started_at a.now };
      }),
      one,
    )

pub record FinishArgs : Type 0 where
  pub keys : FlowKeys
  pub children : SetKey
  pub generation : String
  pub result : Payload
  pub now : String
  pub task_ttl : ℕ
  pub result_ttl : ℕ
  pub id : String
  pub reason : String
  pub prefix : String

abbrev is_past_deadline : Db → FinishArgs → Bool
is_past_deadline db a = leb (or_else (task_at db a.keys.task).flow.deadline 0) db.clock

abbrev with_status : Payload → Status → String → Payload
with_status r s code = record r { status = s; error_code = some code }

-- The reason and the result after the three checks of the script.
unfoldable pub judge : Db → FinishArgs → String × Payload
judge db a =
    let cancelled = parent_cancelled db (task_at db a.keys.task).parent in
    let reason = if cancelled then "Task cancelled" else a.reason in
    let result = if cancelled then with_status a.result failed "SYSTEM_ERROR" else a.result in
    if is_past_deadline db a
    then ("Workflow end-to-end deadline exceeded", with_status result timeout "TIMEOUT_ERROR")
    else if not (holds (lease_owner db a.keys.lease) a.generation) && reason == ""
    then ("Workflow owner lease expired", with_status result failed "SYSTEM_ERROR")
    else (reason, result)

abbrev explain : String → Payload → Payload
explain reason r =
    if reason == ""
    then r
    else record r { error_message = some reason; compiled = false; correctness = false }

unfoldable pub final_result : Db → FinishArgs → Payload
unfolding judge
final_result db a =
    let (reason, result) = judge db a in
    record (explain reason result) {
      task_id = a.id;
      workflow_generation = some a.generation;
      workflow_children = or_else (task_at db a.keys.task).parent.children [];
    }

unfoldable pub finish_parent : Db → FinishArgs → Db
finish_parent db a =
    let r = final_result db a in
    let d1 = hset_task db a.keys.task λ h. record h {
      status = some r.status;
      stamps = record (h.stamps) { completed_at = some a.now };
      parent = record (h.parent) { error_message = some (or_else r.error_message "") };
    } in
    let d2 = hset_result d1 a.keys.result λ old. record old {
      result = some r;
      completed_at = some a.now;
      request_hash = (task_at db a.keys.task).parent.request_hash;
    } in
    srem (set_marker (del_lease d2 a.keys.lease) a.keys.cancel "1") a.keys.active a.id

abbrev pub child_key : FinishArgs → String → TaskKey
child_key a child = record { prefix = a.prefix; id = child }

-- A child that waits in a queue is failed; a child that runs or is fenced is left to its worker.
unfoldable pub stop_child : FinishArgs → String → Db → Db
unfolding unqueue drop_entry
stop_child a child db =
    let key = child_key a child in
    let unqueued = unqueue a.prefix child (task_at db key).assigned_worker db in
    let h = task_at unqueued key in
    if is_pending h.status && is_unfenced h.claim.recovery_state
    then (let written =
          hset_result (hset_task (drop_entry h.claim child unqueued) key (fail_hash a.now)) key
            λ old. record old {
              result = some (failure_payload child "Parent workflow ended");
              completed_at = some a.now;
            } in
        expire_result a.result_ttl key (expire_task a.task_ttl key written))
    else unqueued

unfoldable pub stop_children : FinishArgs → List String → Db → Db
stop_children a [] db = db
stop_children a (child ∷ rest) db = stop_children a rest (stop_child a child db)

unfoldable pub finish : Db → FinishArgs → Db × Code
finish db a =
    let h = task_at db a.keys.task in
    if not (holds h.flow.generation a.generation)
    then (db, zero_code)
    else if not (is_active h.status)
    then (db, zero_code)
    else let stopped = stop_children a (db.sets a.children) (finish_parent db a) in
      let expired =
        expire_set a.task_ttl a.children
          (expire_marker a.task_ttl a.keys.cancel (expire_task a.task_ttl a.keys.task stopped)) in
      (expire_result a.result_ttl a.keys.result expired, one)

-- DEL of every key that the caller names: the hashes, the marker, the lease and, for a parent, the
-- set of its children. The number of keys deleted is not kept, only that it is not zero.
pub record DiscardArgs : Type 0 where
  pub keys : FlowKeys
  pub children : Option SetKey
  pub generation : String

abbrev without {ℓ} : {V : Type ℓ} → Option SetKey → (SetKey → V) → V → SetKey → V
without none m v = m
without (some k) m v = update m k v

abbrev del_set : Option SetKey → Db → Db
del_set k db = record db { sets = without k db.sets []; set_expiry = without k db.set_expiry none }

unfoldable pub discard_records : Db → DiscardArgs → Db × Code
discard_records db a =
    let h = task_at db a.keys.task in
    if not (holds h.flow.generation a.generation)
    then (db, zero_code)
    else if not (is_terminal h.status)
    then (db, zero_code)
    else if not (is_blank h.claim.token)
    then (db, zero_code)
    else (
      del_set a.children (
          del_lease (del_marker (del_result (del_task db a.keys.task) a.keys.result) a.keys.cancel)
            a.keys.lease),
      one,
    )
