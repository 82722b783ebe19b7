-- ===== src/Workflow/Controller.antt =====
-- keys, children_key, accept, renew, finish, failure and run of `WorkflowLifecycle`
-- (kernelgym/server/workflow_lifecycle.py). How the controller's coroutine and its heartbeat end is an argument.
use Prim.Native.String.{◌++◌ as join}
use kernel_gym.Prelude.{ℕ, String, Bool, true, false, some, [], ◌∷◌}
use kernel_gym.Redis.Keys.{
  compile, kernel, ref, cancel_key, tombstone_key, children_key, active_key,
}
use kernel_gym.Redis.{Db, TaskHash, Payload, timeout, task_at}
use kernel_gym.Scripts.Code.{Code, minus_two, zero_code, one}
use kernel_gym.Scripts.Cancel.{failure_payload}
use kernel_gym.Scripts.Lifecycle.{
  FlowKeys, AcceptArgs, accept, RenewArgs, renew, FinishArgs, finish,
}
use kernel_gym.Manager.State.{Settings, is_one}
use kernel_gym.Manager.Read.{payload_status}

abbrev pub flow_keys : Settings → String → FlowKeys
flow_keys c id = record {
  task = record { prefix = c.key_prefix; id = id };
  result = record { prefix = c.key_prefix; id = id };
  lease = record { prefix = c.key_prefix; id = id };
  cancel = cancel_key c.key_prefix id;
  active = active_key c.key_prefix;
}

pub data Acceptance : Type 0 where
  cancelled_id conflict : Acceptance
  -- whether the workflow is new, and its record
  accepted : Bool → TaskHash → Acceptance

pub record FlowRequest : Type 0 where
  pub id : String
  pub request_hash : String
  pub name : String
  pub timeout : ℕ
  pub force : Bool

abbrev child_id : String → String → String → String
child_id id stage generation = join id (join "_" (join stage (join "_" generation)))

abbrev pub accept_args : Settings → FlowRequest → String → ℕ → String → AcceptArgs
accept_args c r generation lease_ms now = record {
  keys = flow_keys c r.id;
  tombstone = tombstone_key c.key_prefix r.id;
  id = r.id;
  generation = generation;
  request_hash = r.request_hash;
  workflow = r.name;
  timeout = r.timeout;
  lease_ms = lease_ms;
  force = r.force;
  submitted_at = now;
  children =
      (compile, child_id r.id "compile" generation)
      ∷ (kernel, child_id r.id "kernel" generation)
      ∷ (ref, child_id r.id "ref" generation)
      ∷ [];
}

abbrev pub acceptance : Code → TaskHash → Acceptance
acceptance minus_two h = cancelled_id
acceptance zero_code h = accepted false h
acceptance one h = accepted true h
acceptance _ h = conflict

-- `accept`, with the generation that `uuid4` gives.
unfoldable pub accept_workflow : Settings → Db → FlowRequest → String → ℕ → String → Db × Acceptance
accept_workflow c db r generation lease_ms now =
    let (after, code) = accept db (accept_args c r generation lease_ms now) in
    (after, acceptance code (task_at after (flow_keys c r.id).task))

abbrev pub renew_args : Settings → String → String → ℕ → String → RenewArgs
renew_args c id generation lease_ms now = record {
  task = (flow_keys c id).task;
  lease = (flow_keys c id).lease;
  generation = generation;
  lease_ms = lease_ms;
  now = now;
}

unfoldable pub renew_workflow : Settings → Db → String → String → ℕ → String → Db × Bool
renew_workflow c db id generation lease_ms now =
    let (after, code) = renew db (renew_args c id generation lease_ms now) in (after, is_one code)

abbrev pub finish_args : Settings → String → String → Payload → String → String → FinishArgs
finish_args c id generation result reason now = record {
  keys = flow_keys c id;
  children = children_key c.key_prefix id generation;
  generation = generation;
  result = result;
  now = now;
  task_ttl = c.terminal_task_ttl_sec;
  result_ttl = c.terminal_result_ttl_sec;
  id = id;
  reason = reason;
  prefix = c.key_prefix;
}

unfoldable pub finish_workflow :
    Settings → Db → String → String → Payload → String → String → Db × Bool
finish_workflow c db id generation result reason now =
    let (after, code) = finish db (finish_args c id generation result reason now) in
    (after, is_one code)

-- How the race of the controller, its heartbeat and the deadline ends: `past_deadline` is any TimeoutError.
pub data Race : Type 0 where
  completes : Payload → Race
  lease_lost past_deadline shut_down : Race
  -- an exception of the operation, with its type and text
  crashes : String → Race

abbrev pub lease_text : String
lease_text =
    "Workflow controller failed: WorkflowStoppedError: Workflow lease/deadline is no longer valid"

abbrev failure : String → String → Payload
failure id reason = failure_payload id reason

-- The result and the reason with which the controller calls `finish`.
unfoldable pub race_result : String → Race → Payload × String
race_result id (completes p) = (record p { task_id = id; status = payload_status p }, "")
race_result id lease_lost = (failure id lease_text, lease_text)
race_result id past_deadline = (
  record (failure id "Workflow end-to-end deadline exceeded") {
    status = timeout;
    error_code = some "TIMEOUT_ERROR";
  },
  "Workflow end-to-end deadline exceeded",
)
race_result id shut_down = (
  failure id "Workflow controller cancelled during shutdown",
  "Workflow controller cancelled during shutdown",
)
race_result id (crashes text) =
    let reason = join "Workflow controller failed: " text in (failure id reason, reason)

-- The end of `run`: the result is offered, whatever the race gave.
unfoldable pub run_workflow : Settings → Db → String → String → Race → String → Db × Bool
run_workflow c db id generation race now =
    let (result, reason) = race_result id race in
    finish_workflow c db id generation result reason now
