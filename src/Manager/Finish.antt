-- ===== src/Manager/Finish.antt =====
-- How `TaskManager` ends a task: task_status_from_result_payload of kernelgym/utils/task_status.py,
-- and _finalize_task_records, complete_task and fail_task of kernelgym/server/task_manager.py.
use kernel_gym.Prelude.{
  String, Bool, true, false, not, ◌&&◌, Option, none, some, if◌then◌else◌, ◌==◌, or_else, is_blank,
  is_some, text_of, update, string_eq,
}
use kernel_gym.Redis.Keys.{TaskKey, QueueKey, no_queue, entry, task_key_Eq}
use kernel_gym.Redis.{
  Db, Status, completed, failed, timeout, Payload, ResultHash, task_at, hset_task, hset_result,
  expire_task, expire_result, blank_result,
}
use kernel_gym.Scripts.Release.{
  TerminalMapping, FinalizeArgs, set_terminal, set_result, finalize_claim,
}
use kernel_gym.Manager.State.{
  TaskClaim, Settings, Server, stale_claim, frozen_claim, Reply, raises, returns, drop_claim,
  is_one, is_minus_two,
}

-- `task_status_from_result_payload`, on the status in lower case and the error code in upper case.
unfoldable pub task_status_from_result_payload : String → String → Status
task_status_from_result_payload raw_status error_code =
    if raw_status == "timeout"
    then timeout
    else if error_code == "TIMEOUT_ERROR"
    then timeout
    else if raw_status == "failed"
    then failed
    else completed

pub record FinishOrder : Type 0 where
  pub id : String
  pub task_key : TaskKey
  pub result_key : TaskKey
  pub task_mapping : TerminalMapping
  pub result_mapping : ResultHash
  pub allow_control_plane_claim : Bool
  pub allow_frozen_claim : Bool

abbrev is_no_queue : QueueKey → Bool
is_no_queue no_queue = true
is_no_queue _ = false

-- The claim that the control plane takes over where the process has none of its own.
unfoldable pub adopt_claim : Db → FinishOrder → Reply (Option TaskClaim)
adopt_claim db o =
    let h = task_at db o.task_key in
    let inflight = or_else h.claim.inflight_queue no_queue in
    if not (is_blank h.flow.generation) && not (is_some h.flow.parent_key)
    then raises stale_claim
    else if is_blank h.claim.token
    then returns none
    else if not o.allow_control_plane_claim
    then raises stale_claim
    else if is_no_queue inflight
    then raises stale_claim
    else returns (
        some (record {
          prefix = o.task_key.prefix;
          inflight_queue = inflight;
          source_queue = or_else h.claim.source_queue no_queue;
          token = text_of h.claim.token;
          item = entry (text_of h.claim.token) o.id;
          worker_instance = text_of h.claim.worker_instance;
        }))

abbrev pub finalize_args : Settings → FinishOrder → TaskClaim → FinalizeArgs
finalize_args c o claim = record {
  task = o.task_key;
  result = o.result_key;
  inflight = claim.inflight_queue;
  token = claim.token;
  item = claim.item;
  task_mapping = o.task_mapping;
  result_mapping = o.result_mapping;
  task_ttl = c.terminal_task_ttl_sec;
  result_ttl = c.terminal_result_ttl_sec;
  allow_frozen = o.allow_frozen_claim;
}

-- The transaction for a task that no claim owns.
unfoldable pub publish : Settings → FinishOrder → Db → Db
publish c o db = expire_result c.terminal_result_ttl_sec o.result_key (
    expire_task c.terminal_task_ttl_sec o.task_key (
      hset_result (hset_task db o.task_key (set_terminal o.task_mapping)) o.result_key
        (set_result o.result_mapping)))

unfoldable pub commit :
    Settings → Server → FinishOrder → Option TaskClaim → Server × Reply (Unit {0})
commit c s o none = (drop_claim (record s { db = publish c o s.db }) o.id, returns tt)
commit c s o (some claim) =
    let (db, code) = finalize_claim s.db (finalize_args c o claim) in
    if is_minus_two code
    then (record s { db = db }, raises frozen_claim)
    else if not (is_one code)
    then (record s { db = db }, raises stale_claim)
    else (drop_claim (record s { db = db }) o.id, returns tt)

abbrev pub commit_adopted :
    Settings → Server → FinishOrder → Reply (Option TaskClaim) → Server × Reply (Unit {0})
commit_adopted c s o (raises e) = (s, raises e)
commit_adopted c s o (returns claim) = commit c s o claim

unfoldable pub finalize_task_records :
    Settings → Server → FinishOrder → Option TaskClaim → Server × Reply (Unit {0})
unfolding commit
finalize_task_records c s o none = commit_adopted c s o (adopt_claim s.db o)
finalize_task_records c s o (some claim) = commit c s o (some claim)

-- Where the commit returns, the local record of an active task gets the status.
abbrev note_active :
    (String → Option Status) → String → Status → Option Status → String → Option Status
note_active m id status none = m
note_active m id status (some _) = update m id (some status)

abbrev pub note_status : String → Status → Server × Reply (Unit {0}) → Server × Reply (Unit {0})
note_status id status (s, raises e) = (s, raises e)
note_status id status (s, returns u) = (
  record s { active_tasks = note_active s.active_tasks id status (s.active_tasks id) },
  returns u,
)

-- `{"failed_at": now}` or `{"timeout_at": now}` where the status asks for it.
abbrev stamp_if : Status → Status → String → Option String
stamp_if failed failed now = some now
stamp_if timeout timeout now = some now
stamp_if _ _ now = none

abbrev pub key_of : String → String → TaskKey
key_of prefix id = record { prefix = prefix; id = id }

abbrev pub prefix_of : Settings → Option TaskClaim → String
prefix_of c none = c.key_prefix
prefix_of c (some claim) = claim.prefix

abbrev set_hash : Option String → Option String
set_hash none = none
set_hash (some h) = if h == "" then none else some h

-- The result of a worker: its body, with the status and the code that it names.
pub record RawResult : Type 0 where
  pub raw_status : String
  pub raw_error_code : String
  pub body : Payload

abbrev pub result_status : RawResult → Status
result_status r = task_status_from_result_payload r.raw_status r.raw_error_code

unfoldable pub complete_order :
    Settings → String → RawResult → Option String → String → Option TaskClaim → FinishOrder
complete_order c id r request_hash now claim =
    let key = key_of (prefix_of c claim) id in
    record {
      id = id;
      task_key = key;
      result_key = key;
      task_mapping = record {
        status = result_status r;
        completed_at = some now;
        failed_at = stamp_if failed (result_status r) now;
        timeout_at = stamp_if timeout (result_status r) now;
      };
      result_mapping = record blank_result {
        result = some (record (r.body) { status = result_status r });
        completed_at = some now;
        request_hash = set_hash request_hash;
      };
      allow_control_plane_claim = false;
      allow_frozen_claim = false;
    }

unfoldable pub complete_task :
    Settings → Server → String → RawResult → Option String → String → Server × Reply (Unit {0})
unfolding finalize_task_records
complete_task c s id r request_hash now =
    note_status id (result_status r) (
      finalize_task_records c s (complete_order c id r request_hash now (s.claims id))
        (s.claims id))

pub record FailOrder : Type 0 where
  pub error_message : String
  pub error_code : String
  pub prefix : Option String
  pub adopt_current_claim : Bool
  pub allow_frozen : Bool

abbrev fail_prefix : Settings → Option String → Option TaskClaim → String
fail_prefix c none claim = prefix_of c claim
fail_prefix c (some p) claim = if p == "" then c.key_prefix else p

unfoldable pub fail_order : Settings → String → FailOrder → String → Option TaskClaim → FinishOrder
fail_order c id f now claim =
    let status = task_status_from_result_payload "failed" f.error_code in
    let key = key_of (fail_prefix c f.prefix claim) id in
    record {
      id = id;
      task_key = key;
      result_key = key;
      task_mapping = record {
        status = status;
        completed_at = none;
        failed_at = stamp_if failed status now;
        timeout_at = stamp_if timeout status now;
      };
      result_mapping = record blank_result {
        error = some f.error_message;
        error_code = some f.error_code;
        failed_at = stamp_if failed status now;
        timeout_at = stamp_if timeout status now;
      };
      allow_control_plane_claim = f.adopt_current_claim;
      allow_frozen_claim = f.allow_frozen;
    }

unfoldable pub fail_task :
    Settings → Server → String → FailOrder → String → Server × Reply (Unit {0})
unfolding finalize_task_records
fail_task c s id f now =
    note_status id (task_status_from_result_payload "failed" f.error_code)
      (finalize_task_records c s (fail_order c id f now (s.claims id)) (s.claims id))
