-- ===== src/Manager/Claims.antt =====
-- The methods of `TaskManager` on one claim: _claim_gpu_task, _return_claim_to_source,
-- acknowledge_task_claim, freeze_task_claim, _mark_claim_processing and _mark_cpu_processing
-- (kernelgym/server/task_manager.py).
use kernel_gym.Prelude.{String, Bool, false, not, Option, none, some, if◌then◌else◌, string_eq}
use kernel_gym.Redis.Keys.{TaskKey, QueueKey, inflight_queue, cancel_key, entry}
use kernel_gym.Redis.{TaskJson}
use kernel_gym.Scripts.Dispatch.{
  ClaimArgs, claim_gpu_task, MarkArgs, mark_claim_processing, mark_cpu_processing,
}
use kernel_gym.Scripts.Release.{ReturnArgs, return_claim, AckArgs, ack_claim, freeze_claim}
use kernel_gym.Manager.State.{
  TaskClaim, Settings, Server, stale_claim, Reply, raises, returns, drop_claim, drop_claim_if,
  keep_claim, is_one, is_minus_two, parent_cancel_key,
}

-- The keys and ids that a claim of `_claim_gpu_task` names.
abbrev pub claim_args : Settings → String → String → QueueKey → String → ClaimArgs
claim_args c prefix worker source token = record {
  source = source;
  inflight = inflight_queue prefix worker;
  token = token;
  worker = worker;
  worker_instance = c.worker_instance_id;
  prefix = prefix;
}

abbrev pub new_claim : Settings → String → String → QueueKey → String → String → TaskClaim
new_claim c prefix worker source token id = record {
  prefix = prefix;
  inflight_queue = inflight_queue prefix worker;
  source_queue = source;
  token = token;
  item = entry token id;
  worker_instance = c.worker_instance_id;
}

unfoldable pub remember : Server → (String → TaskClaim) → Option String → Server
remember s claim none = s
remember s claim (some id) = keep_claim s id (claim id)

-- One claim of at most 32 pops; the local index learns the token.
unfoldable pub claim_for_worker :
    Settings → Server → String → String → QueueKey → String → Server × Option String
unfolding remember
claim_for_worker c s prefix worker source token =
    let (db, got) = claim_gpu_task 32 s.db (claim_args c prefix worker source token) in
    (remember (record s { db = db }) (new_claim c prefix worker source token) got, got)

abbrev pub claim_task : TaskClaim → String → TaskKey
claim_task claim id = record { prefix = claim.prefix; id = id }

abbrev pub return_args : TaskClaim → String → ReturnArgs
return_args claim id = record {
  source = claim.source_queue;
  inflight = claim.inflight_queue;
  task = claim_task claim id;
  id = id;
  item = claim.item;
  token = claim.token;
}

unfoldable pub return_with : Server → String → Option TaskClaim → Server × Reply (Unit {0})
return_with s id none = (s, raises stale_claim)
return_with s id (some claim) =
    let (db, code) = return_claim s.db (return_args claim id) in
    (drop_claim (record s { db = db }) id, if is_one code then returns tt else raises stale_claim)

unfoldable pub return_claim_to_source : Server → String → Server × Reply (Unit {0})
unfolding return_with
return_claim_to_source s id = return_with s id (s.claims id)

abbrev pub ack_args : TaskClaim → String → Bool → AckArgs
ack_args claim id release = record {
  task = claim_task claim id;
  inflight = claim.inflight_queue;
  item = claim.item;
  token = claim.token;
  release_fence = release;
}

unfoldable pub acknowledge_with : Server → String → Bool → Option TaskClaim → Server
acknowledge_with s id release none = s
acknowledge_with s id release (some claim) =
    let (db, code) = ack_claim s.db (ack_args claim id release) in
    drop_claim_if (not (is_minus_two code)) (record s { db = db }) id

unfoldable pub acknowledge_task_claim : Server → String → Bool → Server
unfolding acknowledge_with
acknowledge_task_claim s id release = acknowledge_with s id release (s.claims id)

unfoldable pub freeze_with : Server → String → String → String → Option TaskClaim → Server × Bool
freeze_with s id reason now none = (s, false)
freeze_with s id reason now (some claim) =
    let (db, code) = freeze_claim s.db (claim_task claim id) claim.token reason now in
    (drop_claim_if (not (is_one code)) (record s { db = db }) id, is_one code)

unfoldable pub freeze_task_claim : Server → String → String → String → Server × Bool
unfolding freeze_with
freeze_task_claim s id reason now = freeze_with s id reason now (s.claims id)

abbrev pub mark_args :
    TaskClaim → String → TaskJson → String → String → QueueKey → QueueKey → String → MarkArgs
mark_args claim id j prefix worker inflight source now = record {
  task = record { prefix = prefix; id = id };
  inflight = inflight;
  own_cancel = cancel_key prefix id;
  parent_cancel = parent_cancel_key prefix id j.base_task_id;
  item = claim.item;
  token = claim.token;
  started_at = now;
  worker = worker;
  worker_instance = claim.worker_instance;
  source = source;
}

unfoldable pub mark_with :
    Server
    → String
    → TaskJson
    → String
    → String
    → QueueKey
    → QueueKey
    → String
    → Option TaskClaim
    → Server × Reply Bool
mark_with s id j prefix worker inflight source now none = (s, raises stale_claim)
mark_with s id j prefix worker inflight source now (some claim) =
    let (db, code) =
      mark_claim_processing s.db (mark_args claim id j prefix worker inflight source now) in
    (drop_claim_if (not (is_one code)) (record s { db = db }) id, returns (is_one code))

unfoldable pub mark_task_processing :
    Server
    → String
    → TaskJson
    → String
    → String
    → QueueKey
    → QueueKey
    → String
    → Server × Reply Bool
unfolding mark_with
mark_task_processing s id j prefix worker inflight source now =
    mark_with s id j prefix worker inflight source now (s.claims id)

unfoldable pub mark_cpu_task : Server → String → String → TaskJson → String → Server × Bool
mark_cpu_task s prefix id j now =
    let (db, code) =
      mark_cpu_processing s.db (record { prefix = prefix; id = id }) (cancel_key prefix id)
        (parent_cancel_key prefix id j.base_task_id) now in
    (record s { db = db }, is_one code)
