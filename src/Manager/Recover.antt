-- ===== src/Manager/Recover.antt =====
-- `_recover_gpu_inflight` of `TaskManager` (kernelgym/server/task_manager.py): what a fresh process
-- does with each entry of the inflight list that an earlier process has left.
use kernel_gym.Prelude.{
  ℕ, zero, suc, String, Bool, true, false, not, ◌&&◌, Option, none, some, List, [], ◌∷◌,
  if◌then◌else◌, ◌==◌, or_else, text_of, ltb,
}
use kernel_gym.Redis.Keys.{
  gpu, QueueKey, no_queue, resource_queue, inflight_queue, Item, waiting, entry, task_key_Eq,
  queue_key_Eq,
}
use kernel_gym.Redis.{TaskJson, TaskHash, task_at, task_exists, is_unfenced, hset_task, lrem_first}
use kernel_gym.Manager.State.{
  TaskClaim, Settings, Server, Reply, raises, returns, keep_claim, drop_claim,
  resolve_required_resource,
}
use kernel_gym.Manager.Claims.{acknowledge_task_claim}
use kernel_gym.Manager.Requeue.{RequeueOrder, requeue_unstarted_task}
use kernel_gym.Manager.Finish.{FailOrder, fail_task, key_of}
use kernel_gym.Manager.Read.{dropped_before_dispatch, dequeued_task_cancelled}

pub record Scan : Type 0 where
  pub prefix : String
  pub worker : String
  pub release_frozen_claims : Bool
  pub now : String

abbrev pub recovery_order : Bool → RequeueOrder
recovery_order release = record {
  reason = "worker_process_recovered_inflight_claim";
  restore_claim_source = true;
  release_frozen_claim = release;
  release_execution_fence = false;
}

abbrev pub cancel_order : Scan → FailOrder
cancel_order p = record {
  error_message = "Task cancelled";
  error_code = "SYSTEM_ERROR";
  prefix = some p.prefix;
  adopt_current_claim = false;
  allow_frozen = p.release_frozen_claims;
}

abbrev default_source : String → Option TaskJson → QueueKey
default_source prefix none = resource_queue prefix gpu
default_source prefix (some j) = resource_queue prefix (resolve_required_resource j)

abbrev source_of : String → TaskHash → QueueKey → QueueKey
source_of prefix h no_queue = default_source prefix h.json
source_of prefix h q = q

-- The claim that the hash describes.
abbrev pub found_claim : Scan → TaskHash → String → String → TaskClaim
found_claim p h token id = record {
  prefix = p.prefix;
  inflight_queue = inflight_queue p.prefix p.worker;
  source_queue = source_of p.prefix h (or_else h.claim.source_queue no_queue);
  token = token;
  item = entry token id;
  worker_instance = text_of h.claim.worker_instance;
}

-- A cancelled attempt is failed; where another actor owns the task by now, it is left to that one.
unfoldable pub close_cancelled : Scan → String → Server × Reply (Unit {0}) → Server
close_cancelled p id (s, raises e) = drop_claim s id
close_cancelled p id (s, returns u) = record s {
  db =
      hset_task s.db (key_of p.prefix id)
        λ h. record h { stamps = record (h.stamps) { cancelled_at = some p.now } };
}

-- What happens to an attempt that the process has adopted.
unfoldable pub settle : Settings → Server → Scan → String → Option TaskJson → Server
unfolding close_cancelled
settle c s p id none = acknowledge_task_claim s id p.release_frozen_claims
settle c s p id (some j) =
    if dropped_before_dispatch (s.db.tasks (key_of p.prefix id))
    then acknowledge_task_claim s id p.release_frozen_claims
    else if dequeued_task_cancelled s.db p.prefix id j.base_task_id
    then close_cancelled p id (fail_task c s id (cancel_order p) p.now)
    else (requeue_unstarted_task s j (recovery_order p.release_frozen_claims) p.now).0

abbrev forget : Server → Scan → String → String → Server
forget s p token id = record s {
  db = lrem_first s.db (inflight_queue p.prefix p.worker) (entry token id);
}

unfoldable pub recover_entry : Settings → Server → Scan → String → String → Server
unfolding settle
recover_entry c s p token id =
    let key = key_of p.prefix id in
    let h = task_at s.db key in
    if token == ""
    then s
    else if id == ""
    then s
    else if not (task_exists s.db key)
    then forget s p token id
    else if not (text_of h.claim.token == token)
    then forget s p token id
    else if not (is_unfenced h.claim.recovery_state) && not p.release_frozen_claims
    then s
    else if not (c.worker_instance_id == "")
        && text_of h.claim.worker_instance == c.worker_instance_id
    then s
    else settle c (keep_claim s id (found_claim p h token id)) p id h.json

-- The entries are those of one LRANGE; a bare id is kept for review.
unfoldable pub recover_entries : Settings → Server → Scan → List Item → Server
recover_entries c s p [] = s
recover_entries c s p (waiting x ∷ rest) = recover_entries c s p rest
recover_entries c s p (entry token id ∷ rest) =
    recover_entries c (recover_entry c s p token id) p rest

unfoldable pub first_entries : ℕ → List Item → List Item
first_entries zero l = []
first_entries (suc n) [] = []
first_entries (suc n) (x ∷ l) = x ∷ first_entries n l

unfoldable pub recover_gpu_inflight : Settings → Server → Scan → ℕ → Server
recover_gpu_inflight c s p scan_limit = recover_entries c s p (
    first_entries (if ltb 1 scan_limit then scan_limit else 1)
      (s.db.queues (inflight_queue p.prefix p.worker)))
