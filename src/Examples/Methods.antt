-- ===== src/Examples/Methods.antt =====
-- The theorems on the methods of `TaskManager` at the runs of `Examples.Data`.
use kernel_gym.Prelude.{String, true, false, none, some, List, [], ◌∷◌, ◌≡◌, refl}
use kernel_gym.Redis.Keys.{waiting, entry, gpu, task_key_Eq}
use kernel_gym.Redis.{
  Db, TaskHash, Status, failed, timeout, completed, task_at, task_exists, blank_result, is_unfenced,
}
use kernel_gym.Scripts.Guard.{workflow_allowed}
use kernel_gym.Scripts.Requeue.{requeue}
use kernel_gym.Manager.State.{raises, returns, frozen_claim}
use kernel_gym.Manager.Claims.{acknowledge_task_claim, freeze_task_claim}
use kernel_gym.Manager.Finish.{complete_task, fail_task, finalize_task_records, FinishOrder, key_of}
use kernel_gym.Manager.Read.{StatusReply, get_task_status, get_task_result, finished}
use kernel_gym.Manager.Submit.{submit_task, submitted_mapping}
use kernel_gym.Manager.Wait.{decide_wait, Limits, missing, seconds}
use kernel_gym.Manager.Nodes.{
  WorkerInfo, Latch, clear, is_candidate, select_worker, is_fresh, max_age_of,
}
use kernel_gym.Promises.Ownership.{frozen_stays}
use kernel_gym.Promises.Results.{Visible, commit_is_complete, complete_then_read, fail_then_read}
use kernel_gym.Promises.Submission.{Plain, Waits, submit_then_read}
use kernel_gym.Promises.Selection.{Fit, select_worker-Fit}
use kernel_gym.Examples.Data.{
  key, json, waiting_hash, empty_db, running_db, frozen_db, settings, server_at, owner_at,
  local_claim, payload, raw_result, fail_request, request, monitor, worker, wanted,
}

ack_kept : (acknowledge_task_claim (owner_at running_db) "t1" false).claims "t1" ≡ some local_claim
unfolding acknowledge_task_claim kernel_gym.Scripts.Release.ack_claim
    kernel_gym.Redis.Keys.task_key_eq
ack_kept = refl

freezes : (freeze_task_claim (owner_at running_db) "t1" "leak" "n").1 ≡ true
unfolding freeze_task_claim kernel_gym.Scripts.Release.freeze_claim
    kernel_gym.Redis.Keys.task_key_eq
freezes = refl

frozen_stays_example :
    let s = (freeze_task_claim (owner_at running_db) "t1" "leak" "n").0 in
    (acknowledge_task_claim s "t1" false ≡ s)
    × (complete_task settings s "t1" raw_result none "c" ≡ (s, raises frozen_claim))
frozen_stays_example =
    frozen_stays settings (owner_at running_db) "t1" "leak" "n" raw_result none "c" freezes

abbrev order : FinishOrder
order = record {
  id = "t1";
  task_key = key;
  result_key = key;
  task_mapping = record {
    status = completed;
    completed_at = some "c";
    failed_at = none;
    timeout_at = none;
  };
  result_mapping = record blank_result { completed_at = some "c" };
  allow_control_plane_claim = false;
  allow_frozen_claim = false;
}

refuses :
    (finalize_task_records settings (owner_at frozen_db) order (some local_claim)).1
    ≡ raises frozen_claim
unfolding finalize_task_records kernel_gym.Scripts.Release.finalize_claim
    kernel_gym.Redis.Keys.task_key_eq
refuses = refl

commits :
    (finalize_task_records settings (owner_at running_db) order (some local_claim)).1 ≡ returns tt
unfolding finalize_task_records kernel_gym.Scripts.Release.finalize_claim
    kernel_gym.Redis.Keys.task_key_eq
commits = refl

commit_is_complete_example :
    Visible running_db
      (finalize_task_records settings (owner_at running_db) order (some local_claim)).0.db
      order
commit_is_complete_example =
    commit_is_complete settings (owner_at running_db) order (some local_claim) commits

completes : (complete_task settings (owner_at running_db) "t1" raw_result none "c").1 ≡ returns tt
unfolding complete_task kernel_gym.Scripts.Release.finalize_claim kernel_gym.Redis.Keys.task_key_eq
    kernel_gym.Manager.Finish.complete_order
completes = refl

complete_then_read_example :
    let db = (complete_task settings (owner_at running_db) "t1" raw_result none "c").0.db in
    ((reply : StatusReply) × (get_task_status settings db "t1" ≡ some reply)
      × (reply.status ≡ completed))
    × (get_task_result settings db "t1" none ≡ some (finished (some "c") payload))
unfolding kernel_gym.Manager.Finish.task_status_from_result_payload
complete_then_read_example =
    complete_then_read settings (owner_at running_db) "t1" raw_result none "c" refl refl completes

fails : (fail_task settings (owner_at running_db) "t1" fail_request "f").1 ≡ returns tt
unfolding fail_task kernel_gym.Scripts.Release.finalize_claim kernel_gym.Redis.Keys.task_key_eq
    kernel_gym.Manager.Finish.fail_order
fails = refl

fail_then_read_example :
    let db = (fail_task settings (owner_at running_db) "t1" fail_request "f").0.db in
    (reply : StatusReply) × (get_task_status settings db "t1" ≡ some reply)
    × (reply.status ≡ failed)
    × (reply.error_message ≡ some "boom")
unfolding kernel_gym.Manager.Finish.fail_order
fail_then_read_example =
    fail_then_read settings (owner_at running_db) "t1" fail_request "f" refl refl refl fails

abbrev names : List String
names = "kernelbench" ∷ []

plain : Plain names names request
plain = record { toolkit = refl; backend = refl; plain = refl }

admits : workflow_allowed empty_db (submitted_mapping settings request "n").flow ≡ true
unfolding workflow_allowed kernel_gym.Redis.any_marked submitted_mapping
    kernel_gym.Manager.Submit.tombstones_of
admits = refl

submit_then_read_example :
    let x = submit_task names names settings (server_at empty_db) request [] "n" in
    Waits settings request x.0 x.1
submit_then_read_example =
    submit_then_read names names settings (server_at empty_db) request [] "n" plain admits refl refl

decides : decide_wait monitor waiting_hash json ≡ some (requeue, "stale_assignment")
unfolding decide_wait
decides = refl

abbrev slow : Limits
slow = record {
  timeout = some (seconds 30);
  per_task_timeout = missing;
  queue_wait_timeout = some (seconds 90);
  queue_timeout = missing;
}

abbrev no_latch : WorkerInfo → Latch
no_latch i = clear

selects : select_worker 100 120 wanted no_latch (worker ∷ []) 7 ≡ some worker
unfolding select_worker kernel_gym.Manager.Nodes.pick
    kernel_gym.Manager.Nodes.resource_worker_candidates is_candidate
    kernel_gym.Manager.Nodes.gpu_worker_admission_open kernel_gym.Manager.Nodes.nth
selects = refl

passes : is_candidate 100 120 wanted worker clear ≡ true
unfolding is_candidate kernel_gym.Manager.Nodes.gpu_worker_admission_open
passes = refl

select_worker-Fit_example : Fit 100 120 wanted worker clear
select_worker-Fit_example = select_worker-Fit 100 120 wanted no_latch (worker ∷ []) 7 worker selects
