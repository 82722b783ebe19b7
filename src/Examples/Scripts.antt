-- ===== src/Examples/Scripts.antt =====
-- The theorems on the scripts at the runs of `Examples.Data`, and tests of the scripts.
use kernel_gym.Prelude.{
  ℕ, ◌<◌, ◌≤◌, String, Bool, true, false, not, ◌&&◌, Option, none, some, List, [], ◌∷◌, ◌≡◌, ◌≢◌,
  ◌↔◌, ◌⊎◌, inl, inr, refl, arith, is_blank, count, or_else, holds,
}
use kernel_gym.Redis.Keys.{task_key_Eq, queue_key_Eq, marker_key_Eq, waiting, entry, tombstone_key}
use kernel_gym.Redis.{
  Db, TaskHash, pending, processing, completed, failed, task_at, set_queue, task_exists,
  is_terminal, is_pending, is_unfenced, is_frozen,
}
use kernel_gym.Scripts.Code.{one, two, zero_code}
use kernel_gym.Scripts.Guard.{workflow_allowed}
use kernel_gym.Scripts.Dispatch.{claim_gpu_task, claimable, take_claim, mark_claim_processing}
use kernel_gym.Scripts.Release.{ack_claim, finalize_claim}
use kernel_gym.Scripts.Requeue.{
  queue_wait_requeue, conditional_requeue, remove_stale_copy, release_none,
}
use kernel_gym.Scripts.Submit.{submit_task_if_absent, force_refresh_task}
use kernel_gym.Scripts.Cancel.{cancel_task}
use kernel_gym.Scripts.Lifecycle.{finish}
use kernel_gym.Scripts.Schedule.{
  Call, claim_call, ack_call, cancel_call, tick, run, run_all, submit_call,
}
use kernel_gym.Safety.Running.{Running, Same}
use kernel_gym.Safety.Running.Theorem.{Untouched, run_all-Running}
use kernel_gym.Safety.Stale.{OnlyQueues, own_entry, stale_call}
use kernel_gym.Safety.Attempt.{MayStart, mark_gate, Finished, finalize_commits}
use kernel_gym.Safety.Cancelled.Theorem.{Stopped, cancel_is_final}
use kernel_gym.Safety.Ended.Theorem.{finish_is_final, finish_once}
use kernel_gym.Admission.Claiming.{claim_first, claim_owned, Claimed}
use kernel_gym.Admission.Submitting.{submit_idempotent}
use kernel_gym.Admission.Requeueing.{PutBack, requeue_moves}
use kernel_gym.Examples.Data.{
  key, gpu_queue, w_queue, waiting_hash, empty_db, waiting_db, direct_db, claimed_db, running_db,
  done_db, claim_request, mark_request, ack_request, requeue_request, wait_request,
  finalize_request, refresh_request, cancel_request, child_flow, flow_db, finish_request,
}

-- Another worker claims, an old attempt acknowledges, the task is cancelled, and time passes.
abbrev events : List Call
events =
    claim_call 32 claim_request ∷ ack_call ack_request ∷ cancel_call cancel_request ∷ tick 5 ∷ []

runs : Running running_db key "tok"
unfolding kernel_gym.Redis.Keys.task_key_eq
runs = record { status = refl; token = refl; fenced = refl; real = refl; lasting = refl }

untouched : Untouched key "tok" events
unfolding kernel_gym.Redis.Keys.task_key_eq
untouched = (refl, (refl, (refl, (refl, tt))))

run_all-Running_example :
    Running (run_all running_db events) key "tok" × Same key running_db (run_all running_db events)
run_all-Running_example = run_all-Running running_db key "tok" events runs untouched

-- After the cancellation the same task is submitted again and claimed.
abbrev later : List Call
later = submit_call key gpu_queue "t1" waiting_hash ∷ claim_call 32 claim_request ∷ tick 5 ∷ []

cancel_is_final_example : Stopped (run_all (cancel_task waiting_db cancel_request) later) child_flow
unfolding kernel_gym.Prelude.contains kernel_gym.Redis.Keys.marker_key_eq
cancel_is_final_example =
    cancel_is_final waiting_db cancel_request later child_flow (refl, (refl, (refl, tt))) refl

finishes : (finish flow_db finish_request).1 ≡ one
unfolding finish kernel_gym.Redis.Keys.task_key_eq
finishes = refl

finish_is_final_example : Stopped (run_all (finish flow_db finish_request).0 later) child_flow
unfolding kernel_gym.Redis.Keys.task_key_eq
finish_is_final_example =
    finish_is_final flow_db finish_request later child_flow finishes refl (refl, (refl, (refl, tt)))
      refl refl refl

finish_once_example :
    finish (finish flow_db finish_request).0 finish_request
    ≡ ((finish flow_db finish_request).0, zero_code)
finish_once_example = finish_once flow_db finish_request finish_request finishes refl refl refl

mark_gate_example :
    ((mark_claim_processing claimed_db mark_request).1 ≡ one) ↔ MayStart claimed_db mark_request
mark_gate_example = mark_gate claimed_db mark_request

marks : (mark_claim_processing claimed_db mark_request).1 ≡ one
unfolding mark_claim_processing kernel_gym.Redis.Keys.task_key_eq
    kernel_gym.Scripts.Guard.workflow_task_allowed kernel_gym.Redis.any_marked
marks = refl

stale_call_example :
    OnlyQueues (own_entry (ack_call ack_request)) running_db (run running_db (ack_call ack_request))
unfolding kernel_gym.Redis.Keys.task_key_eq
stale_call_example = stale_call running_db (ack_call ack_request) refl refl

finalizes : (finalize_claim running_db finalize_request).1 ≡ one
unfolding finalize_claim kernel_gym.Redis.Keys.task_key_eq
finalizes = refl

finalize_commits_example :
    (holds (task_at running_db finalize_request.task).claim.token finalize_request.token ≡ true)
    × (((is_frozen (task_at running_db finalize_request.task).claim.recovery_state
            && not finalize_request.allow_frozen)
          ≡ false)
        × Finished running_db (finalize_claim running_db finalize_request).0 finalize_request)
finalize_commits_example = finalize_commits running_db finalize_request finalizes

hands_out : (claim_gpu_task 32 waiting_db claim_request).1 ≡ some "t1"
unfolding claim_gpu_task kernel_gym.Prelude.rpop kernel_gym.Redis.Keys.queue_key_eq
    kernel_gym.Redis.Keys.task_key_eq kernel_gym.Scripts.Guard.workflow_task_allowed
    kernel_gym.Redis.any_marked
hands_out = refl

claim_owned_example :
    Claimed waiting_db (claim_gpu_task 32 waiting_db claim_request).0 claim_request "t1"
claim_owned_example = claim_owned 32 waiting_db claim_request "t1" hands_out

-- One id of no task lies in front of the task.
abbrev littered_db : Db
littered_db = record waiting_db { queues = λ q. waiting "t1" ∷ waiting "gone" ∷ [] }

claim_first_example :
    claim_gpu_task 32 littered_db claim_request
    ≡ (take_claim (set_queue littered_db gpu_queue []) claim_request (waiting "t1"), some "t1")
unfolding claimable kernel_gym.Redis.Keys.task_key_eq kernel_gym.Scripts.Guard.workflow_task_allowed
    kernel_gym.Redis.any_marked
claim_first_example =
    claim_first 32 littered_db claim_request [] (waiting "gone" ∷ []) (waiting "t1") refl (refl, tt)
      refl (omega arith)

creates : (submit_task_if_absent empty_db key gpu_queue "t1" waiting_hash).1 ≡ one
unfolding submit_task_if_absent workflow_allowed kernel_gym.Redis.any_marked
creates = refl

submit_idempotent_example :
    let db = (submit_task_if_absent empty_db key gpu_queue "t1" waiting_hash).0 in
    ((submit_task_if_absent db key w_queue "t1" waiting_hash).0 ≡ db)
    × ((submit_task_if_absent db key w_queue "t1" waiting_hash).1 ≢ one)
submit_idempotent_example =
    submit_idempotent empty_db key gpu_queue w_queue "t1" waiting_hash waiting_hash creates

refreshes : (force_refresh_task done_db refresh_request).1 ≡ two
unfolding force_refresh_task workflow_allowed kernel_gym.Redis.any_marked
    kernel_gym.Redis.Keys.task_key_eq
refreshes = refl

moves : (queue_wait_requeue direct_db wait_request).1 ≡ one
unfolding queue_wait_requeue kernel_gym.Scripts.Requeue.snapshot_code
    kernel_gym.Redis.Keys.task_key_eq kernel_gym.Scripts.Requeue.same_json
    kernel_gym.Scripts.Requeue.requeue_waiting kernel_gym.Scripts.Guard.workflow_task_allowed
    kernel_gym.Redis.any_marked kernel_gym.Prelude.contains kernel_gym.Redis.Keys.queue_key_eq
    kernel_gym.Redis.Keys.item_eq
moves = refl

requeues : (conditional_requeue claimed_db requeue_request).1 ≡ one
unfolding conditional_requeue kernel_gym.Redis.Keys.task_key_eq
    kernel_gym.Scripts.Requeue.release_allowed kernel_gym.Scripts.Guard.workflow_task_allowed
    kernel_gym.Redis.any_marked
requeues = refl

requeue_moves_example :
    PutBack claimed_db (conditional_requeue claimed_db requeue_request).0 requeue_request
requeue_moves_example = requeue_moves claimed_db requeue_request requeues

-- A task is submitted, claimed, started and finished; its entry has left the inflight list.
ends_completed :
    (task_at (finalize_claim running_db finalize_request).0 key).status ≡ some completed
unfolding finalize_claim kernel_gym.Scripts.Release.set_terminal kernel_gym.Redis.Keys.task_key_eq
ends_completed = refl
