-- ===== src/Scripts/Schedule.antt =====
-- The calls of the scripts, the passing of time and the removal of expired keys, and runs of such calls. Redis runs a
-- script whole, so a list of calls is an interleaving of any number of server and worker processes. The few writes
-- that the server makes outside its scripts are not among the calls.
use kernel_gym.Prelude.{
  ℕ, ◌+◌, String, List, [], ◌∷◌, none, if◌then◌else◌, leb, Option, some, update, Bool, false,
}
use kernel_gym.Redis.Keys.{TaskKey, QueueKey, MarkerKey, task_key_Eq, marker_key_Eq}
use kernel_gym.Redis.{Db, TaskHash}
use kernel_gym.Scripts.Dispatch.{
  ClaimArgs, MarkArgs, claim_gpu_task, mark_claim_processing, mark_cpu_processing,
}
use kernel_gym.Scripts.Release.{
  ReturnArgs, AckArgs, FinalizeArgs, return_claim, ack_claim, freeze_claim, finalize_claim,
}
use kernel_gym.Scripts.Requeue.{WaitArgs, RequeueArgs, queue_wait_requeue, conditional_requeue}
use kernel_gym.Scripts.Submit.{RefreshArgs, submit_task_if_absent, force_refresh_task}
use kernel_gym.Scripts.Cancel.{CancelArgs, cancel_task}
use kernel_gym.Scripts.Lifecycle.{
  AcceptArgs, RenewArgs, FinishArgs, DiscardArgs, accept, renew, finish, discard_records,
}

pub data Call : Type 0 where
  submit_call : TaskKey → QueueKey → String → TaskHash → Call
  refresh_call : RefreshArgs → Call
  claim_call : ℕ → ClaimArgs → Call
  mark_call : MarkArgs → Call
  mark_cpu_call : TaskKey → MarkerKey → MarkerKey → String → Call
  return_call : ReturnArgs → Call
  ack_call : AckArgs → Call
  freeze_call : TaskKey → String → String → String → Call
  finalize_call : FinalizeArgs → Call
  wait_call : WaitArgs → Call
  requeue_call : RequeueArgs → Call
  cancel_call : CancelArgs → Call
  accept_call : AcceptArgs → Call
  renew_call : RenewArgs → Call
  finish_call : FinishArgs → Call
  discard_call : DiscardArgs → Call
  -- time passes
  tick : ℕ → Call
  -- Redis removes a key whose EXPIRE time is over
  reap_task : TaskKey → Call
  reap_marker : MarkerKey → Call

abbrev pub is_due : ℕ → Option ℕ → Bool
is_due now none = false
is_due now (some t) = leb t now

unfoldable pub reap_task_key : Db → TaskKey → Db
reap_task_key db k =
    let due = is_due db.clock (db.task_expiry k) in
    record db {
      tasks = if due then update db.tasks k none else db.tasks;
      task_expiry = if due then update db.task_expiry k none else db.task_expiry;
    }

unfoldable pub reap_marker_key : Db → MarkerKey → Db
reap_marker_key db k =
    let due = is_due db.clock (db.marker_expiry k) in
    record db {
      markers = if due then update db.markers k none else db.markers;
      marker_expiry = if due then update db.marker_expiry k none else db.marker_expiry;
    }

unfoldable pub run : Db → Call → Db
run db (submit_call k q id h) = (submit_task_if_absent db k q id h).0
run db (refresh_call a) = (force_refresh_task db a).0
run db (claim_call n a) = (claim_gpu_task n db a).0
run db (mark_call a) = (mark_claim_processing db a).0
run db (mark_cpu_call k c p t) = (mark_cpu_processing db k c p t).0
run db (return_call a) = (return_claim db a).0
run db (ack_call a) = (ack_claim db a).0
run db (freeze_call k t r n) = (freeze_claim db k t r n).0
run db (finalize_call a) = (finalize_claim db a).0
run db (wait_call a) = (queue_wait_requeue db a).0
run db (requeue_call a) = (conditional_requeue db a).0
run db (cancel_call a) = cancel_task db a
run db (accept_call a) = (accept db a).0
run db (renew_call a) = (renew db a).0
run db (finish_call a) = (finish db a).0
run db (discard_call a) = (discard_records db a).0
run db (tick d) = record db { clock = db.clock + d }
run db (reap_task k) = reap_task_key db k
run db (reap_marker k) = reap_marker_key db k

unfoldable pub run_all : Db → List Call → Db
run_all db [] = db
run_all db (c ∷ cs) = run_all (run db c) cs
