-- ===== src/Safety/Running/Calls.antt =====
-- The calls of others, one lemma for each that has no loop.
use kernel_gym.Prelude.{String, arith}
use kernel_gym.Redis.Keys.{TaskKey, QueueKey, MarkerKey, task_key_eq_iff}
use kernel_gym.Redis.{Db, TaskHash}
use kernel_gym.Scripts.Dispatch.{mark_cpu_processing}
use kernel_gym.Scripts.Requeue.{WaitArgs, queue_wait_requeue, requeue_waiting, remove_copy}
use kernel_gym.Scripts.Submit.{RefreshArgs, submit_task_if_absent, force_refresh_task}
use kernel_gym.Scripts.Lifecycle.{
  AcceptArgs, RenewArgs, DiscardArgs, accept, renew, discard_records,
}
use kernel_gym.Scripts.Schedule.{
  reap_task_key, submit_call, refresh_call, mark_cpu_call, wait_call, accept_call, renew_call,
  discard_call, reap_task, run,
}
use kernel_gym.Safety.Running.{Running, Same}

module _ (db : Db) (k : TaskKey) (t : String) (r : Running db k t) where
  pub Same-submit :
      (j : TaskKey) (q : QueueKey) (id : String) (h : TaskHash)
      → Same k db (run db (submit_call j q id h))
  unfolding run submit_task_if_absent
  Same-submit j q id h = ground (arith, task_key_eq_iff j k)

  pub Same-refresh : (a : RefreshArgs) → Same k db (run db (refresh_call a))
  unfolding run force_refresh_task
  Same-refresh a = ground (arith, task_key_eq_iff a.task k)

  pub Same-mark_cpu :
      (j : TaskKey) (c p : MarkerKey) (s : String) → Same k db (run db (mark_cpu_call j c p s))
  unfolding run mark_cpu_processing
  Same-mark_cpu j c p s = ground (arith, task_key_eq_iff j k)

  pub Same-wait : (a : WaitArgs) → Same k db (run db (wait_call a))
  unfolding run queue_wait_requeue requeue_waiting remove_copy
  Same-wait a = ground (arith, task_key_eq_iff a.task k)

  pub Same-renew : (a : RenewArgs) → Same k db (run db (renew_call a))
  unfolding run renew
  Same-renew a = ground (arith, task_key_eq_iff a.task k)

  pub Same-accept : (a : AcceptArgs) → Same k db (run db (accept_call a))
  unfolding run accept
  Same-accept a = ground (arith, task_key_eq_iff a.keys.task k)

  pub Same-discard : (a : DiscardArgs) → Same k db (run db (discard_call a))
  unfolding run discard_records
  Same-discard a = ground (arith, task_key_eq_iff a.keys.task k)

  pub Same-reap_task : (j : TaskKey) → Same k db (run db (reap_task j))
  unfolding run reap_task_key
  Same-reap_task j = ground (arith, task_key_eq_iff j k, r.lasting)
