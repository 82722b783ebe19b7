-- ===== src/Promises/Waiting.antt =====
-- What the monitor of the workers' queues promises (kernelgym/server/task_manager.py).
use kernel_gym.Prelude.{
  ℕ, ◌-◌, ◌*◌, ◌≤◌, ◌<◌, String, true, Option, none, some, ◌≡◌, ◌≢◌, arith, or_else, eq_iff,
}
use kernel_gym.Redis.{TaskHash, TaskJson}
use kernel_gym.Scripts.Requeue.{Operation, requeue, remove_stale_copy}
use kernel_gym.Manager.Wait.{
  Limits, Monitor, get_queue_wait_timeout_sec, waiting_since, wait_limit, is_overdue, decide_wait,
}

-- A task never waits in a worker's queue for longer than the task itself may run, where that is limited.
pub wait_within_timeout :
    (l : Limits) (task_timeout default : ℕ)
    → 0 < task_timeout
    → get_queue_wait_timeout_sec l task_timeout default ≤ task_timeout
unfolding get_queue_wait_timeout_sec
wait_within_timeout l task_timeout default p = ground arith

-- Why the monitor may move or drop an id.
pub record Reasoned (m : Monitor) (h : TaskHash) (j : TaskJson) (op : Operation) : Type 0 where
  pub unassigned : or_else h.assigned_worker "" ≡ "" → op ≡ requeue
  pub elsewhere :
      or_else h.assigned_worker "" ≢ ""
      → or_else h.assigned_worker "" ≢ m.worker
      → op ≡ remove_stale_copy
  pub here :
      or_else h.assigned_worker "" ≢ ""
      → or_else h.assigned_worker "" ≡ m.worker
      → (op ≡ requeue) × (waiting_since m h ≢ none)
  pub overdue :
      (since : ℕ)
      → or_else h.assigned_worker "" ≢ ""
      → or_else h.assigned_worker "" ≡ m.worker
      → waiting_since m h ≡ some since
      → wait_limit m j * 1000000 < m.now - since

module _ (m : Monitor) (h : TaskHash) (j : TaskJson) (op : Operation) (reason : String)
    (d : decide_wait m h j ≡ some (op, reason)) where
  for_unassigned : or_else h.assigned_worker "" ≡ "" → op ≡ requeue
  unfolding decide_wait
  for_unassigned e = ground (arith, eq_iff (or_else h.assigned_worker "") "")

  for_elsewhere :
      or_else h.assigned_worker "" ≢ ""
      → or_else h.assigned_worker "" ≢ m.worker
      → op ≡ remove_stale_copy
  unfolding decide_wait
  for_elsewhere n w = ground (
    arith,
    eq_iff (or_else h.assigned_worker "") "",
    eq_iff (or_else h.assigned_worker "") m.worker,
  )

  late :
      or_else h.assigned_worker "" ≢ ""
      → or_else h.assigned_worker "" ≡ m.worker
      → (op ≡ requeue) × (is_overdue m (waiting_since m h) (wait_limit m j) ≡ true)
  unfolding decide_wait
  late n w = ground (
    arith,
    eq_iff (or_else h.assigned_worker "") "",
    eq_iff (or_else h.assigned_worker "") m.worker,
  )

overdue_since :
    (m : Monitor) (o : Option ℕ) (limit : ℕ)
    → is_overdue m o limit ≡ true
    → (o ≢ none) × ((since : ℕ) → o ≡ some since → limit * 1000000 < m.now - since)
unfolding is_overdue
overdue_since m none limit e = cc
overdue_since m (some t) limit e = (λ n. cc, λ since p. ground arith)

-- The monitor requeues an id where the task has no worker, and drops it where the task is another
-- worker's. It requeues the id of a task of this worker only where the time since which the task waits
-- is known and lies further back than the task's limit.
pub wait_reasons :
    (m : Monitor) (h : TaskHash) (j : TaskJson) (op : Operation) (reason : String)
    → decide_wait m h j ≡ some (op, reason)
    → Reasoned m h j op
wait_reasons m h j op reason d = record {
  unassigned = for_unassigned m h j op reason d;
  elsewhere = for_elsewhere m h j op reason d;
  here = λ n w.
      let (r, o) = late m h j op reason d n w in
      (r, (overdue_since m (waiting_since m h) (wait_limit m j) o).0);
  overdue = λ since n w e.
      (overdue_since m (waiting_since m h) (wait_limit m j) (late m h j op reason d n w).1).1 since
        e;
}
