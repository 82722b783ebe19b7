-- ===== src/Admission/Requeueing.antt =====
-- What the requeueing scripts promise (_QUEUE_WAIT_REQUEUE_LUA, _CONDITIONAL_REQUEUE_LUA and
-- _RETURN_CLAIM_LUA of kernelgym/server/task_manager.py).
use kernel_gym.Prelude.{
  suc, ◌-◌, true, false, ◌||◌, none, some, ◌≡◌, ◌≢◌, ◌↔◌, refl, arith, ap, ◌∙◌, ◌==◌, or_else,
  count, count-cons_self, count-lrem_all_self, count-lrem_one_self, count-pos_contains, contains,
  beq_refl, is_blank, holds,
}
use kernel_gym.Redis.Keys.{queue_key_eq, waiting, item_Eq, queue_key_Eq, task_key_Eq}
use kernel_gym.Redis.{
  Db, pending, fence_of, task_at, is_pending, is_terminal, marked, cleared_claim,
}
use kernel_gym.Scripts.Guard.{workflow_task_allowed}
use kernel_gym.Scripts.Code.{one}
use kernel_gym.Scripts.Requeue.{
  WaitArgs, RequeueArgs, is_stale_copy, same_json, wait_again, restore_task, release_allowed,
  queue_wait_requeue, conditional_requeue, move_waiting, put_back, snapshot_code, requeue_waiting,
  remove_copy,
}

-- The script moves a waiting task only while everything that the monitor saw still holds: the
-- snapshot, a pending task without a claim, an admitting workflow, no cancel marker, and the id in the
-- worker's queue.
pub record MayMove (db : Db) (a : WaitArgs) : Type 0 where
  pub assigned_worker : (or_else (task_at db a.task).assigned_worker "" == a.assigned_worker) ≡ true
  pub assigned_at : (or_else (task_at db a.task).stamps.assigned_at "" == a.assigned_at) ≡ true
  pub submitted_at : (or_else (task_at db a.task).stamps.submitted_at "" == a.submitted_at) ≡ true
  pub json : same_json (task_at db a.task).json a.json ≡ true
  pub requeues : is_stale_copy a.operation ≡ false
  pub own_queue : ((a.assigned_worker == "") || (a.assigned_worker == a.worker)) ≡ true
  pub pending : is_pending (task_at db a.task).status ≡ true
  pub unclaimed : is_blank (task_at db a.task).claim.token ≡ true
  pub admitted : workflow_task_allowed db a.task ≡ true
  pub unmarked : (marked db a.own_cancel || marked db a.parent_cancel) ≡ false
  pub queued : contains (waiting a.id) (db.queues a.worker_queue) ≡ true

-- A waiting task is moved exactly when it may be moved.
pub wait_gate : (db : Db) (a : WaitArgs) → ((queue_wait_requeue db a).1 ≡ one) ↔ MayMove db a
unfolding queue_wait_requeue snapshot_code requeue_waiting remove_copy
wait_gate db a = (λ e. ground arith, λ m. ground arith)

-- Whatever the monitor saw, an obsolete copy is only taken off its list: every task hash, result,
-- marker and lease is as it was.
pub stale_copy_only :
    (db : Db) (a : WaitArgs)
    → is_stale_copy a.operation ≡ true
    → ((queue_wait_requeue db a).0.tasks ≡ db.tasks)
      × ((queue_wait_requeue db a).0.results ≡ db.results)
      × ((queue_wait_requeue db a).1 ≢ one)
unfolding queue_wait_requeue snapshot_code requeue_waiting remove_copy
stale_copy_only db a h = ground arith

moved :
    (db : Db) (a : WaitArgs)
    → (queue_wait_requeue db a).1 ≡ one
    → (queue_wait_requeue db a).0 ≡ move_waiting db a
unfolding queue_wait_requeue snapshot_code requeue_waiting remove_copy
moved db a e = ground arith

-- What a move leaves: the task waits without a claim, its id is once in the resource queue, and one copy
-- of it is gone from the worker's queue.
pub record Moved (db db' : Db) (a : WaitArgs) : Type 0 where
  pub status : (task_at db' a.task).status ≡ some pending
  pub claim : (task_at db' a.task).claim ≡ cleared_claim
  pub assigned_worker : (task_at db' a.task).assigned_worker ≡ some ""
  pub queued : count (waiting a.id) (db'.queues a.resource_queue) ≡ 1
  pub taken :
      queue_key_eq a.resource_queue a.worker_queue ≡ false
      → suc (count (waiting a.id) (db'.queues a.worker_queue))
        ≡ count (waiting a.id) (db.queues a.worker_queue)
  pub results : db'.results ≡ db.results

-- A move that succeeds leaves the task pending without a claim and without a worker, its id once in
-- the resource queue and, where the two queues differ, one copy less in the worker's queue; no result
-- changes.
pub wait_moves :
    (db : Db) (a : WaitArgs)
    → (queue_wait_requeue db a).1 ≡ one
    → Moved db (queue_wait_requeue db a).0 a
unfolding wait_again
wait_moves db a e = rw (moved db a e) (record {
  status = rw (beq_refl a.task) refl;
  claim = rw (beq_refl a.task) refl;
  assigned_worker = rw (beq_refl a.task) refl;
  queued =
      rw (beq_refl a.resource_queue)
        (count-cons_self (waiting a.id) _ ∙ ap suc (count-lrem_all_self (waiting a.id) _));
  taken = λ h. rw h (
      rw (beq_refl a.worker_queue) (
        omega (
          arith,
          count-lrem_one_self (waiting a.id) (db.queues a.worker_queue),
          count-pos_contains (waiting a.id) (db.queues a.worker_queue)
              (((wait_gate db a).0 e).queued),
        )));
  results = refl;
})

-- What a requeue under a claim asks.
pub record MayRequeue (db : Db) (a : RequeueArgs) : Type 0 where
  pub owner : holds (task_at db a.task).claim.token a.token ≡ true
  pub released :
      release_allowed (fence_of (task_at db a.task).claim.recovery_state) a.release ≡ true
  pub there : (task_at db a.task).status ≢ none
  pub live : is_terminal (task_at db a.task).status ≡ false
  pub admitted : workflow_task_allowed db a.task ≡ true
  pub unmarked : (marked db a.own_cancel || marked db a.parent_cancel) ≡ false

-- A claimed task goes back to a queue exactly for the owner of its claim, with authority over its fence,
-- while it is there, not terminal, admitted and not cancelled.
pub requeue_gate :
    (db : Db) (a : RequeueArgs) → ((conditional_requeue db a).1 ≡ one) ↔ MayRequeue db a
unfolding conditional_requeue
requeue_gate db a = (λ e. ground arith, λ m. ground arith)

put_back_eq :
    (db : Db) (a : RequeueArgs)
    → (conditional_requeue db a).1 ≡ one
    → (conditional_requeue db a).0 ≡ put_back db a
unfolding conditional_requeue
put_back_eq db a e = ground arith

pub record PutBack (db db' : Db) (a : RequeueArgs) : Type 0 where
  pub status : (task_at db' a.task).status ≡ some pending
  pub claim : (task_at db' a.task).claim ≡ cleared_claim
  pub assigned_worker : (task_at db' a.task).assigned_worker ≡ some a.assigned_worker
  pub queued : count (waiting a.id) (db'.queues a.destination) ≡ 1
  pub entries :
      queue_key_eq a.destination a.inflight ≡ false
      → count a.item (db'.queues a.inflight) ≡ count a.item (db.queues a.inflight) - 1
  pub results : db'.results ≡ db.results

-- After a requeue the task waits without a claim, its id is once in the destination, and one entry of
-- the attempt is gone from the inflight list.
pub requeue_moves :
    (db : Db) (a : RequeueArgs)
    → (conditional_requeue db a).1 ≡ one
    → PutBack db (conditional_requeue db a).0 a
unfolding restore_task
requeue_moves db a e = rw (put_back_eq db a e) (record {
  status = rw (beq_refl a.task) refl;
  claim = rw (beq_refl a.task) refl;
  assigned_worker = rw (beq_refl a.task) refl;
  queued =
      rw (beq_refl a.destination)
        (count-cons_self (waiting a.id) _ ∙ ap suc (count-lrem_all_self (waiting a.id) _));
  entries =
      λ h. rw h (rw (beq_refl a.inflight) (count-lrem_one_self a.item (db.queues a.inflight)));
  results = refl;
})

-- A requeue never revives: a terminal task keeps its status, whatever the arguments.
pub requeue_keeps_terminal :
    (db : Db) (a : RequeueArgs)
    → is_terminal (task_at db a.task).status ≡ true
    → ((task_at (conditional_requeue db a).0 a.task).status ≡ (task_at db a.task).status)
      × (((conditional_requeue db a).0).results ≡ db.results)
      × ((conditional_requeue db a).1 ≢ one)
unfolding conditional_requeue
requeue_keeps_terminal db a h = ground (arith, beq_refl a.task)
