-- ===== src/Safety/Running.antt =====
-- A running attempt belongs to its token, whatever the other processes call.
pub mod Calls
pub mod Loops
pub mod Theorem
use kernel_gym.Prelude.{
  ℕ, zero, suc, String, Bool, true, false, Option, none, some, List, [], ◌∷◌, ◌≡◌, refl, arith,
  ◌==◌, ◌&&◌, holds, is_blank, rpop, Bool-cases, inl, inr, Option-cases, ◌∙◌, eq_iff, ap, or_else,
}
use kernel_gym.Redis.Keys.{
  TaskKey, QueueKey, MarkerKey, task_key_eq, task_key_eq_iff, QueueKey, Item,
}
use kernel_gym.Redis.{
  Db, TaskHash, Status, processing, Claim, task_at, is_unfenced, set_queue, blank_task,
}
use kernel_gym.Scripts.Dispatch.{
  ClaimArgs, claim_key, claimable, take_claim, claim_gpu_task, mark_claim_processing,
  mark_cpu_processing,
}
use kernel_gym.Scripts.Release.{return_claim, ack_claim, freeze_claim, finalize_claim}
use kernel_gym.Scripts.Requeue.{WaitArgs, conditional_requeue, queue_wait_requeue}
use kernel_gym.Scripts.Submit.{RefreshArgs, submit_task_if_absent, force_refresh_task}
use kernel_gym.Scripts.Lifecycle.{
  AcceptArgs, RenewArgs, DiscardArgs, FinishArgs, accept, renew, discard_records,
}
use kernel_gym.Safety.Stale.{OnlyQueues, carried, stale_call}
use kernel_gym.Scripts.Schedule.{
  Call, reap_task_key, submit_call, refresh_call, claim_call, mark_call, mark_cpu_call, return_call,
  ack_call, freeze_call, finalize_call, wait_call, requeue_call, cancel_call, accept_call,
  renew_call, finish_call, discard_call, tick, reap_task, reap_marker, run, run_all,
}

-- What the attempt with token `t` owns while it runs: the status, the claim and the fence.
pub record Running (db : Db) (k : TaskKey) (t : String) : Type 0 where
  pub status : (task_at db k).status ≡ some processing
  pub token : (task_at db k).claim.token ≡ some t
  pub fenced : is_unfenced (task_at db k).claim.recovery_state ≡ false
  pub real : (t == "") ≡ false
  pub lasting : db.task_expiry k ≡ none

-- The status and the claim at `k` are as they were.
pub record Same (k : TaskKey) (db db' : Db) : Type 0 where
  pub status : (task_at db' k).status ≡ (task_at db k).status
  pub claim : (task_at db' k).claim ≡ (task_at db k).claim
  pub task_expiry : db'.task_expiry k ≡ db.task_expiry k

-- Calls that act for the attempt itself, or that end a workflow whose parent is `k`.
abbrev pub touches : Call → TaskKey → String → Bool
touches (mark_call a) k t = task_key_eq a.task k && t == a.token
touches (return_call a) k t = task_key_eq a.task k && t == a.token
touches (ack_call a) k t = task_key_eq a.task k && t == a.token
touches (freeze_call j u r n) k t = task_key_eq j k && t == u
touches (finalize_call a) k t = task_key_eq a.task k && t == a.token
touches (requeue_call a) k t = task_key_eq a.task k && t == a.token
touches (finish_call a) k t = task_key_eq a.keys.task k
touches _ k t = false

-- A call that an attempt makes on another task.
pub Same-elsewhere :
    (db : Db) (c : Call) (k : TaskKey) {j : TaskKey} {u : String}
    → carried c ≡ some (j, u)
    → task_key_eq j k ≡ false
    → Same k db (run db c)
unfolding run mark_claim_processing return_claim ack_claim freeze_claim finalize_claim
    conditional_requeue
Same-elsewhere db (mark_call a) k e h = ground arith
Same-elsewhere db (return_call a) k e h = ground arith
Same-elsewhere db (ack_call a) k e h = ground arith
Same-elsewhere db (freeze_call i t r n) k e h = ground arith
Same-elsewhere db (finalize_call a) k e h = ground arith
Same-elsewhere db (requeue_call a) k e h = ground arith
Same-elsewhere db _ k e h = cc

pub Same-OnlyQueues :
    (k : TaskKey) {own : QueueKey → Item → Bool} (db db' : Db)
    → OnlyQueues own db db'
    → Same k db db'
Same-OnlyQueues k db db' o = record {
  status = ap (λ m. (or_else (m k) blank_task).status) o.tasks;
  claim = ap (λ m. (or_else (m k) blank_task).claim) o.tasks;
  task_expiry = ap (λ m. m k) o.task_expiry;
}

pub Same-refl : (k : TaskKey) (db : Db) → Same k db db
Same-refl k db = record { status = refl; claim = refl; task_expiry = refl }

pub Same-trans : (k : TaskKey) (a b c : Db) → Same k a b → Same k b c → Same k a c
Same-trans k a b c p q = record {
  status = q.status ∙ p.status;
  claim = q.claim ∙ p.claim;
  task_expiry = q.task_expiry ∙ p.task_expiry;
}

pub Running-Same :
    (k : TaskKey) (t : String) (a b : Db) → Running a k t → Same k a b → Running b k t
Running-Same k t a b r p = record {
  status = p.status ∙ r.status;
  token = ap (λ (c : Claim). c.token) p.claim ∙ r.token;
  fenced = ap (λ (c : Claim). is_unfenced c.recovery_state) p.claim ∙ r.fenced;
  real = r.real;
  lasting = p.task_expiry ∙ r.lasting;
}
