-- ===== src/Admission/Workflows.antt =====
-- How a workflow starts and ends (_ACCEPT and _FINISH of kernelgym/server/workflow_lifecycle.py).
use kernel_gym.Prelude.{
  String, true, false, ◌&&◌, some, ◌≡◌, ◌≢◌, ◌↔◌, ◌⊎◌, refl, arith, holds, or_else, is_some,
  is_blank, leb, beq_refl, eq_iff,
}
use kernel_gym.Redis.Keys.{task_key_Eq, marker_key_Eq, queue_key_Eq, item_Eq}
use kernel_gym.Redis.{
  Db, failed, timeout, task_at, task_exists, is_terminal, is_pending, is_unfenced, marked,
  lease_owner, Payload,
}
use kernel_gym.Scripts.Guard.{parent_cancelled}
use kernel_gym.Scripts.Code.{one}
use kernel_gym.Scripts.Cancel.{unqueue, drop_entry}
use kernel_gym.Scripts.Lifecycle.{
  AcceptArgs, FinishArgs, existing_code, start_workflow, accept, judge, final_result, child_key,
  stop_child,
}

-- A request may start a workflow under its id: no tombstone, and either no task and no live lease, or
-- a terminal task whose claim is released, by force.
pub record MayAccept (db : Db) (a : AcceptArgs) : Type 0 where
  pub unfenced : marked db a.tombstone ≡ false
  pub free :
      ((task_exists db a.keys.task ≡ false) × (is_some (lease_owner db a.keys.lease) ≡ false))
      ⊎ ((task_exists db a.keys.task ≡ true)
          × (is_terminal (task_at db a.keys.task).status ≡ true)
          × (is_blank (task_at db a.keys.task).claim.token ≡ true)
          × (a.force ≡ true))

-- A workflow starts exactly when it may; otherwise the database is as it was.
pub accept_gate :
    (db : Db) (a : AcceptArgs)
    → (((accept db a).1 ≡ one) ↔ MayAccept db a) × (((accept db a).1 ≢ one) → (accept db a).0 ≡ db)
unfolding accept existing_code
accept_gate db a = ((λ e. ground arith, λ m. ground arith), λ n. ground arith)

started : (db : Db) (a : AcceptArgs) → (accept db a).1 ≡ one → (accept db a).0 ≡ start_workflow db a
unfolding accept existing_code
started db a e = ground arith

-- What the three checks of the script make of the reason and the status, in the order of precedence.
pub record Verdict (db : Db) (a : FinishArgs) (reason : String) (r : Payload) : Type 0 where
  pub late :
      leb (or_else (task_at db a.keys.task).flow.deadline 0) db.clock ≡ true
      → (r.status ≡ timeout) × (r.error_code ≡ some "TIMEOUT_ERROR")
  pub stopped :
      leb (or_else (task_at db a.keys.task).flow.deadline 0) db.clock ≡ false
      → parent_cancelled db (task_at db a.keys.task).parent ≡ true
      → (r.status ≡ failed) × (r.error_code ≡ some "SYSTEM_ERROR")
  pub orphaned :
      leb (or_else (task_at db a.keys.task).flow.deadline 0) db.clock ≡ false
      → parent_cancelled db (task_at db a.keys.task).parent ≡ false
      → holds (lease_owner db a.keys.lease) a.generation ≡ false
      → a.reason ≡ ""
      → (r.status ≡ failed) × (r.error_code ≡ some "SYSTEM_ERROR")
  pub unharmed :
      leb (or_else (task_at db a.keys.task).flow.deadline 0) db.clock ≡ false
      → parent_cancelled db (task_at db a.keys.task).parent ≡ false
      → holds (lease_owner db a.keys.lease) a.generation ≡ true
      → a.reason ≡ ""
      → (r.status ≡ a.result.status)
        × (r.compiled ≡ a.result.compiled)
        × (r.correctness ≡ a.result.correctness)
  pub explained : (reason ≢ "") → (r.compiled ≡ false) × (r.correctness ≡ false)

ended_badly :
    (db : Db) (a : FinishArgs)
    → ((judge db a).0 ≢ "")
    → ((final_result db a).compiled ≡ false) × ((final_result db a).correctness ≡ false)
unfolding final_result
ended_badly db a n = ground (arith, eq_iff (judge db a).0 "")

-- The verdict on a workflow that ends: past the deadline it is a timeout; otherwise with a tombstone
-- it is a failure; otherwise without the lease, where the caller gives no reason, it is a failure;
-- with none of these and no reason, status, `compiled` and `correctness` are the caller's. Where
-- a reason is left, `compiled` and `correctness` are false.
pub finish-Verdict : (db : Db) (a : FinishArgs) → Verdict db a ((judge db a).0) (final_result db a)
unfolding judge final_result
finish-Verdict db a = record {
  late = λ l. ground arith;
  stopped = λ l c. ground arith;
  orphaned = λ l c h r. rw l (rw c (rw h (rw r (refl, refl))));
  unharmed = λ l c h r. rw l (rw c (rw h (rw r (refl, refl, refl))));
  explained = ended_badly db a;
}

-- A waiting child that no owner has fenced is failed and its claim's owner is dropped; the record of a child
-- that runs or is fenced is as it was.
pub stop_child_fails :
    (a : FinishArgs) (child : String) (db : Db)
    → (is_pending (task_at db (child_key a child)).status ≡ true
        → is_unfenced (task_at db (child_key a child)).claim.recovery_state ≡ true
        → ((task_at (stop_child a child db) (child_key a child)).status ≡ some failed)
          × (is_blank (task_at (stop_child a child db) (child_key a child)).claim.token ≡ true))
      × (is_pending (task_at db (child_key a child)).status
              && is_unfenced (task_at db (child_key a child)).claim.recovery_state
            ≡ false
          → (stop_child a child db).tasks ≡ db.tasks)
unfolding stop_child unqueue drop_entry
stop_child_fails a child db = (λ p u. ground (arith, beq_refl (child_key a child)), λ n. rw n refl)
