-- ===== src/Safety/Attempt.antt =====
-- The life of an attempt under its own token: the gate, the fence, and its end
-- (kernelgym/server/task_manager.py).
use kernel_gym.Prelude.{
  ◌-◌, String, Option, true, false, not, ◌&&◌, none, some, ◌≡◌, ◌↔◌, refl, arith, ◌==◌, holds,
  holds_eq, eq_refl, beq_refl, count, count-lrem_one_self, or_else,
}
use kernel_gym.Redis.Keys.{TaskKey, task_key_Eq, queue_key_Eq, item_Eq}
use kernel_gym.Redis.{
  Db, task_at, is_frozen, marked, cleared_claim, is_pending, ResultHash, blank_result,
}
use kernel_gym.Scripts.Guard.{workflow_task_allowed}
use kernel_gym.Scripts.Code.{minus_four, minus_two, one}
use kernel_gym.Scripts.Dispatch.{MarkArgs, start_task, mark_claim_processing}
use kernel_gym.Scripts.Release.{
  AckArgs, FinalizeArgs, ack_claim, freeze_claim, finalize_claim, set_terminal, set_result,
  override,
}
use kernel_gym.Scripts.Requeue.{RequeueArgs, release_none, conditional_requeue, release_allowed}
use kernel_gym.Safety.Running.{Running}

-- A field that is brought, or else the one that was there.
abbrev pub or_old : {A : Type 0} → Option A → Option A → Option A
or_old (some new) old = some new
or_old none old = old

pub override-or_old : {A : Type 0} (m old : Option A) → override m old ≡ or_old m old
override-or_old none old = refl
override-or_old (some new) old = refl

-- The result hash `new` has each field that `m` brings, and keeps the others of `old`.
pub record Overlaid (m old new : ResultHash) : Type 0 where
  pub result : new.result ≡ or_old m.result old.result
  pub error : new.error ≡ or_old m.error old.error
  pub error_code : new.error_code ≡ or_old m.error_code old.error_code
  pub request_hash : new.request_hash ≡ or_old m.request_hash old.request_hash
  pub completed_at : new.completed_at ≡ or_old m.completed_at old.completed_at
  pub failed_at : new.failed_at ≡ or_old m.failed_at old.failed_at
  pub timeout_at : new.timeout_at ≡ or_old m.timeout_at old.timeout_at

pub set_result-Overlaid : (m old : ResultHash) → Overlaid m old (set_result m old)
unfolding set_result
set_result-Overlaid m old = record {
  result = override-or_old m.result old.result;
  error = override-or_old m.error old.error;
  error_code = override-or_old m.error_code old.error_code;
  request_hash = override-or_old m.request_hash old.request_hash;
  completed_at = override-or_old m.completed_at old.completed_at;
  failed_at = override-or_old m.failed_at old.failed_at;
  timeout_at = override-or_old m.timeout_at old.timeout_at;
}

-- What the gate before execution asks.
pub record MayStart (db : Db) (a : MarkArgs) : Type 0 where
  pub owner : holds (task_at db a.task).claim.token a.token ≡ true
  pub pending : is_pending (task_at db a.task).status ≡ true
  pub admitted : workflow_task_allowed db a.task ≡ true
  pub own_cancel : marked db a.own_cancel ≡ false
  pub parent_cancel : marked db a.parent_cancel ≡ false

-- The gate opens exactly for the owner of a pending, admitted task without a cancel marker.
pub mark_gate : (db : Db) (a : MarkArgs) → ((mark_claim_processing db a).1 ≡ one) ↔ MayStart db a
unfolding mark_claim_processing
mark_gate db a = (λ e. ground arith, λ m. ground arith)

-- Where the marking script accepts a claim with a token that is not empty, on a task hash without
-- a pending EXPIRE, the attempt runs: the status is `processing`, the claim holds the token, and
-- a fence protects it.
pub mark_starts :
    (db : Db) (a : MarkArgs)
    → (mark_claim_processing db a).1 ≡ one
    → (a.token == "") ≡ false
    → db.task_expiry a.task ≡ none
    → Running (mark_claim_processing db a).0 a.task a.token
unfolding mark_claim_processing start_task
mark_starts db a e t x =
    ground (arith, beq_refl a.task, holds_eq (task_at db a.task).claim.token a.token)

-- While the attempt runs, its own token neither acknowledges it without the authority to release the
-- fence nor requeues it without release authority: nothing changes, and the codes say so.
pub fence_blocks :
    (db : Db) (k : TaskKey) (t : String) (a : AckArgs) (q : RequeueArgs)
    → Running db k t
    → (ack_claim db (record a { task = k; token = t; release_fence = false }) ≡ (db, minus_two))
      × (conditional_requeue db (record q { task = k; token = t; release = release_none })
          ≡ (db, minus_four))
unfolding ack_claim conditional_requeue release_allowed
fence_blocks db k t a q r = (ground (arith, eq_refl t), ground (arith, eq_refl t))

-- A frozen attempt is not finalised by its own token unless the caller has proven containment: the
-- attempt that freezes itself and then finishes changes nothing more.
pub frozen_blocks :
    (db : Db) (a : FinalizeArgs) (reason now : String)
    → Running db a.task a.token
    → a.allow_frozen ≡ false
    → let db' = (freeze_claim db a.task a.token reason now).0 in
      finalize_claim db' a ≡ (db', minus_two)
unfolding freeze_claim finalize_claim
frozen_blocks db a reason now r f = ground (arith, beq_refl a.task, eq_refl a.token)

-- What a terminal commit leaves.
pub record Finished (db db' : Db) (a : FinalizeArgs) : Type 0 where
  pub status : (task_at db' a.task).status ≡ some a.task_mapping.status
  pub claim : (task_at db' a.task).claim ≡ cleared_claim
  pub completed_at :
      (task_at db' a.task).stamps.completed_at
      ≡ or_old a.task_mapping.completed_at (task_at db a.task).stamps.completed_at
  pub failed_at :
      (task_at db' a.task).stamps.failed_at
      ≡ or_old a.task_mapping.failed_at (task_at db a.task).stamps.failed_at
  pub timeout_at :
      (task_at db' a.task).stamps.timeout_at
      ≡ or_old a.task_mapping.timeout_at (task_at db a.task).stamps.timeout_at
  pub result :
      Overlaid a.result_mapping
        (or_else (db.results a.result) blank_result)
        (or_else (db'.results a.result) blank_result)
  pub entries : count a.item (db'.queues a.inflight) ≡ count a.item (db.queues a.inflight) - 1

-- An attempt whose terminal commit is accepted is the owner of the claim, which is not frozen or may be finalised
-- frozen. The commit writes the status and its times, clears the claim, stores each field that the result brings
-- and keeps the others, and takes the attempt's entry off the inflight list, all at once.
pub finalize_commits :
    (db : Db) (a : FinalizeArgs)
    → (finalize_claim db a).1 ≡ one
    → (holds (task_at db a.task).claim.token a.token ≡ true)
      × (((is_frozen (task_at db a.task).claim.recovery_state && not a.allow_frozen) ≡ false)
          × Finished db (finalize_claim db a).0 a)
unfolding finalize_claim set_terminal
finalize_commits db a e =
    let owner : holds (task_at db a.task).claim.token a.token ≡ true = ground (arith, e) in
    let free : (is_frozen (task_at db a.task).claim.recovery_state && not a.allow_frozen) ≡ false =
      ground (arith, e) in
    (
      owner,
      (
        free,
        rw (owner, finalize_claim)
            (rw free (record {
              status = rw (beq_refl a.task) refl;
              claim = rw (beq_refl a.task) refl;
              completed_at = rw (beq_refl a.task) (
                  override-or_old a.task_mapping.completed_at
                    (task_at db a.task).stamps.completed_at);
              failed_at =
                  rw (beq_refl a.task)
                    (override-or_old a.task_mapping.failed_at (task_at db a.task).stamps.failed_at);
              timeout_at =
                  rw (beq_refl a.task) (
                    override-or_old a.task_mapping.timeout_at
                      (task_at db a.task).stamps.timeout_at);
              result = rw (beq_refl a.result) (set_result-Overlaid a.result_mapping _);
              entries =
                  rw (beq_refl a.inflight) (count-lrem_one_self a.item (db.queues a.inflight));
            })),
      ),
    )
