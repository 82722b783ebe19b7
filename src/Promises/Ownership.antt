-- ===== src/Promises/Ownership.antt =====
-- The local index of claims against the database: acknowledge_task_claim, freeze_task_claim,
-- requeue_unstarted_task and _finalize_task_records (kernelgym/server/task_manager.py).
use kernel_gym.Prelude.{
  String, true, false, not, ◌&&◌, Option, none, some, ◌≡◌, subst, ap, ◌∙◌, inl, inr, refl, arith,
  holds, beq_refl, eq_refl, Bool-cases, is_blank, is_some,
}
use kernel_gym.Redis.Keys.{task_key_Eq}
use kernel_gym.Redis.{Db, task_at, is_unfenced, is_frozen}
use kernel_gym.Scripts.Release.{FinalizeArgs, ack_claim, freeze_claim, finalize_claim}
use kernel_gym.Manager.State.{
  is_one, TaskClaim, Settings, Server, Reply, raises, returns, stale_claim, frozen_claim, Error,
}
use kernel_gym.Manager.Claims.{
  acknowledge_task_claim, acknowledge_with, freeze_task_claim, freeze_with, claim_task,
}
use kernel_gym.Manager.Finish.{
  FinishOrder, adopt_claim, commit, commit_adopted, finalize_args, finalize_task_records, RawResult,
  complete_task, complete_order, key_of,
}

-- The database agrees that the attempt `c` of the task owns it.
abbrev pub Owns : Db → String → TaskClaim → Type 0
Owns db id c = holds (task_at db (claim_task c id)).claim.token c.token ≡ true

retained :
    (s : Server) (id : String) (c : TaskClaim)
    → (acknowledge_with s id false (some c)).claims id ≡ some c
    → Owns s.db id c
      × (is_unfenced (task_at s.db (claim_task c id)).claim.recovery_state ≡ false)
      × ((acknowledge_with s id false (some c)).db ≡ s.db)
unfolding acknowledge_with ack_claim
retained s id c r = ground (arith, eq_refl id)

-- Where an acknowledgement without the authority over fences leaves the claim in the index, the
-- attempt still owns its task, a fence protects it, and nothing has changed.
pub ack_retains :
    (s : Server) (id : String) (c : TaskClaim)
    → s.claims id ≡ some c
    → (acknowledge_task_claim s id false).claims id ≡ some c
    → Owns s.db id c
      × (is_unfenced (task_at s.db (claim_task c id)).claim.recovery_state ≡ false)
      × ((acknowledge_task_claim s id false).db ≡ s.db)
unfolding acknowledge_task_claim
ack_retains s id c i r =
    rw i (retained s id c (subst (λ x. (acknowledge_with s id false x).claims id ≡ some c) i r))

frozen_acks :
    (s : Server) (id : String) (c : TaskClaim)
    → Owns s.db id c
    → is_frozen (task_at s.db (claim_task c id)).claim.recovery_state ≡ true
    → s.claims id ≡ some c
    → acknowledge_task_claim s id false ≡ s
unfolding acknowledge_task_claim acknowledge_with ack_claim
frozen_acks s id c o f i = rw i (rw o (ground arith))

frozen_commits :
    (conf : Settings) (s : Server) (o : FinishOrder) (c : TaskClaim)
    → holds (task_at s.db o.task_key).claim.token c.token ≡ true
    → is_frozen (task_at s.db o.task_key).claim.recovery_state ≡ true
    → o.allow_frozen_claim ≡ false
    → commit conf s o (some c) ≡ (s, raises frozen_claim)
unfolding commit finalize_claim
frozen_commits conf s o c t f a = rw t (rw f (rw a refl))

frozen_completes :
    (conf : Settings) (s : Server) (id : String) (c : TaskClaim) (r : RawResult)
    (hash : Option String) (now : String)
    → s.claims id ≡ some c
    → Owns s.db id c
    → is_frozen (task_at s.db (claim_task c id)).claim.recovery_state ≡ true
    → complete_task conf s id r hash now ≡ (s, raises frozen_claim)
unfolding complete_task finalize_task_records complete_order
frozen_completes conf s id c r hash now i o f =
    rw i (rw (frozen_commits conf s (complete_order conf id r hash now (some c)) c o f refl) refl)

freezes :
    (s : Server) (id reason now : String) (c : TaskClaim)
    → (freeze_with s id reason now (some c)).1 ≡ true
    → let s' = (freeze_with s id reason now (some c)).0 in
      (s'.claims ≡ s.claims)
      × Owns s'.db id c
      × (is_frozen (task_at s'.db (claim_task c id)).claim.recovery_state ≡ true)
unfolding freeze_with freeze_claim
freezes s id reason now c f = ground (arith, beq_refl (claim_task c id))

stays_frozen :
    (conf : Settings) (s : Server) (id reason now : String) (r : RawResult) (hash : Option String)
    (later : String) (claim : Option TaskClaim)
    → s.claims id ≡ claim
    → (freeze_with s id reason now claim).1 ≡ true
    → let s' = (freeze_with s id reason now claim).0 in
      (acknowledge_task_claim s' id false ≡ s')
      × (complete_task conf s' id r hash later ≡ (s', raises frozen_claim))
stays_frozen conf s id reason now r hash later none i f = unfold freeze_with in cc
stays_frozen conf s id reason now r hash later (some c) i f =
    let (same, owns, frozen) = freezes s id reason now c f in
    let s' = (freeze_with s id reason now (some c)).0 in
    let kept = ap (λ m. m id) same ∙ i in
    (
      frozen_acks s' id c owns frozen kept,
      frozen_completes conf s' id c r hash later kept owns frozen,
    )

-- An attempt that has frozen itself stays as it is: an acknowledgement without the authority over
-- fences changes nothing on the server, and a completion raises the error for a frozen claim and
-- changes nothing either.
pub frozen_stays :
    (conf : Settings) (s : Server) (id reason now : String) (r : RawResult) (hash : Option String)
    (later : String)
    → (freeze_task_claim s id reason now).1 ≡ true
    → let s' = (freeze_task_claim s id reason now).0 in
      (acknowledge_task_claim s' id false ≡ s')
      × (complete_task conf s' id r hash later ≡ (s', raises frozen_claim))
unfolding freeze_task_claim
frozen_stays conf s id reason now r hash later f =
    stays_frozen conf s id reason now r hash later (s.claims id) refl f

refused :
    (db : Db) (a : FinalizeArgs)
    → is_one (finalize_claim db a).1 ≡ false
    → ((finalize_claim db a).0.tasks ≡ db.tasks) × ((finalize_claim db a).0.results ≡ db.results)
unfolding finalize_claim
refused db a n = ground arith

commit_refused :
    (conf : Settings) (s : Server) (o : FinishOrder) (claim : Option TaskClaim) (e : Error)
    → (commit conf s o claim).1 ≡ raises e
    → ((commit conf s o claim).0.db.tasks ≡ s.db.tasks)
      × ((commit conf s o claim).0.db.results ≡ s.db.results)
unfolding commit
commit_refused conf s o none e h = cc
commit_refused conf s o (some c) e h = ground (arith, refused s.db (finalize_args conf o c))

adopted_refused :
    (conf : Settings) (s : Server) (o : FinishOrder) (x : Reply (Option TaskClaim)) (e : Error)
    → (commit_adopted conf s o x).1 ≡ raises e
    → ((commit_adopted conf s o x).0.db.tasks ≡ s.db.tasks)
      × ((commit_adopted conf s o x).0.db.results ≡ s.db.results)
adopted_refused conf s o (raises _) e h = (refl, refl)
adopted_refused conf s o (returns claim) e h = commit_refused conf s o claim e h

-- A commit that raises publishes nothing: every task hash and every result is as it was.
pub failed_commit_publishes_nothing :
    (conf : Settings) (s : Server) (o : FinishOrder) (claim : Option TaskClaim) (e : Error)
    → (finalize_task_records conf s o claim).1 ≡ raises e
    → ((finalize_task_records conf s o claim).0.db.tasks ≡ s.db.tasks)
      × ((finalize_task_records conf s o claim).0.db.results ≡ s.db.results)
unfolding finalize_task_records
failed_commit_publishes_nothing conf s o none e h =
    adopted_refused conf s o (adopt_claim s.db o) e h
failed_commit_publishes_nothing conf s o (some c) e h = commit_refused conf s o (some c) e h

-- A process that holds no claim of a task that an attempt owns completes nothing: the error is raised
-- and the server is as it was.
pub unowned_completion_fails :
    (conf : Settings) (s : Server) (id : String) (r : RawResult) (hash : Option String)
    (now : String)
    → s.claims id ≡ none
    → is_blank (task_at s.db (key_of conf.key_prefix id)).claim.token ≡ false
    → complete_task conf s id r hash now ≡ (s, raises stale_claim)
unfolding complete_task finalize_task_records adopt_claim complete_order
unowned_completion_fails conf s id r hash now n t =
    let h = task_at s.db (key_of conf.key_prefix id) in
    rw n (
      rw t
        (elim (Bool-cases (not (is_blank h.flow.generation) && not (is_some h.flow.parent_key))) [
          | inl e ↦ rw e refl
          | inr e ↦ rw e refl
        ]))
