-- ===== src/Safety/Ended/Calls.antt =====
-- Every call keeps an ended generation ended.
use kernel_gym.Prelude.{
  ℕ, zero, suc, String, true, false, ◌&&◌, Option, none, some, List, [], ◌∷◌, ◌≡◌, refl, arith,
  holds, ◌∙◌, rpop, Bool-cases, Option-cases, inl, inr, ◌==◌,
}
use kernel_gym.Redis.Keys.{TaskKey, QueueKey, MarkerKey, task_key_eq, task_key_eq_iff, Stage}
use kernel_gym.Redis.{Db, TaskHash, is_active, is_terminal, task_at, set_queue, task_exists}
use kernel_gym.Scripts.Guard.{workflow_allowed, parent_admits}
use kernel_gym.Scripts.Dispatch.{
  ClaimArgs, MarkArgs, claim_key, claimable, take_claim, claim_gpu_task, mark_claim_processing,
  start_task, mark_cpu_processing,
}
use kernel_gym.Scripts.Release.{
  ReturnArgs, AckArgs, FinalizeArgs, return_claim, ack_claim, freeze_claim, finalize_claim,
  set_terminal,
}
use kernel_gym.Scripts.Requeue.{
  WaitArgs, RequeueArgs, queue_wait_requeue, requeue_waiting, remove_copy, wait_again,
  conditional_requeue, restore_task,
}
use kernel_gym.Scripts.Submit.{RefreshArgs, submit_task_if_absent, force_refresh_task}
use kernel_gym.Scripts.Cancel.{
  CancelArgs, fence_id, fence_children, unqueue, cancel_unstarted, cancel_existing, stamp_cancelled,
  cancel_task,
}
use kernel_gym.Scripts.Lifecycle.{
  AcceptArgs, RenewArgs, FinishArgs, DiscardArgs, accept, start_workflow, new_parent, renew, finish,
  finish_parent, stop_child, stop_children, discard_records, child_key,
}
use kernel_gym.Scripts.Schedule.{
  Call, submit_call, refresh_call, claim_call, mark_call, mark_cpu_call, return_call, ack_call,
  freeze_call, finalize_call, wait_call, requeue_call, cancel_call, accept_call, renew_call,
  finish_call, discard_call, tick, reap_task, reap_marker, run, reap_task_key, reap_marker_key,
}
use kernel_gym.Safety.Ended.{Ended, fresh}

-- The status and the generation at `k` are as they were.
record SameEnd (k : TaskKey) (a b : Db) : Type 0 where
  status : (task_at b k).status ≡ (task_at a k).status
  generation : (task_at b k).flow.generation ≡ (task_at a k).flow.generation

SameEnd-trans : (k : TaskKey) (a b c : Db) → SameEnd k a b → SameEnd k b c → SameEnd k a c
SameEnd-trans k a b c p q = record {
  status = q.status ∙ p.status;
  generation = q.generation ∙ p.generation;
}

Ended-SameEnd : (k : TaskKey) (g : String) (a b : Db) → Ended a k g → SameEnd k a b → Ended b k g
Ended-SameEnd k g a b e s = ground arith

SameEnd-take : (k : TaskKey) (db : Db) (a : ClaimArgs) (x : _) → SameEnd k db (take_claim db a x)
unfolding take_claim
SameEnd-take k db a x = ground (arith, task_key_eq_iff (claim_key a x) k)

SameEnd-claim :
    (k : TaskKey) (n : ℕ) (db : Db) (a : ClaimArgs) → SameEnd k db (claim_gpu_task n db a).0
unfolding claim_gpu_task
SameEnd-claim k zero db a = record { status = refl; generation = refl }
SameEnd-claim k (suc n) db a = elim (Option-cases (rpop (db.queues a.source))) [
  | inl p ↦ rw (p, claim_gpu_task) (record { status = refl; generation = refl })
  | inr p ↦
      let db' = set_queue db a.source p.0.1 in
      let same : SameEnd k db db' = record { status = refl; generation = refl } in
      rw (p.1, claim_gpu_task)
        (elim (Bool-cases (claimable db' (claim_key a p.0.0))) [
          | inl c ↦ rw c (SameEnd-trans k db db' _ same (SameEnd-take k db' a p.0.0))
          | inr c ↦ rw c (SameEnd-trans k db db' _ same (SameEnd-claim k n db' a))
        ])
]

module _ (db : Db) (k : TaskKey) (g : String) (e : Ended db k g) where
  Ended-submit :
      (j : TaskKey) (q : QueueKey) (i : String) (m : TaskHash)
      → task_key_eq j k ≡ false
      → Ended (run db (submit_call j q i m)) k g
  unfolding run submit_task_if_absent
  Ended-submit j q i m h = ground arith

  Ended-refresh :
      (a : RefreshArgs) → task_key_eq a.task k ≡ false → Ended (run db (refresh_call a)) k g
  unfolding run force_refresh_task
  Ended-refresh a h = ground arith

  Ended-mark : (a : MarkArgs) → Ended (run db (mark_call a)) k g
  unfolding run mark_claim_processing start_task
  Ended-mark a = ground (arith, task_key_eq_iff a.task k)

  Ended-mark_cpu :
      (j : TaskKey) (c p : MarkerKey) (s : String) → Ended (run db (mark_cpu_call j c p s)) k g
  unfolding run mark_cpu_processing
  Ended-mark_cpu j c p s = ground (arith, task_key_eq_iff j k)

  Ended-return : (a : ReturnArgs) → Ended (run db (return_call a)) k g
  unfolding run return_claim
  Ended-return a = ground (arith, task_key_eq_iff a.task k)

  Ended-ack : (a : AckArgs) → Ended (run db (ack_call a)) k g
  unfolding run ack_claim
  Ended-ack a = ground (arith, task_key_eq_iff a.task k)

  Ended-freeze : (j : TaskKey) (t r n : String) → Ended (run db (freeze_call j t r n)) k g
  unfolding run freeze_claim
  Ended-freeze j t r n = ground (arith, task_key_eq_iff j k)

  Ended-finalize :
      (a : FinalizeArgs)
      → is_terminal (some a.task_mapping.status) ≡ true
      → Ended (run db (finalize_call a)) k g
  unfolding run finalize_claim set_terminal
  Ended-finalize a h = ground (arith, task_key_eq_iff a.task k)

  Ended-waiting : (a : WaitArgs) → Ended (requeue_waiting db a).0 k g
  unfolding requeue_waiting wait_again
  Ended-waiting a = ground (arith, task_key_eq_iff a.task k)

  Ended-wait : (a : WaitArgs) → Ended (run db (wait_call a)) k g
  unfolding run queue_wait_requeue remove_copy
  Ended-wait a = ground (arith, Ended-waiting a)

  Ended-requeue : (a : RequeueArgs) → Ended (run db (requeue_call a)) k g
  unfolding run conditional_requeue restore_task
  Ended-requeue a = ground (arith, task_key_eq_iff a.task k)

  Ended-accept :
      (a : AcceptArgs)
      → (task_key_eq a.keys.task k && a.generation == g) ≡ false
      → Ended (run db (accept_call a)) k g
  unfolding run accept start_workflow new_parent
  Ended-accept a h = ground (arith, task_key_eq_iff a.keys.task k)

  Ended-renew : (a : RenewArgs) → (a.generation == "") ≡ false → Ended (run db (renew_call a)) k g
  unfolding run renew workflow_allowed parent_admits
  Ended-renew a h = ground (arith, task_key_eq_iff a.task k)

  Ended-discard : (a : DiscardArgs) → Ended (run db (discard_call a)) k g
  unfolding run discard_records
  Ended-discard a = ground (arith, task_key_eq_iff a.keys.task k)

  Ended-reap : (j : TaskKey) → Ended (run db (reap_task j)) k g
  unfolding run reap_task_key
  Ended-reap j = ground (arith, task_key_eq_iff j k)

SameEnd-fence_children :
    (k : TaskKey) (a : CancelArgs) (cs : List (Stage × String)) (db : Db)
    → SameEnd k db (fence_children a cs db)
unfolding fence_children
SameEnd-fence_children k a [] db = record { status = refl; generation = refl }
SameEnd-fence_children k a ((s, c) ∷ cs) db =
    SameEnd-trans k db _ _ (record { status = refl; generation = refl })
      (SameEnd-fence_children k a cs _)

Ended-unstarted :
    (k : TaskKey) (g : String) (a : CancelArgs) (db : Db)
    → Ended db k g
    → Ended (cancel_unstarted a db) k g
unfolding cancel_unstarted
Ended-unstarted k g a db e = ground (arith, task_key_eq_iff a.task k)

Ended-existing :
    (k : TaskKey) (g : String) (a : CancelArgs) (o : Option (List (Stage × String))) (db : Db)
    → Ended db k g
    → Ended (cancel_existing a o db) k g
unfolding unqueue
Ended-existing k g a (some cs) db e = Ended-SameEnd k g db _ e (SameEnd-fence_children k a cs db)
Ended-existing k g a none db e = Ended-unstarted k g a _ (record { over = e.over })

SameEnd-stamp : (k : TaskKey) (a : CancelArgs) (db : Db) → SameEnd k db (stamp_cancelled a db)
SameEnd-stamp k a db = ground (arith, task_key_eq_iff a.task k)

Ended-cancel :
    (db : Db) (k : TaskKey) (g : String) (a : CancelArgs)
    → Ended db k g
    → Ended (cancel_task db a) k g
unfolding cancel_task fence_id
Ended-cancel db k g a e =
    let f : Ended (fence_id a db) k g = record { over = e.over } in
    let s = Ended-SameEnd k g _ _ f (SameEnd-stamp k a (fence_id a db)) in
    elim (Bool-cases (task_exists db a.task)) [
      | inl y ↦ rw y (
          Ended-existing k g a (task_at (stamp_cancelled a (fence_id a db)) a.task).parent.children
            _ s)
      | inr n ↦ rw n f
    ]

Ended-stop_child :
    (k : TaskKey) (g : String) (a : FinishArgs) (c : String) (db : Db)
    → Ended db k g
    → Ended (stop_child a c db) k g
unfolding stop_child
Ended-stop_child k g a c db e = ground (arith, task_key_eq_iff (child_key a c) k)

pub Ended-stop_children :
    (k : TaskKey) (g : String) (a : FinishArgs) (cs : List String) (db : Db)
    → Ended db k g
    → Ended (stop_children a cs db) k g
unfolding stop_children
Ended-stop_children k g a [] db e = e
Ended-stop_children k g a (c ∷ cs) db e =
    Ended-stop_children k g a cs (stop_child a c db) (Ended-stop_child k g a c db e)

-- The parent's own hash after its end. A result that is not terminal cannot revive another parent:
-- the script ends only an active workflow of the generation that it names.
Ended-finish_parent :
    (k : TaskKey) (g : String) (a : FinishArgs) (db : Db)
    → Ended db k g
    → (holds (task_at db a.keys.task).flow.generation a.generation
        && is_active (task_at db a.keys.task).status)
      ≡ true
    → Ended (finish_parent db a) k g
unfolding finish_parent
Ended-finish_parent k g a db e h = ground (arith, task_key_eq_iff a.keys.task k)

Ended-finish :
    (db : Db) (k : TaskKey) (g : String) (a : FinishArgs) → Ended db k g → Ended (finish db a).0 k g
unfolding finish
Ended-finish db k g a e =
    elim (Bool-cases (holds (task_at db a.keys.task).flow.generation a.generation)) [
      | inr n ↦ rw n e
      | inl o ↦ elim (Bool-cases (is_active (task_at db a.keys.task).status)) [
        | inr n ↦ rw (o, finish) (rw n e)
        | inl l ↦
            let p = Ended-finish_parent k g a db e (rw o l) in
            let q = Ended-stop_children k g a (db.sets a.children) (finish_parent db a) p in
            rw (o, finish) (rw l (record { over = q.over }))
      ]
    ]

-- An ended generation stays ended under every call of the server.
pub Ended-call :
    (db : Db) (k : TaskKey) (g : String) (c : Call)
    → Ended db k g
    → fresh c k g ≡ true
    → Ended (run db c) k g
Ended-call db k g (submit_call j q i m) e h = Ended-submit db k g e j q i m (ground arith)
Ended-call db k g (refresh_call a) e h = Ended-refresh db k g e a (ground arith)
Ended-call db k g (claim_call n a) e h =
    unfold run in Ended-SameEnd k g db _ e (SameEnd-claim k n db a)
Ended-call db k g (mark_call a) e h = Ended-mark db k g e a
Ended-call db k g (mark_cpu_call j c p s) e h = Ended-mark_cpu db k g e j c p s
Ended-call db k g (return_call a) e h = Ended-return db k g e a
Ended-call db k g (ack_call a) e h = Ended-ack db k g e a
Ended-call db k g (freeze_call j t r n) e h = Ended-freeze db k g e j t r n
Ended-call db k g (finalize_call a) e h = Ended-finalize db k g e a h
Ended-call db k g (wait_call a) e h = Ended-wait db k g e a
Ended-call db k g (requeue_call a) e h = Ended-requeue db k g e a
Ended-call db k g (cancel_call a) e h = unfold run in Ended-cancel db k g a e
Ended-call db k g (accept_call a) e h = Ended-accept db k g e a (ground arith)
Ended-call db k g (renew_call a) e h = Ended-renew db k g e a (ground arith)
Ended-call db k g (finish_call a) e h = unfold run in Ended-finish db k g a e
Ended-call db k g (discard_call a) e h = Ended-discard db k g e a
Ended-call db k g (tick d) e h = unfold run in record { over = e.over }
Ended-call db k g (reap_task j) e h = Ended-reap db k g e j
Ended-call db k g (reap_marker j) e h = unfold run reap_marker_key in record { over = e.over }
