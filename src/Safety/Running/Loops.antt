-- ===== src/Safety/Running/Loops.antt =====
-- The calls of others that loop: the claim script, cancellation and the end of a workflow.
use kernel_gym.Prelude.{
  ℕ, zero, suc, String, true, false, Option, none, some, List, [], ◌∷◌, ◌≡◌, refl, arith, rpop,
  Bool-cases, inl, inr, Option-cases,
}
use kernel_gym.Redis.Keys.{TaskKey, task_key_eq, task_key_eq_iff}
use kernel_gym.Redis.{Db, task_at, set_queue, task_exists}
use kernel_gym.Scripts.Dispatch.{ClaimArgs, claim_key, claimable, take_claim, claim_gpu_task}
use kernel_gym.Scripts.Lifecycle.{
  FinishArgs, child_key, finish, finish_parent, stop_child, stop_children,
}
use kernel_gym.Scripts.Cancel.{
  CancelArgs, fence_id, unqueue, cancel_existing, fence_children, stamp_cancelled, cancel_unstarted,
  cancel_task,
}
use kernel_gym.Redis.Keys.{Stage, Item}
use kernel_gym.Safety.Running.{Running, Same, Same-refl, Same-trans, Running-Same}

Same-take :
    (k : TaskKey) (t : String) (db : Db) (a : ClaimArgs) (x : Item)
    → Running db k t
    → claimable db (claim_key a x) ≡ true
    → Same k db (take_claim db a x)
unfolding claimable take_claim
Same-take k t db a x r c = ground (arith, task_key_eq_iff (claim_key a x) k)

pub Same-claim :
    (k : TaskKey) (t : String) (n : ℕ) (db : Db) (a : ClaimArgs)
    → Running db k t
    → Same k db (claim_gpu_task n db a).0
unfolding claim_gpu_task
Same-claim k t zero db a r = Same-refl k db
Same-claim k t (suc n) db a r = elim (Option-cases (rpop (db.queues a.source))) [
  | inl e ↦ rw (e, claim_gpu_task) (Same-refl k db)
  | inr p ↦
      let db' = set_queue db a.source p.0.1 in
      let same : Same k db db' = record { status = refl; claim = refl; task_expiry = refl } in
      let r' = Running-Same k t db db' r same in
      rw (p.1, claim_gpu_task)
        (elim (Bool-cases (claimable db' (claim_key a p.0.0))) [
          | inl c ↦ rw c (Same-trans k db db' _ same (Same-take k t db' a p.0.0 r' c))
          | inr c ↦ rw c (Same-trans k db db' _ same (Same-claim k t n db' a r'))
        ])
]

Same-fence_children :
    (k : TaskKey) (a : CancelArgs) (cs : List (Stage × String)) (db : Db)
    → Same k db (fence_children a cs db)
unfolding fence_children
Same-fence_children k a [] db = Same-refl k db
Same-fence_children k a ((s, c) ∷ cs) db =
    Same-trans k db _ _ (record { status = refl; claim = refl; task_expiry = refl })
      (Same-fence_children k a cs _)

Same-unstarted :
    (k : TaskKey) (t : String) (a : CancelArgs) (db : Db)
    → Running db k t
    → Same k db (cancel_unstarted a db)
unfolding cancel_unstarted
Same-unstarted k t a db r = ground (arith, task_key_eq_iff a.task k)

Same-unqueue :
    (k : TaskKey) (p i : String) (w : Option String) (db : Db) → Same k db (unqueue p i w db)
unfolding unqueue
Same-unqueue k p i w db = record { status = refl; claim = refl; task_expiry = refl }

Same-existing :
    (k : TaskKey) (t : String) (a : CancelArgs) (o : Option (List (Stage × String))) (db : Db)
    → Running db k t
    → Same k db (cancel_existing a o db)
Same-existing k t a (some cs) db r = Same-fence_children k a cs db
Same-existing k t a none db r =
    let s = Same-unqueue k a.prefix a.id (task_at db a.task).assigned_worker db in
    Same-trans k db _ _ s (Same-unstarted k t a _ (Running-Same k t db _ r s))

Same-stamp :
    (k : TaskKey) (t : String) (a : CancelArgs) (db : Db)
    → Running db k t
    → Same k db (stamp_cancelled a db)
Same-stamp k t a db r = ground (arith, task_key_eq_iff a.task k)

pub Same-cancel :
    (k : TaskKey) (t : String) (db : Db) (a : CancelArgs)
    → Running db k t
    → Same k db (cancel_task db a)
unfolding cancel_task
Same-cancel k t db a r =
    let f : Same k db (fence_id a db) = record {
      status = refl;
      claim = refl;
      task_expiry = refl;
    } in
    let rf = Running-Same k t db _ r f in
    let s = Same-stamp k t a (fence_id a db) rf in
    let e =
      Same-existing k t a (task_at (stamp_cancelled a (fence_id a db)) a.task).parent.children _
        (Running-Same k t _ _ rf s) in
    elim (Bool-cases (task_exists db a.task)) [
      | inl y ↦ rw y (Same-trans k db _ _ f (Same-trans k (fence_id a db) _ _ s e))
      | inr n ↦ rw n f
    ]

Same-stop_child :
    (k : TaskKey) (t : String) (a : FinishArgs) (c : String) (db : Db)
    → Running db k t
    → Same k db (stop_child a c db)
unfolding stop_child
Same-stop_child k t a c db r = ground (arith, task_key_eq_iff (child_key a c) k)

Same-stop_children :
    (k : TaskKey) (t : String) (a : FinishArgs) (cs : List String) (db : Db)
    → Running db k t
    → Same k db (stop_children a cs db)
unfolding stop_children
Same-stop_children k t a [] db r = Same-refl k db
Same-stop_children k t a (c ∷ cs) db r =
    let s = Same-stop_child k t a c db r in
    Same-trans k db (stop_child a c db) _ s
      (Same-stop_children k t a cs (stop_child a c db) (Running-Same k t db _ r s))

Same-finish_parent :
    (k : TaskKey) (a : FinishArgs) (db : Db)
    → task_key_eq a.keys.task k ≡ false
    → Same k db (finish_parent db a)
unfolding finish_parent
Same-finish_parent k a db h = ground arith

pub Same-finish :
    (k : TaskKey) (t : String) (db : Db) (a : FinishArgs)
    → Running db k t
    → task_key_eq a.keys.task k ≡ false
    → Same k db (finish db a).0
unfolding finish
Same-finish k t db a r h =
    let p = Same-finish_parent k a db h in
    let q = Same-stop_children k t a (db.sets a.children) _ (Running-Same k t db _ r p) in
    ground (arith, Same-trans k db _ _ p q)
