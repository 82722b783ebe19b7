-- ===== src/Safety/Cancelled/Fences.antt =====
-- Every call keeps a fence that it spares.
use kernel_gym.Prelude.{
  String, true, false, Option, none, some, List, [], ◌∷◌, ◌≡◌, refl, arith, Bool-cases, inl, inr,
}
use kernel_gym.Redis.Keys.{MarkerKey, marker_key_eq, marker_key_eq_iff, marker_key_Eq, Stage}
use kernel_gym.Redis.{Db, set_marker, task_exists, task_at}
use kernel_gym.Scripts.Dispatch.{mark_claim_processing, mark_cpu_processing}
use kernel_gym.Scripts.Release.{return_claim, ack_claim, freeze_claim, finalize_claim}
use kernel_gym.Scripts.Requeue.{
  WaitArgs, conditional_requeue, queue_wait_requeue, requeue_waiting, remove_copy,
}
use kernel_gym.Scripts.Submit.{submit_task_if_absent, force_refresh_task}
use kernel_gym.Scripts.Cancel.{
  CancelArgs, fence_id, fence_children, unqueue, cancel_unstarted, cancel_existing, cancel_task,
  stamp_cancelled,
}
use kernel_gym.Scripts.Lifecycle.{
  FinishArgs, AcceptArgs, accept, start_workflow, renew, finish, finish_parent, discard_records,
}
use kernel_gym.Scripts.Schedule.{
  Call, submit_call, refresh_call, claim_call, mark_call, mark_cpu_call, return_call, ack_call,
  freeze_call, finalize_call, wait_call, requeue_call, cancel_call, accept_call, renew_call,
  finish_call, discard_call, tick, reap_task, reap_marker, run, reap_task_key, reap_marker_key,
}
use kernel_gym.Safety.Cancelled.{
  Fenced, spares, touches_markers, SameMarkers, Fenced-SameMarkers, SameMarkers-claim,
  SameMarkers-stop_children,
}

SameMarkers-copy : (db : Db) (a : WaitArgs) → SameMarkers db (remove_copy db a).0
unfolding remove_copy
SameMarkers-copy db a = ground arith

SameMarkers-waiting : (db : Db) (a : WaitArgs) → SameMarkers db (requeue_waiting db a).0
unfolding requeue_waiting
SameMarkers-waiting db a = ground arith

-- The calls that touch no marker.
SameMarkers-call : (db : Db) (c : Call) → touches_markers c ≡ false → SameMarkers db (run db c)
unfolding run submit_task_if_absent force_refresh_task mark_claim_processing mark_cpu_processing
    return_claim ack_claim freeze_claim finalize_claim queue_wait_requeue conditional_requeue renew
    reap_task_key
SameMarkers-call db (submit_call k q i m) h = ground arith
SameMarkers-call db (refresh_call a) h = ground arith
SameMarkers-call db (claim_call n a) h = SameMarkers-claim n db a
SameMarkers-call db (mark_call a) h = ground arith
SameMarkers-call db (mark_cpu_call k c p s) h = ground arith
SameMarkers-call db (return_call a) h = ground arith
SameMarkers-call db (ack_call a) h = ground arith
SameMarkers-call db (freeze_call k t r n) h = ground arith
SameMarkers-call db (finalize_call a) h = ground arith
SameMarkers-call db (wait_call a) h =
    ground (arith, SameMarkers-copy db a, SameMarkers-waiting db a)
SameMarkers-call db (requeue_call a) h = ground arith
SameMarkers-call db (renew_call a) h = ground arith
SameMarkers-call db (tick d) h = ground arith
SameMarkers-call db (reap_task k) h = ground arith
SameMarkers-call db _ h = cc

Fenced-set : (m k : MarkerKey) (v : String) (db : Db) → Fenced db m → Fenced (set_marker db k v) m
Fenced-set m k v db f = ground arith

Fenced-fence_id :
    (m : MarkerKey) (a : CancelArgs) (db : Db) → Fenced db m → Fenced (fence_id a db) m
unfolding fence_id
Fenced-fence_id m a db f =
    Fenced-set m _ _ _
      (Fenced-set m _ _ _ (Fenced-set m _ _ _ (Fenced-set m _ _ _ (Fenced-set m _ _ _ f))))

pub Fenced-fence_children :
    (m : MarkerKey) (a : CancelArgs) (cs : List (Stage × String)) (db : Db)
    → Fenced db m
    → Fenced (fence_children a cs db) m
unfolding fence_children
Fenced-fence_children m a [] db f = f
Fenced-fence_children m a ((s, c) ∷ cs) db f =
    Fenced-fence_children m a cs _ (Fenced-set m _ _ _ (Fenced-set m _ _ _ (Fenced-set m _ _ _ f)))

Fenced-existing :
    (m : MarkerKey) (a : CancelArgs) (o : Option (List (Stage × String))) (db : Db)
    → Fenced db m
    → Fenced (cancel_existing a o db) m
unfolding unqueue cancel_unstarted
Fenced-existing m a (some cs) db f = Fenced-fence_children m a cs db f
Fenced-existing m a none db f = ground arith

-- What is fenced before the script looks at the task is fenced after it.
pub Fenced-Fenced :
    (m : MarkerKey) (a : CancelArgs) (db : Db)
    → Fenced (fence_id a db) m
    → Fenced (cancel_task db a) m
unfolding cancel_task
Fenced-Fenced m a db f = elim (Bool-cases (task_exists db a.task)) [
  | inl y ↦ rw y (
      Fenced-existing m a (task_at (stamp_cancelled a (fence_id a db)) a.task).parent.children
        (stamp_cancelled a (fence_id a db)) (record { set = f.set; lasting = f.lasting }))
  | inr n ↦ rw n f
]

Fenced-start :
    (m : MarkerKey) (db : Db) (a : AcceptArgs)
    → Fenced db m
    → marker_key_eq a.keys.cancel m ≡ false
    → Fenced (start_workflow db a) m
unfolding start_workflow
Fenced-start m db a f h = ground arith

Fenced-accept :
    (m : MarkerKey) (db : Db) (a : AcceptArgs)
    → Fenced db m
    → marker_key_eq a.keys.cancel m ≡ false
    → Fenced (accept db a).0 m
unfolding accept
Fenced-accept m db a f h = ground (arith, Fenced-start m db a f h)

Fenced-parent :
    (m : MarkerKey) (db : Db) (a : FinishArgs) → Fenced db m → Fenced (finish_parent db a) m
unfolding finish_parent
Fenced-parent m db a f = ground arith

Fenced-finish :
    (m : MarkerKey) (db : Db) (a : FinishArgs)
    → Fenced db m
    → marker_key_eq a.keys.cancel m ≡ false
    → Fenced (finish db a).0 m
unfolding finish
Fenced-finish m db a f h =
    let p =
      Fenced-SameMarkers m _ _ (Fenced-parent m db a f)
        (SameMarkers-stop_children a (db.sets a.children) (finish_parent db a)) in
    ground (arith, p)

-- A call that spares a set marker leaves it set, and lasting.
pub Fenced-call :
    (m : MarkerKey) (db : Db) (c : Call) → Fenced db m → spares c m ≡ true → Fenced (run db c) m
unfolding run
Fenced-call m db (cancel_call a) f h = Fenced-Fenced m a db (Fenced-fence_id m a db f)
Fenced-call m db (accept_call a) f h = Fenced-accept m db a f (ground arith)
Fenced-call m db (finish_call a) f h = Fenced-finish m db a f (ground arith)
Fenced-call m db (discard_call a) f h = unfold discard_records in ground arith
Fenced-call m db (reap_marker k) f h =
    unfold reap_marker_key in ground (arith, marker_key_eq_iff k m)
Fenced-call m db c f h = Fenced-SameMarkers m db _ f (SameMarkers-call db c refl)
