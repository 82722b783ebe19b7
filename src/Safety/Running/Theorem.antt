-- ===== src/Safety/Running/Theorem.antt =====
-- No call of another process takes a running attempt away from its token.
use kernel_gym.Prelude.{
  String, false, some, List, [], ◌∷◌, ◌≡◌, refl, arith, ◌==◌, ◌&&◌, Bool-cases, inl, inr,
}
use kernel_gym.Redis.Keys.{TaskKey, task_key_eq, task_key_eq_iff}
use kernel_gym.Redis.{Db}
use kernel_gym.Scripts.Schedule.{
  Call, submit_call, refresh_call, claim_call, mark_call, mark_cpu_call, return_call, ack_call,
  freeze_call, finalize_call, wait_call, requeue_call, cancel_call, accept_call, renew_call,
  finish_call, discard_call, tick, reap_task, reap_marker, run, run_all, reap_marker_key,
}
use kernel_gym.Safety.Stale.{carried, stale_call}
use kernel_gym.Safety.Running.{
  Running, Same, touches, Same-elsewhere, Same-OnlyQueues, Same-refl, Same-trans, Running-Same,
}
use kernel_gym.Safety.Running.Calls.{
  Same-submit, Same-refresh, Same-mark_cpu, Same-wait, Same-renew, Same-accept, Same-discard,
  Same-reap_task,
}
use kernel_gym.Safety.Running.Loops.{Same-claim, Same-cancel, Same-finish}

-- A carried call that does not act for the attempt: it names another task or another token.
Same-carried :
    (db : Db) (k : TaskKey) (t : String) (c : Call) (j : TaskKey) (u : String)
    → Running db k t
    → carried c ≡ some (j, u)
    → (task_key_eq j k && t == u) ≡ false
    → Same k db (run db c)
Same-carried db k t c j u r e h = elim (Bool-cases (task_key_eq j k)) [
  | inl same ↦
      Same-OnlyQueues k db _ (stale_call db c e (ground (arith, task_key_eq_iff j k, r.token)))
  | inr other ↦ Same-elsewhere db c k e other
]

-- While an attempt runs under its token, a call that does not act for this attempt and does not end
-- a workflow whose parent is the task leaves the task's status, its claim and its expiry as they are.
pub run-Running :
    (db : Db) (k : TaskKey) (t : String) (c : Call)
    → Running db k t
    → touches c k t ≡ false
    → Same k db (run db c)
run-Running db k t (submit_call j q i m) r h = Same-submit db k t r j q i m
run-Running db k t (refresh_call a) r h = Same-refresh db k t r a
run-Running db k t (claim_call n a) r h = unfold run in Same-claim k t n db a r
run-Running db k t (mark_call a) r h = Same-carried db k t (mark_call a) _ _ r refl h
run-Running db k t (mark_cpu_call j c p s) r h = Same-mark_cpu db k t r j c p s
run-Running db k t (return_call a) r h = Same-carried db k t (return_call a) _ _ r refl h
run-Running db k t (ack_call a) r h = Same-carried db k t (ack_call a) _ _ r refl h
run-Running db k t (freeze_call j u w n) r h =
    Same-carried db k t (freeze_call j u w n) _ _ r refl h
run-Running db k t (finalize_call a) r h = Same-carried db k t (finalize_call a) _ _ r refl h
run-Running db k t (wait_call a) r h = Same-wait db k t r a
run-Running db k t (requeue_call a) r h = Same-carried db k t (requeue_call a) _ _ r refl h
run-Running db k t (cancel_call a) r h = unfold run in Same-cancel k t db a r
run-Running db k t (accept_call a) r h = Same-accept db k t r a
run-Running db k t (renew_call a) r h = Same-renew db k t r a
run-Running db k t (finish_call a) r h = unfold run in Same-finish k t db a r h
run-Running db k t (discard_call a) r h = Same-discard db k t r a
run-Running db k t (tick d) r h =
    unfold run in record { status = refl; claim = refl; task_expiry = refl }
run-Running db k t (reap_task j) r h = Same-reap_task db k t r j
run-Running db k t (reap_marker j) r h =
    unfold run reap_marker_key in record { status = refl; claim = refl; task_expiry = refl }

abbrev pub Untouched : TaskKey → String → List Call → Type 0
Untouched k t [] = Unit {0}
Untouched k t (c ∷ cs) = (touches c k t ≡ false) × Untouched k t cs

-- A running attempt survives any schedule of calls that makes none under its token on its task and
-- does not end a workflow whose parent is that task: it still runs, and status, claim and
-- expiry of its task are as they were. The schedule may hold stale calls, claims, submissions,
-- refreshes, cancellations, the passing of time and the removal of expired keys.
pub run_all-Running :
    (db : Db) (k : TaskKey) (t : String) (cs : List Call)
    → Running db k t
    → Untouched k t cs
    → Running (run_all db cs) k t × Same k db (run_all db cs)
unfolding run_all
run_all-Running db k t [] r h = (r, Same-refl k db)
run_all-Running db k t (c ∷ cs) r h =
    let s = run-Running db k t c r h.0 in
    let (r', s') = run_all-Running (run db c) k t cs (Running-Same k t db _ r s) h.1 in
    (r', Same-trans k db (run db c) _ s s')
