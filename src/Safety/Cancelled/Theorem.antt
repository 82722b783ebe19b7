-- ===== src/Safety/Cancelled/Theorem.antt =====
-- A cancelled task is never admitted or handed out again.
use kernel_gym.Prelude.{
  ℕ, some, String, true, false, List, [], ◌∷◌, ◌≡◌, refl, arith, is_some, contains, or_else, Option,
  ◌≢◌, beq_refl, subst, sym,
}
use kernel_gym.Redis.Keys.{TaskKey, QueueKey, MarkerKey, marker_key_eq_iff, marker_key_Eq}
use kernel_gym.Redis.{Db, TaskHash, Flow, any_marked, task_at, set_marker}
use kernel_gym.Scripts.Guard.{workflow_allowed, workflow_task_allowed}
use kernel_gym.Scripts.Code.{one, minus_five, zero_code}
use kernel_gym.Scripts.Dispatch.{
  ClaimArgs, claim_gpu_task, MarkArgs, claimable, mark_claim_processing, mark_cpu_processing,
}
use kernel_gym.Scripts.Submit.{RefreshArgs, submit_task_if_absent, force_refresh_task}
use kernel_gym.Scripts.Cancel.{CancelArgs, fence_id, cancel_task}
use kernel_gym.Scripts.Schedule.{Call, run, run_all}
use kernel_gym.Admission.Claiming.{key_in, claim_owned}
use kernel_gym.Safety.Cancelled.{Fenced, spares}
use kernel_gym.Safety.Cancelled.Fences.{Fenced-call, Fenced-Fenced}

abbrev pub Spared : MarkerKey → List Call → Type 0
Spared m [] = Unit {0}
Spared m (c ∷ cs) = (spares c m ≡ true) × Spared m cs

Fenced-all :
    (m : MarkerKey) (db : Db) (cs : List Call)
    → Fenced db m
    → Spared m cs
    → Fenced (run_all db cs) m
unfolding run_all
Fenced-all m db [] f h = f
Fenced-all m db (c ∷ cs) f h = Fenced-all m (run db c) cs (Fenced-call m db c f h.0) h.1

Fenced-set_self : (m : MarkerKey) (v : String) (db : Db) → Fenced (set_marker db m v) m
Fenced-set_self m v db = record { set = rw (beq_refl m) refl; lasting = rw (beq_refl m) refl }

Fenced-tombstone : (a : CancelArgs) (db : Db) → Fenced (fence_id a db) a.tombstone
unfolding fence_id
Fenced-tombstone a db = ground (arith, beq_refl a.tombstone)

-- A listed fence closes the guard.
any_marked_of :
    (m : MarkerKey) (ks : List MarkerKey) (markers : MarkerKey → Option String)
    → contains m ks ≡ true
    → is_some (markers m) ≡ true
    → any_marked markers ks ≡ true
unfolding any_marked contains
any_marked_of m [] markers c h = cc
any_marked_of m (k ∷ ks) markers c h =
    ground (arith, marker_key_eq_iff m k, any_marked_of m ks markers)

Fenced-closes :
    (db : Db) (m : MarkerKey) (f : Flow)
    → Fenced db m
    → contains m (or_else f.cancellation_keys []) ≡ true
    → workflow_allowed db f ≡ false
unfolding workflow_allowed
Fenced-closes db m f h c =
    rw (any_marked_of m (or_else f.cancellation_keys []) db.markers c h.set) refl

-- What a task of a closed flow can no longer be: created by a submission or a refresh, claimed, or started on a
-- GPU or on the CPU.
pub record Stopped (db : Db) (f : Flow) : Type 0 where
  pub refused : workflow_allowed db f ≡ false
  pub not_created :
      (k : TaskKey) (q : QueueKey) (id : String) (m : TaskHash)
      → m.flow ≡ f
      → (submit_task_if_absent db k q id m).1 ≢ one
  pub not_refreshed :
      (a : RefreshArgs)
      → a.mapping.flow ≡ f
      → ((force_refresh_task db a).0 ≡ db) × ((force_refresh_task db a).1 ≡ minus_five)
  pub not_claimed : (k : TaskKey) → (task_at db k).flow ≡ f → claimable db k ≡ false
  pub not_handed_out :
      (n : ℕ) (a : ClaimArgs) (id : String)
      → (task_at db (key_in a id)).flow ≡ f
      → (claim_gpu_task n db a).1 ≢ some id
  pub not_started :
      (a : MarkArgs) → (task_at db a.task).flow ≡ f → (mark_claim_processing db a).1 ≢ one
  pub not_started_on_cpu :
      (k : TaskKey) (own parent : MarkerKey) (at : String)
      → (task_at db k).flow ≡ f
      → mark_cpu_processing db k own parent at ≡ (db, zero_code)

at_flow :
    (db : Db) (f g : Flow) → workflow_allowed db f ≡ false → g ≡ f → workflow_allowed db g ≡ false
at_flow db f g h e = subst (λ x. workflow_allowed db x ≡ false) (sym e) h

task_refused :
    (db : Db) (f : Flow) (k : TaskKey)
    → workflow_allowed db f ≡ false
    → (task_at db k).flow ≡ f
    → workflow_task_allowed db k ≡ false
unfolding workflow_task_allowed
task_refused db f k h e = at_flow db f (task_at db k).flow h e

pub Stopped-refused : (db : Db) (f : Flow) → workflow_allowed db f ≡ false → Stopped db f
unfolding claimable submit_task_if_absent mark_claim_processing force_refresh_task
    mark_cpu_processing
Stopped-refused db f h = record {
  refused = h;
  not_created = λ k q id m e. let w = at_flow db f m.flow h e in rw w (λ x. cc);
  not_refreshed = λ a e. let w = at_flow db f a.mapping.flow h e in rw w (refl, refl);
  not_claimed = λ k e. let w = task_refused db f k h e in rw w (ground arith);
  not_handed_out = λ n a id e x.
      let w = task_refused db f (key_in a id) h e in
      ground (arith, w, (claim_owned n db a id x).was_admitted);
  not_started = λ a e x. let w = task_refused db f a.task h e in ground arith;
  not_started_on_cpu = λ k own parent at e. let w = task_refused db f k h e in ground arith;
}

abbrev keys_of : Flow → List MarkerKey
keys_of f = or_else f.cancellation_keys []

-- Once a task is cancelled, a mapping or a task hash that lists its tombstone is refused by the
-- admission guard: it is never created by a submission or a refresh, claimed, or started on a GPU or on the
-- CPU, after any schedule of calls that spares the tombstone.
pub cancel_is_final :
    (db : Db) (a : CancelArgs) (cs : List Call) (f : Flow)
    → Spared a.tombstone cs
    → contains a.tombstone (keys_of f) ≡ true
    → Stopped (run_all (cancel_task db a) cs) f
cancel_is_final db a cs f s c =
    let fenced = Fenced-Fenced a.tombstone a db (Fenced-tombstone a db) in
    Stopped-refused _ f
      (Fenced-closes _ a.tombstone f (Fenced-all a.tombstone (cancel_task db a) cs fenced s) c)
