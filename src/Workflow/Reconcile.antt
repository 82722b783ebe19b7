-- ===== src/Workflow/Reconcile.antt =====
-- reconcile and one round of watch of `WorkflowLifecycle` (kernelgym/server/workflow_lifecycle.py).
-- `quarantined` is what `read_gpu_quarantine` answers for a worker.
use Prim.Native.String.{◌++◌ as join, compare}
use Prim.Native.Nat.{Ordering}
use kernel_gym.Prelude.{
  String, Bool, not, ◌||◌, ◌&&◌, List, [], ◌∷◌, ◌++◌, ◌==◌, or_else, if◌then◌else◌, leb, holds,
  is_blank, text_of, map,
}
use kernel_gym.Redis.Keys.{Stage, tombstone_key, children_key}
use kernel_gym.Redis.{Db, TaskHash, is_active, is_frozen, task_at, marked, any_marked, lease_owner}
use kernel_gym.Scripts.Cancel.{failure_payload}
use kernel_gym.Manager.State.{Settings}
use kernel_gym.Workflow.Controller.{flow_keys, finish_workflow}

-- `sorted` of a set: each id once, in the order of its text.
abbrev place : Ordering → String → String → List String → List String → List String
place Ordering.lt x y ys rest = x ∷ y ∷ ys
place Ordering.eq x y ys rest = y ∷ ys
place Ordering.gt x y ys rest = y ∷ rest

unfoldable pub insert_once : String → List String → List String
insert_once x [] = x ∷ []
insert_once x (y ∷ ys) = let rest = insert_once x ys in place (compare x y) x y ys rest

unfoldable pub sorted_once : List String → List String
unfolding insert_once
sorted_once [] = []
sorted_once (x ∷ xs) = insert_once x (sorted_once xs)

abbrev pub worker_of : TaskHash → String
worker_of h = if is_blank h.claim.worker then text_of h.assigned_worker else text_of h.claim.worker

abbrev pub worker_reason : (String → Bool) → String → String → String
worker_reason quarantined child worker =
    if not (worker == "") && quarantined worker
    then join "Infrastructure failure: child "
        (join child (join " worker " (join worker " quarantined")))
    else ""

-- Why a child ends its workflow, or nothing.
unfoldable pub child_reason : Settings → (String → Bool) → Db → String → String
child_reason c quarantined db child =
    let h = task_at db (record { prefix = c.key_prefix; id = child }) in
    if marked db (tombstone_key c.key_prefix child)
      || any_marked db.markers (or_else h.flow.cancellation_keys [])
    then join "Child task " (join child " cancelled")
    else if is_frozen h.claim.recovery_state
    then join "Infrastructure failure: child "
        (join child (join " frozen: " (text_of h.claim.recovery_reason)))
    else if not (is_active h.status)
    then ""
    else worker_reason quarantined child (worker_of h)

unfoldable pub first_reason : (String → String) → List String → String
first_reason reason_of [] = ""
first_reason reason_of (x ∷ xs) =
    let rest = first_reason reason_of xs in if reason_of x == "" then rest else reason_of x

abbrev pub ids_of : List (Stage × String) → List String
ids_of cs = map (λ c. c.1) cs

-- The children that the record names and those that were registered.
unfoldable pub children_of : Settings → Db → String → List String
children_of c db id =
    let h = task_at db (flow_keys c id).task in
    sorted_once (
      ids_of (or_else h.parent.children [])
      ++ db.sets (children_key c.key_prefix id (text_of h.flow.generation)))

unfoldable pub stop_reason : Settings → (String → Bool) → Db → String → String
stop_reason c quarantined db id =
    let h = task_at db (flow_keys c id).task in
    if leb (or_else h.flow.deadline 0) db.clock
    then "Workflow end-to-end deadline exceeded"
    else if not (holds (lease_owner db (flow_keys c id).lease) (text_of h.flow.generation))
    then "Workflow owner lease expired"
    else if marked db (tombstone_key c.key_prefix id)
    then "Task cancelled"
    else first_reason (child_reason c quarantined db) (children_of c db id)

abbrev pub is_running : TaskHash → Bool
is_running h = is_active h.status && not (is_blank h.flow.generation)

unfoldable pub reconcile : Settings → (String → Bool) → Db → String → String → Db
reconcile c quarantined db id now =
    let h = task_at db (flow_keys c id).task in
    let reason = stop_reason c quarantined db id in
    if not (is_running h)
    then db
    else if reason == ""
    then db
    else (finish_workflow c db id (text_of h.flow.generation) (failure_payload id reason) reason
        now).0

-- One round of `watch`: every id of the set of active workflows.
unfoldable pub reconcile_all : Settings → (String → Bool) → List String → String → Db → Db
reconcile_all c quarantined [] now db = db
reconcile_all c quarantined (id ∷ ids) now db =
    reconcile_all c quarantined ids now (reconcile c quarantined db id now)
