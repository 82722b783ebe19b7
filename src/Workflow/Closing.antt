-- ===== src/Workflow/Closing.antt =====
-- How a workflow ends, by its controller or by the reconciliation (kernelgym/server/workflow_lifecycle.py).
use kernel_gym.Prelude.{
  String, Bool, true, false, ◌&&◌, Option, none, some, List, [], ◌∷◌, ◌≡◌, ◌∙◌, subst, arith, refl,
  ◌==◌, holds, holds_self, text_of, Bool-cases, inl, inr,
}
use kernel_gym.Redis.Keys.{TaskKey, task_key_Eq, task_key_eq_iff}
use kernel_gym.Redis.{Db, Flow, is_active, is_terminal, task_at}
use kernel_gym.Scripts.Code.{one}
use kernel_gym.Scripts.Cancel.{failure_payload}
use kernel_gym.Scripts.Lifecycle.{
  FinishArgs, finish, finish_parent, stop_child, stop_children, child_key,
}
use kernel_gym.Scripts.Schedule.{Call, run_all}
use kernel_gym.Safety.Cancelled.Theorem.{Stopped}
use kernel_gym.Safety.Ended.{Ended}
use kernel_gym.Safety.Ended.Theorem.{Fresh, finish_is_final, finish-Ended, finish-tasks}
use kernel_gym.Manager.State.{Settings}
use kernel_gym.Manager.Finish.{task_status_from_result_payload}
use kernel_gym.Manager.Read.{payload_status}
use kernel_gym.Workflow.Controller.{
  flow_keys, finish_args, finish_workflow, Race, completes, lease_lost, past_deadline, shut_down,
  crashes, race_result, run_workflow,
}
use kernel_gym.Workflow.Reasons.{MustStop, MustStop-reason}
use kernel_gym.Workflow.Reconcile.{is_running, stop_reason, reconcile}

pub race_result-terminal :
    (id : String) (r : Race) → is_terminal (some (race_result id r).0.status) ≡ true
unfolding race_result payload_status task_status_from_result_payload
race_result-terminal id (completes p) = ground arith
race_result-terminal id lease_lost = refl
race_result-terminal id past_deadline = refl
race_result-terminal id shut_down = refl
race_result-terminal id (crashes t) = refl

abbrev runs_as : Db → FinishArgs → Bool
runs_as db a =
    holds (task_at db a.keys.task).flow.generation a.generation
    && is_active (task_at db a.keys.task).status

pub finish-one : (db : Db) (a : FinishArgs) → runs_as db a ≡ true → (finish db a).1 ≡ one
unfolding finish
finish-one db a h = ground arith

finish-over :
    (db : Db) (a : FinishArgs)
    → runs_as db a ≡ false
    → Ended (finish db a).0 a.keys.task a.generation
unfolding finish
finish-over db a h = record { over = ground arith }

-- A finish of an active workflow of its generation succeeds; any other finds it ended.
finish-cases :
    (db : Db) (a : FinishArgs)
    → is_terminal (some a.result.status) ≡ true
    → Ended (finish db a).0 a.keys.task a.generation
finish-cases db a t = elim (Bool-cases (runs_as db a)) [
  | inl h ↦ finish-Ended db a (finish-one db a h) t
  | inr h ↦ finish-over db a h
]

-- A controller ends its workflow however it stops: with a result, at the deadline, when the lease is lost, at a
-- shutdown or by an exception. Afterwards the workflow is no active workflow of its generation.
pub run_workflow-Ended :
    (c : Settings) (db : Db) (id generation : String) (race : Race) (now : String)
    → Ended (run_workflow c db id generation race now).0 (flow_keys c id).task generation
unfolding run_workflow finish_workflow
run_workflow-Ended c db id generation race now =
    finish-cases db
      (finish_args c id generation (race_result id race).0 (race_result id race).1 now)
      (race_result-terminal id race)

reconcile-finish :
    (c : Settings) (quarantined : String → Bool) (db : Db) (id now : String)
    → is_running (task_at db (flow_keys c id).task) ≡ true
    → (stop_reason c quarantined db id == "") ≡ false
    → reconcile c quarantined db id now
      ≡ (finish db (
          finish_args c id
            (text_of (task_at db (flow_keys c id).task).flow.generation)
            (failure_payload id (stop_reason c quarantined db id))
            (stop_reason c quarantined db id)
            now)).0
unfolding reconcile finish_workflow
reconcile-finish c quarantined db id now h r = ground (arith, h, r)

-- An active workflow that must stop is closed by the reconciliation: where its deadline is over, its owner's lease is
-- gone or another's, it was cancelled, or a child that it names or that was registered for it is cancelled,
-- fenced by a marker, frozen, or active on a quarantined worker. Afterwards a child of that generation is
-- refused by the guard: it is never created by a submission or a refresh, claimed, or started on a GPU or on the CPU,
-- after any schedule of calls that keeps to the server's discipline.
pub reconcile_closes :
    (c : Settings) (quarantined : String → Bool) (db : Db) (id now generation : String)
    (cs : List Call) (f : Flow)
    → is_active (task_at db (flow_keys c id).task).status ≡ true
    → (task_at db (flow_keys c id).task).flow.generation ≡ some generation
    → (generation == "") ≡ false
    → MustStop c quarantined db id
    → Fresh (flow_keys c id).task generation cs
    → f.generation ≡ some generation
    → f.parent_key ≡ some (flow_keys c id).task
    → Stopped (run_all (reconcile c quarantined db id now) cs) f
reconcile_closes c quarantined db id now generation cs f a g n m fresh p q =
    let r = MustStop-reason c quarantined db id m in
    rw (reconcile-finish c quarantined db id now (ground (arith, a, g, n)) r) (
      rw g (
        finish_is_final db
          (finish_args c id generation (failure_payload id (stop_reason c quarantined db id))
            (stop_reason c quarantined db id) now)
          cs f (finish-one db _ (ground (arith, a, g, holds_self generation))) refl fresh p n q))

-- A child's end does not touch the workflow that a task belongs to.
stop_child-flow :
    (a : FinishArgs) (child : String) (db : Db) (k : TaskKey)
    → (task_at (stop_child a child db) k).flow.generation ≡ (task_at db k).flow.generation
unfolding stop_child
stop_child-flow a child db k = ground (arith, task_key_eq_iff (child_key a child) k)

stop_children-flow :
    (a : FinishArgs) (children : List String) (db : Db) (k : TaskKey)
    → (task_at (stop_children a children db) k).flow.generation ≡ (task_at db k).flow.generation
unfolding stop_children
stop_children-flow a [] db k = refl
stop_children-flow a (child ∷ rest) db k =
    stop_children-flow a rest (stop_child a child db) k ∙ stop_child-flow a child db k

finish_parent-flow :
    (db : Db) (a : FinishArgs) (k : TaskKey)
    → (task_at (finish_parent db a) k).flow.generation ≡ (task_at db k).flow.generation
unfolding finish_parent
finish_parent-flow db a k = ground (arith, task_key_eq_iff a.keys.task k)

pub finish-flow :
    (db : Db) (a : FinishArgs) (k : TaskKey)
    → (finish db a).1 ≡ one
    → (task_at (finish db a).0 k).flow.generation ≡ (task_at db k).flow.generation
finish-flow db a k h =
    rw (finish-tasks db a h)
      (stop_children-flow a (db.sets a.children) (finish_parent db a) k ∙ finish_parent-flow db a k)

-- A workflow that is no active workflow of its own generation does not run.
Ended-stands :
    (db : Db) (k : TaskKey) (o : Option String)
    → Ended db k (text_of o)
    → (task_at db k).flow.generation ≡ o
    → is_running (task_at db k) ≡ false
Ended-stands db k none e g = ground (arith, g)
Ended-stands db k (some x) e g = ground (arith, g, e.over, holds_self x)

pub reconcile-rests :
    (c : Settings) (quarantined : String → Bool) (db : Db) (id now : String)
    → is_running (task_at db (flow_keys c id).task) ≡ false
    → reconcile c quarantined db id now ≡ db
unfolding reconcile
reconcile-rests c quarantined db id now h = ground (arith, h)

reconcile-quiet :
    (c : Settings) (quarantined : String → Bool) (db : Db) (id now : String)
    → (stop_reason c quarantined db id == "") ≡ true
    → reconcile c quarantined db id now ≡ db
unfolding reconcile
reconcile-quiet c quarantined db id now h = ground (arith, h)

running-runs :
    (db : Db) (a : FinishArgs)
    → is_running (task_at db a.keys.task) ≡ true
    → a.generation ≡ text_of (task_at db a.keys.task).flow.generation
    → runs_as db a ≡ true
running-runs db a h g = ground (arith, h, g, holds_self a.generation)

pub finish-rests :
    (db : Db) (a : FinishArgs)
    → is_running (task_at db a.keys.task) ≡ true
    → a.generation ≡ text_of (task_at db a.keys.task).flow.generation
    → is_terminal (some a.result.status) ≡ true
    → is_running (task_at (finish db a).0 a.keys.task) ≡ false
finish-rests db a h g t =
    Ended-stands (finish db a).0 a.keys.task (task_at db a.keys.task).flow.generation
      (subst (λ x. Ended (finish db a).0 a.keys.task x) g (finish-cases db a t))
      (finish-flow db a a.keys.task (finish-one db a (running-runs db a h g)))

-- The reconciliation of a workflow that has a reason to stop settles it at once: a second one, at any stamp and
-- with any answers of the quarantine, changes nothing.
pub reconcile_settles :
    (c : Settings) (quarantined quarantined' : String → Bool) (db : Db) (id now now' : String)
    → (stop_reason c quarantined db id == "") ≡ false
    → reconcile c quarantined' (reconcile c quarantined db id now) id now'
      ≡ reconcile c quarantined db id now
reconcile_settles c quarantined quarantined' db id now now' r =
    elim (Bool-cases (is_running (task_at db (flow_keys c id).task))) [
      | inl h ↦
          rw (reconcile-finish c quarantined db id now h r)
            (reconcile-rests c quarantined' _ id now' (finish-rests db _ h refl refl))
      | inr h ↦
          rw (reconcile-rests c quarantined db id now h)
            (reconcile-rests c quarantined' db id now' h)
    ]
