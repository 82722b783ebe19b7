-- ===== src/Workflow/Waiting.antt =====
-- wait of `WorkflowLifecycle` (kernelgym/server/workflow_lifecycle.py). `poll` is the database at the start of each
-- round, since other processes change it between two rounds.
use kernel_gym.Prelude.{
  ℕ, zero, suc, String, Bool, true, false, not, Option, none, some, if◌then◌else◌, holds,
}
use kernel_gym.Redis.{Db, is_active, task_at}
use kernel_gym.Manager.State.{Settings}
use kernel_gym.Manager.Read.{ResultReply, finished, errored, get_task_result}
use kernel_gym.Workflow.Controller.{flow_keys}
use kernel_gym.Workflow.Reconcile.{reconcile}

pub data Waited : Type 0 where
  waits replaced other_generation unavailable : Waited
  gives : ResultReply → Waited

-- Whether a result is of the generation. An error without a payload has none.
abbrev pub is_of : String → ResultReply → Bool
is_of generation (finished at p) = holds p.workflow_generation generation
is_of generation (errored at e c) = false

abbrev pub judged : Settings → Db → String → String → Option ResultReply → Waited
judged c db id generation (some r) = if is_of generation r then gives r else other_generation
judged c db id generation none =
    if is_active (task_at db (flow_keys c id).task).status then waits else unavailable

unfoldable pub wait_round : Settings → (String → Bool) → Db → String → String → String → Db × Waited
wait_round c quarantined db id generation now =
    let after = reconcile c quarantined db id now in
    if not (holds (task_at after (flow_keys c id).task).flow.generation generation)
    then (after, replaced)
    else (after, judged c after id generation (get_task_result c after id none))

abbrev pub is_waiting : Waited → Bool
is_waiting waits = true
is_waiting _ = false

-- The rounds of the loop; the request's timeout ends it from outside.
unfoldable pub wait_rounds :
    ℕ → Settings → (String → Bool) → (ℕ → Db) → String → String → String → Waited
wait_rounds zero c quarantined poll id generation now = waits
wait_rounds (suc n) c quarantined poll id generation now =
    let rest = wait_rounds n c quarantined (λ i. poll (suc i)) id generation now in
    let r = (wait_round c quarantined (poll 0) id generation now).1 in
    if is_waiting r then rest else r
