-- ===== src/Examples/Flows.antt =====
-- A workflow that is accepted, renewed, ended and read.
use kernel_gym.Prelude.{ℕ, String, Bool, true, false, none, some, [], ◌∷◌, ◌≡◌, refl, arith, ◌==◌}
use kernel_gym.Redis.{Db, TaskHash, task_at}
use kernel_gym.Redis.Keys.{TaskKey}
use kernel_gym.Scripts.Lifecycle.{FinishArgs, final_result}
use kernel_gym.Scripts.Schedule.{tick, run_all}
use kernel_gym.Safety.Cancelled.Theorem.{Stopped}
use kernel_gym.Manager.Read.{finished}
use kernel_gym.Workflow.Controller.{
  FlowRequest, accepted, accept_workflow, renew_workflow, accept_args, shut_down, race_result,
  finish_args, run_workflow,
}
use kernel_gym.Scripts.Lifecycle.{new_parent}
use kernel_gym.Workflow.Reconcile.{reconcile, stop_reason}
use kernel_gym.Workflow.Waiting.{gives, wait_round}
use kernel_gym.Workflow.Reasons.{MustStop, lease_gone}
use kernel_gym.Workflow.Closing.{reconcile_closes, reconcile_settles}
use kernel_gym.Workflow.Own.{second_accept_joins, accept_then_renew}
use kernel_gym.Workflow.Delivery.{run_then_wait}
use kernel_gym.Examples.Data.{settings, empty_db, flow_db, child_flow}

abbrev flow_request : FlowRequest
flow_request = record {
  id = "p1";
  request_hash = "h";
  name = "evaluate";
  timeout = 800;
  force = false;
}

abbrev first_record : TaskHash
first_record = new_parent empty_db (accept_args settings flow_request "g1" 5 "s")

accepts : (accept_workflow settings empty_db flow_request "g1" 5 "s").1 ≡ accepted true first_record
unfolding accept_workflow kernel_gym.Scripts.Lifecycle.accept kernel_gym.Redis.lease_owner
    new_parent kernel_gym.Redis.Keys.task_key_eq
accepts = refl

accept_then_renew_example :
    (renew_workflow settings
      (accept_workflow settings empty_db flow_request "g1" 5 "s").0
      "p1"
      "g1"
      5
      "t").1
    ≡ true
accept_then_renew_example =
    accept_then_renew settings empty_db flow_request "g1" 5 "s" "t" first_record accepts
      (omega arith) (omega arith)

second_accept_joins_example :
    (accept_workflow settings
        (accept_workflow settings empty_db flow_request "g1" 5 "s").0
        flow_request
        "g2"
        5
        "t"
      ≡ (
        (accept_workflow settings empty_db flow_request "g1" 5 "s").0,
        accepted false first_record,
      ))
    × (first_record.flow.generation ≡ some "g1")
second_accept_joins_example =
    second_accept_joins settings empty_db flow_request "g1" "g2" 5 "s" "t" first_record accepts

abbrev none_quarantined : String → Bool
none_quarantined w = false

-- The controller's process is gone and its lease is over.
abbrev orphan_db : Db
orphan_db = record flow_db { leases = λ k. none }

orphaned : (stop_reason settings none_quarantined orphan_db "p1" == "") ≡ false
unfolding stop_reason kernel_gym.Redis.Keys.task_key_eq kernel_gym.Redis.lease_owner
orphaned = refl

no_lease : MustStop settings none_quarantined orphan_db "p1"
unfolding kernel_gym.Redis.Keys.task_key_eq kernel_gym.Redis.lease_owner
no_lease = lease_gone refl

reconcile_closes_example :
    Stopped
      (run_all (reconcile settings none_quarantined orphan_db "p1" "n") (tick 5 ∷ []))
      child_flow
unfolding kernel_gym.Redis.Keys.task_key_eq
reconcile_closes_example =
    reconcile_closes settings none_quarantined orphan_db "p1" "n" "g1" (tick 5 ∷ []) child_flow refl
      refl refl no_lease (refl, tt) refl refl

reconcile_settles_example :
    reconcile settings none_quarantined
      (reconcile settings none_quarantined orphan_db "p1" "n")
      "p1"
      "m"
    ≡ reconcile settings none_quarantined orphan_db "p1" "n"
reconcile_settles_example =
    reconcile_settles settings none_quarantined none_quarantined orphan_db "p1" "n" "m" orphaned

abbrev shutdown_args : FinishArgs
shutdown_args =
    finish_args settings "p1" "g1" (race_result "p1" shut_down).0 (race_result "p1" shut_down).1 "n"

run_then_wait_example :
    (wait_round settings none_quarantined
      (run_workflow settings flow_db "p1" "g1" shut_down "n").0
      "p1"
      "g1"
      "m").1
    ≡ gives (finished (some "n") (final_result flow_db shutdown_args))
unfolding kernel_gym.Redis.Keys.task_key_eq
run_then_wait_example =
    run_then_wait settings none_quarantined flow_db "p1" "g1" shut_down "n" "m" refl refl refl

abbrev ended_polls : ℕ → Db
ended_polls i = (run_workflow settings flow_db "p1" "g1" shut_down "n").0
