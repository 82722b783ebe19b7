-- ===== src/Workflow/Delivery.antt =====
-- The end of a workflow reaches those that wait for it (kernelgym/server/workflow_lifecycle.py).
use kernel_gym.Prelude.{
  String, Bool, true, false, Option, none, some, List, [], ◌∷◌, ◌≡◌, ◌∙◌, arith, refl, ◌==◌,
  holds_self, beq_refl, or_else,
}
use kernel_gym.Redis.Keys.{TaskKey, task_key_Eq, task_key_eq_iff}
use kernel_gym.Redis.{
  Db, ResultHash, Payload, is_active, is_pending, is_terminal, task_at, blank_result,
}
use kernel_gym.Scripts.Lifecycle.{
  FinishArgs, finish, finish_parent, final_result, stop_child, stop_children, child_key,
}
use kernel_gym.Scripts.Code.{one}
use kernel_gym.Safety.Ended.Theorem.{final-terminal}
use kernel_gym.Manager.State.{Settings}
use kernel_gym.Manager.Read.{ResultReply, finished, get_task_result, result_under}
use kernel_gym.Workflow.Controller.{
  flow_keys, finish_args, finish_workflow, Race, race_result, run_workflow,
}
use kernel_gym.Workflow.Reconcile.{is_running}
use kernel_gym.Workflow.Waiting.{gives, is_of, wait_round}
use kernel_gym.Workflow.Closing.{
  finish-rests, finish-flow, finish-one, reconcile-rests, race_result-terminal,
}

-- A hash that does not wait, with the result under its key.
record Stored (db : Db) (k : TaskKey) (r : Option ResultHash) : Type 0 where
  idle : is_pending (task_at db k).status ≡ false
  result : db.results k ≡ r

Stored-stop_child :
    (a : FinishArgs) (child : String) (db : Db) (k : TaskKey) (r : Option ResultHash)
    → Stored db k r
    → Stored (stop_child a child db) k r
unfolding stop_child
Stored-stop_child a child db k r s = record {
  idle = ground (arith, s.idle, s.result, task_key_eq_iff (child_key a child) k);
  result = ground (arith, s.idle, s.result, task_key_eq_iff (child_key a child) k);
}

Stored-stop_children :
    (a : FinishArgs) (children : List String) (db : Db) (k : TaskKey) (r : Option ResultHash)
    → Stored db k r
    → Stored (stop_children a children db) k r
unfolding stop_children
Stored-stop_children a [] db k r s = s
Stored-stop_children a (child ∷ rest) db k r s =
    Stored-stop_children a rest (stop_child a child db) k r (Stored-stop_child a child db k r s)

abbrev stored_result : Db → FinishArgs → ResultHash
stored_result db a = record (or_else (db.results a.keys.task) blank_result) {
  result = some (final_result db a);
  completed_at = some a.now;
  request_hash = (task_at db a.keys.task).parent.request_hash;
}

Stored-finish_parent :
    (db : Db) (a : FinishArgs)
    → a.keys.result ≡ a.keys.task
    → is_terminal (some a.result.status) ≡ true
    → Stored (finish_parent db a) a.keys.task (some (stored_result db a))
unfolding finish_parent
Stored-finish_parent db a e t = record {
  idle = ground (arith, beq_refl a.keys.task, final-terminal db a t);
  result = rw e (ground (arith, beq_refl a.keys.task));
}

finish-results :
    (db : Db) (a : FinishArgs)
    → (finish db a).1 ≡ one
    → (finish db a).0.results ≡ (stop_children a (db.sets a.children) (finish_parent db a)).results
unfolding finish
finish-results db a h = ground arith

finish-stored :
    (db : Db) (a : FinishArgs)
    → (finish db a).1 ≡ one
    → a.keys.result ≡ a.keys.task
    → is_terminal (some a.result.status) ≡ true
    → (finish db a).0.results a.keys.task ≡ some (stored_result db a)
finish-stored db a h e t =
    rw (finish-results db a h)
      (Stored-stop_children a (db.sets a.children) (finish_parent db a) a.keys.task _
        (Stored-finish_parent db a e t)).result

get_task_result-stored :
    (c : Settings) (db : Db) (id : String) (r : ResultHash) (p : Payload) (now : String)
    → db.results (flow_keys c id).task ≡ some r
    → r.result ≡ some p
    → r.completed_at ≡ some now
    → get_task_result c db id none ≡ some (finished (some now) p)
unfolding get_task_result result_under
get_task_result-stored c db id r p now h e t = ground (arith, h, e, t)

final_result-generation :
    (db : Db) (a : FinishArgs) → (final_result db a).workflow_generation ≡ some a.generation
unfolding final_result
final_result-generation db a = refl

-- A waiting request reads the end of a workflow that is over.
wait_round-over :
    (c : Settings) (quarantined : String → Bool) (db : Db) (id generation now : String)
    (r : ResultReply)
    → is_running (task_at db (flow_keys c id).task) ≡ false
    → (task_at db (flow_keys c id).task).flow.generation ≡ some generation
    → get_task_result c db id none ≡ some r
    → is_of generation r ≡ true
    → (wait_round c quarantined db id generation now).1 ≡ gives r
unfolding wait_round
wait_round-over c quarantined db id generation now r n g h o =
    rw (reconcile-rests c quarantined db id now n) (ground (arith, g, h, o, holds_self generation))

-- However its controller stops, a running workflow ends with a result that every request waiting for its generation
-- is given at its next poll: the one that `finish` has judged, under the workflow's generation.
pub run_then_wait :
    (c : Settings) (quarantined : String → Bool) (db : Db) (id generation : String) (race : Race)
    (now now' : String)
    → is_active (task_at db (flow_keys c id).task).status ≡ true
    → (task_at db (flow_keys c id).task).flow.generation ≡ some generation
    → (generation == "") ≡ false
    → (wait_round c quarantined (run_workflow c db id generation race now).0 id generation now').1
      ≡ gives (
          finished (some now) (
            final_result db
              (finish_args c id generation (race_result id race).0 (race_result id race).1 now)))
unfolding run_workflow finish_workflow
run_then_wait c quarantined db id generation race now now' a g n =
    let f = finish_args c id generation (race_result id race).0 (race_result id race).1 now in
    let t = race_result-terminal id race in
    let o = finish-one db f (ground (arith, a, g, holds_self generation)) in
    wait_round-over c quarantined (finish db f).0 id generation now' _
      (finish-rests db f (ground (arith, a, g, n)) (ground (arith, g)) t)
      (finish-flow db f (flow_keys c id).task o ∙ g)
      (get_task_result-stored c (finish db f).0 id (stored_result db f) (final_result db f) now
        (finish-stored db f o refl t) refl refl)
      (ground (arith, final_result-generation db f, holds_self generation))
