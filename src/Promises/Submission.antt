-- ===== src/Promises/Submission.antt =====
-- What a caller reads after a submission: submit_task against get_task_status
-- (kernelgym/server/task_manager.py).
use kernel_gym.Prelude.{
  String, true, false, none, some, List, ◌≡◌, subst, ap, ◌∙◌, sym, refl, ◌==◌, beq_refl, count,
}
use kernel_gym.Redis.Keys.{
  task_key_Eq, QueueKey, resource_queue, worker_queue, queue_key_Eq, waiting, item_Eq,
}
use kernel_gym.Redis.{pending, task_exists}
use kernel_gym.Scripts.Guard.{workflow_allowed}
use kernel_gym.Scripts.Submit.{submit_task_if_absent}
use kernel_gym.Admission.Submitting.{count-requeued}
use kernel_gym.Manager.State.{
  Settings, resolve_required_resource, Server, Reply, raises, returns, workflow_stopped,
}
use kernel_gym.Manager.Finish.{key_of}
use kernel_gym.Manager.Submit.{
  Request, is_listed, submitted_mapping, destination_queue, submit_reply, submit_by, submit_task,
}
use kernel_gym.Manager.Read.{StatusReply, status_under, get_task_status, task_reply}

-- A request that can be served: known names, and no forced refresh.
pub record Plain (toolkits backends : List String) (r : Request) : Type 0 where
  pub toolkit : is_listed r.toolkit toolkits ≡ true
  pub backend : is_listed r.backend_adapter backends ≡ true
  pub plain : r.json.force_refresh ≡ false

-- What a first submission leaves.
pub record Waits (conf : Settings) (r : Request) (s' : Server) (reply : Reply String) : Type 0 where
  pub accepted : reply ≡ returns r.json.task_id
  -- an assigned task waits in its worker's queue, any other in that of the resource that it needs
  pub assigned :
      (r.json.assigned_worker == "") ≡ false
      → count
          (waiting r.json.task_id)
          (s'.db.queues (worker_queue conf.key_prefix r.json.assigned_worker))
        ≡ 1
  pub unassigned :
      (r.json.assigned_worker == "") ≡ true
      → count
          (waiting r.json.task_id)
          (s'.db.queues (resource_queue conf.key_prefix (resolve_required_resource r.json)))
        ≡ 1
  pub read :
      (st : StatusReply) × (get_task_status conf s'.db r.json.task_id ≡ some st)
      × (st.status ≡ pending)

module _ (toolkits backends : List String) (conf : Settings) (s : Server) (r : Request)
    (worker_queues : List QueueKey) (now : String) (ok : Plain toolkits backends r) where
  plain_submit :
      submit_task toolkits backends conf s r worker_queues now
      ≡ submit_by false conf s r worker_queues now
  unfolding submit_task
  plain_submit =
      rw ok.toolkit (rw ok.backend (ap (λ b. submit_by b conf s r worker_queues now) ok.plain))

  new-once :
      workflow_allowed s.db (submitted_mapping conf r now).flow ≡ true
      → task_exists s.db (key_of conf.key_prefix r.json.task_id) ≡ false
      → count
          (waiting r.json.task_id)
          ((submit_by false conf s r worker_queues now).0.db.queues (destination_queue conf r.json))
        ≡ 1
  unfolding submit_by submit_task_if_absent submit_reply
  new-once g a = rw g (
      rw a (
        rw (beq_refl (destination_queue conf r.json))
          (count-requeued (waiting r.json.task_id) (s.db.queues (destination_queue conf r.json)))))

  new-reply :
      workflow_allowed s.db (submitted_mapping conf r now).flow ≡ true
      → task_exists s.db (key_of conf.key_prefix r.json.task_id) ≡ false
      → (submit_by false conf s r worker_queues now).1 ≡ returns r.json.task_id
  unfolding submit_by submit_task_if_absent submit_reply
  new-reply g a = rw g (rw a refl)

  new-read :
      workflow_allowed s.db (submitted_mapping conf r now).flow ≡ true
      → task_exists s.db (key_of conf.key_prefix r.json.task_id) ≡ false
      → s.db.results (key_of conf.key_prefix r.json.task_id) ≡ none
      → (st : StatusReply) × (get_task_status conf
            (submit_by false conf s r worker_queues now).0.db
            r.json.task_id
          ≡ some st)
        × (st.status ≡ pending)
  unfolding submit_by submit_task_if_absent get_task_status status_under submit_reply
      submitted_mapping
  new-read g a n = (
    task_reply (submitted_mapping conf r now),
    rw g (rw a (rw n (rw (beq_refl (key_of conf.key_prefix r.json.task_id)) refl))),
    refl,
  )

  -- The destination of a task, by whether it is assigned.
  destination-assigned :
      (r.json.assigned_worker == "") ≡ false
      → destination_queue conf r.json ≡ worker_queue conf.key_prefix r.json.assigned_worker
  unfolding destination_queue
  destination-assigned e = rw e refl

  destination-unassigned :
      (r.json.assigned_worker == "") ≡ true
      → destination_queue conf r.json
        ≡ resource_queue conf.key_prefix (resolve_required_resource r.json)
  unfolding destination_queue
  destination-unassigned e = rw e refl

  new-Waits :
      workflow_allowed s.db (submitted_mapping conf r now).flow ≡ true
      → task_exists s.db (key_of conf.key_prefix r.json.task_id) ≡ false
      → s.db.results (key_of conf.key_prefix r.json.task_id) ≡ none
      → let x = submit_by false conf s r worker_queues now in Waits conf r x.0 x.1
  new-Waits g a n =
      let queues = (submit_by false conf s r worker_queues now).0.db.queues in
      record {
        accepted = new-reply g a;
        assigned = λ e.
            subst (λ q. count (waiting r.json.task_id) (queues q) ≡ 1) (destination-assigned e)
              (new-once g a);
        unassigned = λ e.
            subst (λ q. count (waiting r.json.task_id) (queues q) ≡ 1) (destination-unassigned e)
              (new-once g a);
        read = new-read g a n;
      }

  -- A request with known names that forces no refresh, for a task that is not there and has no result,
  -- under a workflow guard that admits it: the id is returned, is read as pending, and
  -- waits exactly once in its queue: that of its worker where it is assigned to one, else that of the resource that it needs.
  pub submit_then_read :
      workflow_allowed s.db (submitted_mapping conf r now).flow ≡ true
      → task_exists s.db (key_of conf.key_prefix r.json.task_id) ≡ false
      → s.db.results (key_of conf.key_prefix r.json.task_id) ≡ none
      → let x = submit_task toolkits backends conf s r worker_queues now in Waits conf r x.0 x.1
  submit_then_read g a n = subst (λ x. Waits conf r x.0 x.1) (sym plain_submit) (new-Waits g a n)

  existing_kept :
      workflow_allowed s.db (submitted_mapping conf r now).flow ≡ true
      → task_exists s.db (key_of conf.key_prefix r.json.task_id) ≡ true
      → submit_by false conf s r worker_queues now ≡ (s, returns r.json.task_id)
  unfolding submit_by submit_task_if_absent submit_reply
  existing_kept g a = rw g (rw a refl)

  refused :
      workflow_allowed s.db (submitted_mapping conf r now).flow ≡ false
      → submit_by false conf s r worker_queues now ≡ (s, raises workflow_stopped)
  unfolding submit_by submit_task_if_absent submit_reply
  refused g = rw g refl

  -- Such a request for a task that is there, under a guard that admits it, returns the id and changes nothing on the
  -- server; under a guard that refuses it, it raises the error of a stopped workflow and changes nothing either.
  pub resubmit_changes_nothing :
      (workflow_allowed s.db (submitted_mapping conf r now).flow ≡ true
        → task_exists s.db (key_of conf.key_prefix r.json.task_id) ≡ true
        → submit_task toolkits backends conf s r worker_queues now ≡ (s, returns r.json.task_id))
      × (workflow_allowed s.db (submitted_mapping conf r now).flow ≡ false
          → submit_task toolkits backends conf s r worker_queues now ≡ (s, raises workflow_stopped))
  resubmit_changes_nothing =
      (λ g a. plain_submit ∙ existing_kept g a, λ g. plain_submit ∙ refused g)
