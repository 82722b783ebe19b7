-- ===== src/Workflow/Own.antt =====
-- Whose workflow it is: the generation that is accepted, renewed and waited for
-- (kernelgym/server/workflow_lifecycle.py).
use kernel_gym.Prelude.{
  ℕ, zero, suc, ◌<◌, String, true, false, none, some, ◌≡◌, ◌∙◌, ap, ◌⊎◌, holds, arith, refl,
  holds_self, beq_refl, or_else,
}
use kernel_gym.Redis.Keys.{task_key_Eq, marker_key_Eq, tombstone_key, marker_key_eq_iff}
use kernel_gym.Redis.{Db, TaskHash, is_active, task_at, marked, any_marked, lease_owner}
use kernel_gym.Scripts.Code.{Code, one, zero_code}
use kernel_gym.Scripts.Guard.{workflow_allowed, parent_admits, parent_cancelled}
use kernel_gym.Scripts.Lifecycle.{
  AcceptArgs, RenewArgs, accept, renew, start_workflow, existing_code, new_parent,
}
use kernel_gym.Manager.State.{Settings}
use kernel_gym.Manager.Read.{ResultReply, get_task_result}
use kernel_gym.Workflow.Controller.{
  flow_keys, FlowRequest, accept_args, renew_args, acceptance, accepted, accept_workflow,
  renew_workflow,
}
use kernel_gym.Workflow.Waiting.{
  Waited, waits, replaced, other_generation, unavailable, gives, is_of, is_waiting,
}

-- What a poll of the database means for a request that waits for a generation.
abbrev pub Explains : Settings → Db → String → String → Waited → Type 0
Explains c db id generation waits =
    (holds (task_at db (flow_keys c id).task).flow.generation generation ≡ true)
    × ((get_task_result c db id none ≡ none)
        × (is_active (task_at db (flow_keys c id).task).status ≡ true))
Explains c db id generation replaced =
    holds (task_at db (flow_keys c id).task).flow.generation generation ≡ false
Explains c db id generation other_generation =
    (holds (task_at db (flow_keys c id).task).flow.generation generation ≡ true)
    × ((r : ResultReply) × ((get_task_result c db id none ≡ some r) × (is_of generation r ≡ false)))
Explains c db id generation unavailable =
    (holds (task_at db (flow_keys c id).task).flow.generation generation ≡ true)
    × ((get_task_result c db id none ≡ none)
        × (is_active (task_at db (flow_keys c id).task).status ≡ false))
Explains c db id generation (gives r) =
    (holds (task_at db (flow_keys c id).task).flow.generation generation ≡ true)
    × ((get_task_result c db id none ≡ some r) × (is_of generation r ≡ true))

-- The outcome of `n` polls: that of the first poll that does not tell to wait, or to wait.
abbrev pub Ends : ℕ → Settings → (ℕ → Db) → String → String → Waited → Type 0
Ends zero c polls id generation w = w ≡ waits
Ends (suc n) c polls id generation w =
    ((is_waiting w ≡ false) × Explains c (polls 0) id generation w)
    ⊎ (Explains c (polls 0) id generation waits × Ends n c (λ i. polls (suc i)) id generation w)

-- An acceptance of a new workflow has started it.
accept-new :
    (db : Db) (a : AcceptArgs)
    → (accept db a).1 ≡ one
    → ((accept db a).0 ≡ start_workflow db a) × (marked db a.tombstone ≡ false)
unfolding accept existing_code
accept-new db a h = ground (arith, h)

acceptance-true :
    (code : Code) (t h : TaskHash) → acceptance code t ≡ accepted true h → (code ≡ one) × (h ≡ t)
acceptance-true code t h e = ground (arith, e)

start_workflow-record :
    (db : Db) (a : AcceptArgs) → task_at (start_workflow db a) a.keys.task ≡ new_parent db a
unfolding start_workflow
start_workflow-record db a = ground (arith, beq_refl a.keys.task)

accept_workflow-new :
    (c : Settings) (db : Db) (r : FlowRequest) (g : String) (lease_ms : ℕ) (now : String)
    (h : TaskHash)
    → (accept_workflow c db r g lease_ms now).1 ≡ accepted true h
    → ((accept_workflow c db r g lease_ms now).0
        ≡ start_workflow db (accept_args c r g lease_ms now))
      × ((marked db (tombstone_key c.key_prefix r.id) ≡ false)
          × (h ≡ new_parent db (accept_args c r g lease_ms now)))
unfolding accept_workflow
accept_workflow-new c db r g lease_ms now h e =
    let a = accept_args c r g lease_ms now in
    let k = acceptance-true (accept db a).1 (task_at (accept db a).0 (flow_keys c r.id).task) h e in
    let n = accept-new db a k.0 in
    (
      n.0,
      (n.1, k.1 ∙ (ap (λ d. task_at d (flow_keys c r.id).task) n.0 ∙ start_workflow-record db a)),
    )

-- A request for a workflow that was just started, with the same content, finds it.
accept-again :
    (db : Db) (a b : AcceptArgs)
    → marked db a.tombstone ≡ false
    → b.keys ≡ a.keys
    → b.tombstone ≡ a.tombstone
    → b.request_hash ≡ a.request_hash
    → accept (start_workflow db a) b ≡ (start_workflow db a, zero_code)
unfolding accept existing_code start_workflow new_parent
accept-again db a b m k t e = ground (
  arith,
  m,
  k,
  t,
  e,
  beq_refl a.keys.task,
  marker_key_eq_iff a.keys.cancel a.tombstone,
  holds_self a.request_hash,
)

second_accept :
    (c : Settings) (db : Db) (r : FlowRequest) (g g' : String) (lease_ms : ℕ) (now now' : String)
    → marked db (tombstone_key c.key_prefix r.id) ≡ false
    → accept_workflow c (start_workflow db (accept_args c r g lease_ms now)) r g' lease_ms now' ≡ (
      start_workflow db (accept_args c r g lease_ms now),
      accepted false (new_parent db (accept_args c r g lease_ms now)),
    )
unfolding accept_workflow
second_accept c db r g g' lease_ms now now' m =
    rw
      (accept-again db (accept_args c r g lease_ms now) (accept_args c r g' lease_ms now') m refl
        refl refl)
      (rw (start_workflow-record db (accept_args c r g lease_ms now)) refl)

-- Two requests with one id: once the first has created the workflow, a second one with the same content joins it: it
-- is told of the first one's record, with its generation, and changes nothing.
pub second_accept_joins :
    (c : Settings) (db : Db) (r : FlowRequest) (g g' : String) (lease_ms : ℕ) (now now' : String)
    (h : TaskHash)
    → (accept_workflow c db r g lease_ms now).1 ≡ accepted true h
    → (accept_workflow c (accept_workflow c db r g lease_ms now).0 r g' lease_ms now'
        ≡ ((accept_workflow c db r g lease_ms now).0, accepted false h))
      × (h.flow.generation ≡ some g)
unfolding new_parent
second_accept_joins c db r g g' lease_ms now now' h e =
    let k = accept_workflow-new c db r g lease_ms now h e in
    (rw (k.0, k.1.1) (second_accept c db r g g' lease_ms now now' k.1.0), rw k.1.1 refl)

start_workflow-lease :
    (db : Db) (a : AcceptArgs)
    → 0 < a.lease_ms
    → lease_owner (start_workflow db a) a.keys.lease ≡ some a.generation
unfolding start_workflow lease_owner
start_workflow-lease db a l = ground (arith, l, beq_refl a.keys.lease)

start_workflow-tombstone :
    (db : Db) (a : AcceptArgs)
    → marked db a.tombstone ≡ false
    → marked (start_workflow db a) a.tombstone ≡ false
unfolding start_workflow
start_workflow-tombstone db a m = ground (arith, m)

start_workflow-clock : (db : Db) (a : AcceptArgs) → (start_workflow db a).clock ≡ db.clock
unfolding start_workflow
start_workflow-clock db a = refl

-- A heartbeat of the generation that runs and holds the lease is taken.
renew-running :
    (db : Db) (b : RenewArgs) (h : TaskHash)
    → task_at db b.task ≡ h
    → h.flow.generation ≡ some b.generation
    → is_active h.status ≡ true
    → parent_cancelled db h.parent ≡ false
    → lease_owner db b.lease ≡ some b.generation
    → (db.clock < or_else h.flow.deadline 0)
    → (renew db b).1 ≡ one
unfolding renew workflow_allowed parent_admits any_marked
renew-running db b h e g a c l d = ground (arith, e, g, a, c, l, d, holds_self b.generation)

-- The guard admits a workflow that was just started.
started-renews :
    (db : Db) (a : AcceptArgs) (b : RenewArgs)
    → marked db a.tombstone ≡ false
    → 0 < a.timeout
    → 0 < a.lease_ms
    → b.task ≡ a.keys.task
    → b.lease ≡ a.keys.lease
    → b.generation ≡ a.generation
    → (renew (start_workflow db a) b).1 ≡ one
unfolding new_parent
started-renews db a b m t l x y z =
    renew-running (start_workflow db a) b (new_parent db a) (rw x (start_workflow-record db a))
      (rw z refl) refl (start_workflow-tombstone db a m) (rw (y, z) (start_workflow-lease db a l))
      (ground (arith, t, start_workflow-clock db a))

-- A workflow that a request has created takes its controller's first heartbeat, where the request's time and the
-- lease are not zero.
pub accept_then_renew :
    (c : Settings) (db : Db) (r : FlowRequest) (g : String) (lease_ms : ℕ) (now now' : String)
    (h : TaskHash)
    → (accept_workflow c db r g lease_ms now).1 ≡ accepted true h
    → 0 < r.timeout
    → 0 < lease_ms
    → (renew_workflow c (accept_workflow c db r g lease_ms now).0 r.id g lease_ms now').1 ≡ true
unfolding renew_workflow
accept_then_renew c db r g lease_ms now now' h e t l =
    let k = accept_workflow-new c db r g lease_ms now h e in
    rw k.0 (
      rw
        (started-renews db (accept_args c r g lease_ms now) (renew_args c r.id g lease_ms now')
          k.1.0 t l refl refl refl)
        refl)
