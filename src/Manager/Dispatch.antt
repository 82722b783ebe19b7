-- ===== src/Manager/Dispatch.antt =====
-- `get_next_task` of `TaskManager` (kernelgym/server/task_manager.py). The answers of the clock, of
-- `uuid4` and of the admission check, which reads the worker's hash again, are functions of the
-- number of the pop.
use kernel_gym.Prelude.{
  ℕ, zero, suc, ◌+◌, String, Bool, true, false, not, ◌||◌, Option, none, some, List, [], ◌∷◌,
  if◌then◌else◌, rpop,
}
use kernel_gym.Redis.Keys.{
  QueueKey, worker_queue, inflight_queue, resource_queue, Resource, Item, waiting, queue_key_Eq,
}
use kernel_gym.Redis.{TaskJson, set_queue, lpush, task_at}
use kernel_gym.Scripts.Dispatch.{item_text}
use kernel_gym.Manager.State.{Settings, Server, Error, Reply, raises, returns}
use kernel_gym.Manager.Claims.{
  claim_for_worker, acknowledge_task_claim, mark_task_processing, mark_cpu_task,
  return_claim_to_source,
}
use kernel_gym.Manager.Requeue.{RequeueOrder, requeue_unstarted_task}
use kernel_gym.Manager.Finish.{key_of}
use kernel_gym.Manager.Read.{dropped_before_dispatch, dequeued_task_cancelled}

pub record Pull : Type 0 where
  pub prefix : String
  pub worker : String
  pub is_gpu_worker : Bool
  pub scan_limit : ℕ
  pub token : ℕ → String
  pub now : ℕ → String
  pub admission_open : ℕ → Bool
  pub matches_node : TaskJson → Bool

-- What one task that has left a queue leads to: the answer of the call, an error, or the next task.
pub data Outcome : Type 0 where
  answers : Option TaskJson → Outcome
  breaks : Error → Outcome
  goes_on : Outcome

abbrev pop_from : Option (Item × List Item) → Server → QueueKey → Server × Option String
pop_from none s q = (s, none)
pop_from (some (x, rest)) s q = (record s { db = set_queue s.db q rest }, some (item_text x))

unfoldable pub pop_task : Settings → Pull → ℕ → QueueKey → Server → Server × Option String
pop_task c p n q s =
    if p.is_gpu_worker
    then claim_for_worker c s p.prefix p.worker q (p.token n)
    else pop_from (rpop (s.db.queues q)) s q

abbrev pub closed_order : String → RequeueOrder
closed_order reason = record {
  reason = reason;
  restore_claim_source = false;
  release_frozen_claim = false;
  release_execution_fence = false;
}

abbrev pub requeue_outcome : Server × Reply Bool → Server × Outcome
requeue_outcome (s, raises e) = (s, breaks e)
requeue_outcome (s, returns _) = (s, answers none)

abbrev pub mark_outcome : TaskJson → Server × Reply Bool → Server × Outcome
mark_outcome j (s, raises e) = (s, breaks e)
mark_outcome j (s, returns true) = (s, answers (some j))
mark_outcome j (s, returns false) = (s, goes_on)

abbrev pub cpu_outcome : TaskJson → Server × Bool → Server × Outcome
cpu_outcome j (s, true) = (s, answers (some j))
cpu_outcome j (s, false) = (s, goes_on)

-- The last steps before a task is handed out: the admission is read again, and the script marks the task.
unfoldable pub hand_out :
    String → Pull → ℕ → QueueKey → String → TaskJson → Server → Server × Outcome
hand_out reason p n q id j s =
    if not p.is_gpu_worker
    then cpu_outcome j (mark_cpu_task s p.prefix id j (p.now n))
    else if not (p.admission_open n)
    then requeue_outcome (requeue_unstarted_task s j (closed_order reason) (p.now n))
    else mark_outcome j (
        mark_task_processing s id j p.prefix p.worker (inflight_queue p.prefix p.worker) q
          (p.now n))

unfoldable pub discard : Pull → String → Server → Server
discard p id s = if p.is_gpu_worker then acknowledge_task_claim s id false else s

-- A task that is gone, terminal or cancelled is not handed out.
unfoldable pub is_dead : Pull → String → Option TaskJson → Server → Bool
is_dead p id none s = true
is_dead p id (some j) s =
    dropped_before_dispatch (s.db.tasks (key_of p.prefix id))
    || dequeued_task_cancelled s.db p.prefix id j.base_task_id

abbrev pub json_at : Server → Pull → String → Option TaskJson
json_at s p id = (task_at s.db (key_of p.prefix id)).json

-- What the loop over the queue of a resource keeps: the ids that another node has to run.
pub record Scanned : Type 0 where
  pub server : Server
  pub outcome : Outcome
  pub deferred : List String

abbrev pub defer : String → Scanned → Scanned
defer id r = record r { deferred = id ∷ r.deferred }

-- Where an outcome goes on, the rest of the loop follows.
abbrev pub followed_by : Server × Outcome → (Server → Scanned) → Scanned
followed_by (s, answers a) next = record { server = s; outcome = answers a; deferred = [] }
followed_by (s, breaks e) next = record { server = s; outcome = breaks e; deferred = [] }
followed_by (s, goes_on) next = next s

-- The task `id` that has just been popped, by its JSON; `next` is the rest of the loop.
unfoldable pub consider :
    Pull → ℕ → QueueKey → String → Server → Option TaskJson → (Server → Scanned) → Scanned
consider p n q id s none next = next (discard p id s)
consider p n q id s (some j) next =
    if is_dead p id (some j) s
    then next (discard p id s)
    else if not (p.matches_node j)
    then defer id (next s)
    else followed_by (hand_out "gpu_admission_closed_after_resource_dequeue" p n q id j s) next

unfoldable pub scan_queue : Settings → Pull → QueueKey → ℕ → ℕ → Server → Scanned
scan_queue c p q zero n s = record { server = s; outcome = goes_on; deferred = [] }
scan_queue c p q (suc m) n s =
    let (s', got) = pop_task c p n q s in
    elim got [
      | none ↦ record { server = s'; outcome = goes_on; deferred = [] }
      | some id ↦ consider p n q id s' (json_at s' p id) (scan_queue c p q m (suc n))
    ]

abbrev after_return :
    Server × Reply (Unit {0}) → Outcome → (Server → Outcome → Server × Outcome) → Server × Outcome
after_return (s, raises e) o next = (s, breaks e)
after_return (s, returns u) o next = next s o

-- The `finally` block: the deferred tasks go back to their queue, in the order in which they left it. An
-- error there ends the call.
unfoldable pub put_deferred : Pull → QueueKey → List String → Server → Outcome → Server × Outcome
put_deferred p q [] s o = (s, o)
put_deferred p q (id ∷ ids) s o = elim p.is_gpu_worker [
  | true ↦ after_return (return_claim_to_source s id) o (put_deferred p q ids)
  | false ↦ put_deferred p q ids (record s { db = lpush s.db q (waiting id) }) o
]

unfoldable pub serve_resource : Settings → Pull → Resource → ℕ → Server → Server × Outcome
serve_resource c p r n s =
    let q = resource_queue p.prefix r in
    let scanned = scan_queue c p q p.scan_limit n s in
    put_deferred p q scanned.deferred scanned.server scanned.outcome

abbrev pub then_serve : Server × Outcome → (Server → Server × Outcome) → Server × Outcome
then_serve (s, answers a) next = (s, answers a)
then_serve (s, breaks e) next = (s, breaks e)
then_serve (s, goes_on) next = next s

-- The resources of one prefix in turn; each has its own numbers of pops.
unfoldable pub serve_resources : Settings → Pull → List Resource → ℕ → Server → Server × Outcome
serve_resources c p [] n s = (s, goes_on)
serve_resources c p (r ∷ rs) n s =
    then_serve (serve_resource c p r n s) (serve_resources c p rs (n + suc p.scan_limit))

-- The worker's own queue comes first. A dead task of it is dropped and the resources follow; a task that
-- the marking script refuses ends the prefix.
unfoldable pub serve_direct :
    Pull
    → ℕ
    → QueueKey
    → String
    → Option TaskJson
    → Server
    → (Server → Server × Outcome)
    → Server × Outcome
serve_direct p n q id none s resources = resources (discard p id s)
serve_direct p n q id (some j) s resources =
    if is_dead p id (some j) s
    then resources (discard p id s)
    else hand_out "gpu_admission_closed_after_direct_dequeue" p n q id j s

unfoldable pub serve_prefix : Settings → Pull → List Resource → Server → Server × Outcome
serve_prefix c p rs s =
    let q = worker_queue p.prefix p.worker in
    let resources = serve_resources c p rs 1 in
    let (s', got) = pop_task c p 0 q s in
    elim got [
      | none ↦ resources s'
      | some id ↦ serve_direct p 0 q id (json_at s' p id) s' resources
    ]

unfoldable pub serve_prefixes : Settings → List Pull → List Resource → Server → Server × Outcome
serve_prefixes c [] rs s = (s, answers none)
serve_prefixes c (p ∷ ps) rs s = then_serve (serve_prefix c p rs s) (serve_prefixes c ps rs)

-- A worker with a GPU asks for the admission first; its inflight lists are recovered before it
-- takes a task (`recover`).
unfoldable pub get_next_task :
    Settings → (Server → Server) → Bool → List Pull → List Resource → Server → Server × Outcome
get_next_task c recover admitted ps rs s = elim admitted [
  | true ↦ serve_prefixes c ps rs (recover s)
  | false ↦ (s, answers none)
]
