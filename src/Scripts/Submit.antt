-- ===== src/Scripts/Submit.antt =====
-- The scripts that create a task (kernelgym/server/task_manager.py): _SUBMIT_TASK_IF_ABSENT_LUA
-- and _FORCE_REFRESH_TASK_LUA.
use kernel_gym.Prelude.{
  String, not, Option, none, some, List, [], ◌∷◌, if◌then◌else◌, ◌==◌, or_else, is_blank, update,
  lrem_all, string_eq,
}
use kernel_gym.Redis.Keys.{
  TaskKey, QueueKey, worker_queue, SetKey, Item, waiting, item_Eq, task_key_Eq, queue_key_Eq,
  set_key_Eq,
}
use kernel_gym.Redis.{
  Db, TaskHash, task_at, task_exists, is_frozen, is_terminal, lpush, lrem_each, lrem_each_if,
  del_task, del_result,
}
use kernel_gym.Scripts.Guard.{workflow_allowed}
use kernel_gym.Scripts.Code.{
  Code, minus_five, minus_four, minus_two, minus_one, zero_code, one, two,
}

-- HSET of every field of a mapping on a key that does not exist.
abbrev create : Db → TaskKey → TaskHash → Db
create db k h = record db { tasks = update db.tasks k (some h) }

-- SADD to the set of children, where the mapping names one.
abbrev sadd_child : (SetKey → List String) → Option SetKey → String → SetKey → List String
sadd_child sets none id = sets
sadd_child sets (some k) id = update sets k (id ∷ lrem_all id (sets k))

abbrev add_child : Db → Option SetKey → String → Db
add_child db k id = record db { sets = sadd_child db.sets k id }

unfoldable pub submit_task_if_absent : Db → TaskKey → QueueKey → String → TaskHash → Db × Code
submit_task_if_absent db k destination id mapping =
    if not (workflow_allowed db mapping.flow)
    then (db, minus_five)
    else if task_exists db k
    then (db, zero_code)
    else let queued =
        lpush (lrem_each (create db k mapping) destination (waiting id)) destination (waiting id) in
      (add_child queued mapping.flow.children_key id, one)

-- `for index = 3, #KEYS`: the queue ids of the old task go away everywhere.
unfoldable pub lrem_queues : List QueueKey → String → (QueueKey → List Item) → QueueKey → List Item
lrem_queues [] id queues = queues
lrem_queues (q ∷ qs) id queues =
    lrem_queues qs id (update queues q (lrem_all (waiting id) (queues q)))

pub record RefreshArgs : Type 0 where
  pub task : TaskKey
  pub result : TaskKey
  pub destination : QueueKey
  pub cleanup : List QueueKey
  pub id : String
  pub mapping : TaskHash
  pub prefix : String

abbrev pub drop_assigned : Db → RefreshArgs → Db
drop_assigned db a =
    let worker = or_else (task_at db a.task).assigned_worker "" in
    lrem_each_if (not (worker == "")) db (worker_queue a.prefix worker) (waiting a.id)

abbrev pub replace_task : Db → RefreshArgs → Db
replace_task db a =
    let cleaned = record db { queues = lrem_queues (a.destination ∷ a.cleanup) a.id db.queues } in
    let created = create (del_result (del_task cleaned a.task) a.result) a.task a.mapping in
    add_child (lpush created a.destination (waiting a.id)) a.mapping.flow.children_key a.id

unfoldable pub force_refresh_task : Db → RefreshArgs → Db × Code
force_refresh_task db a =
    if not (workflow_allowed db a.mapping.flow)
    then (db, minus_five)
    else if not (task_exists db a.task)
    then (replace_task db a, one)
    else if is_frozen (task_at db a.task).claim.recovery_state
    then (db, minus_two)
    else if not (is_blank (task_at db a.task).claim.token)
    then (db, minus_one)
    else if not (is_terminal (task_at db a.task).status)
    then (db, minus_four)
    else (replace_task (drop_assigned db a) a, two)
