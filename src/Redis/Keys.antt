-- ===== src/Redis/Keys.antt =====
-- The keys of the Redis database, by the parts from which the server builds their text
-- (kernelgym/server/task_manager.py, kernelgym/server/workflow_lifecycle.py).
use Prim.Native.String.{◌++◌ as join}
use kernel_gym.Prelude.{Bool, true, false, ◌&&◌, String, ◌≡◌, ◌↔◌, ◌==◌, eq_iff, arith, Eq}

-- `{prefix}:task:{id}`, and in their own maps `{prefix}:result:{id}` and `{prefix}:workflow:{id}`.
pub record TaskKey : Type 0 where
  pub prefix : String
  pub id : String

unfoldable pub task_key_eq : TaskKey → TaskKey → Bool
task_key_eq k j = k.prefix == j.prefix && k.id == j.id

pub task_key_eq_iff : (k j : TaskKey) → (task_key_eq k j ≡ true) ↔ (k ≡ j)
unfolding task_key_eq
task_key_eq_iff k j = ground (arith, eq_iff k.prefix j.prefix, eq_iff k.id j.id)

instance abbrev pub task_key_Eq : Eq TaskKey
task_key_Eq = record { beq = task_key_eq; beq_iff = task_key_eq_iff }

pub data Resource : Type 0 where
  cpu gpu : Resource

abbrev pub resource_eq : Resource → Resource → Bool
resource_eq cpu cpu = true
resource_eq gpu gpu = true
resource_eq _ _ = false

-- `no_queue` is the empty text that a cleared claim field holds.
pub data QueueKey : Type 0 where
  no_queue : QueueKey
  resource_queue : String → Resource → QueueKey
  worker_queue : String → String → QueueKey
  inflight_queue : String → String → QueueKey

unfoldable pub queue_key_eq : QueueKey → QueueKey → Bool
queue_key_eq no_queue no_queue = true
queue_key_eq (resource_queue p r) (resource_queue q s) = p == q && resource_eq r s
queue_key_eq (worker_queue p w) (worker_queue q v) = p == q && w == v
queue_key_eq (inflight_queue p w) (inflight_queue q v) = p == q && w == v
queue_key_eq _ _ = false

pub queue_key_eq_iff : (k j : QueueKey) → (queue_key_eq k j ≡ true) ↔ (k ≡ j)
unfolding queue_key_eq
queue_key_eq_iff no_queue j = ground arith
queue_key_eq_iff (resource_queue p r) (resource_queue q s) = ground (arith, eq_iff p q)
queue_key_eq_iff (resource_queue p r) _ = ground arith
queue_key_eq_iff (worker_queue p w) (worker_queue q v) = ground (arith, eq_iff p q, eq_iff w v)
queue_key_eq_iff (worker_queue p w) _ = ground arith
queue_key_eq_iff (inflight_queue p w) (inflight_queue q v) = ground (arith, eq_iff p q, eq_iff w v)
queue_key_eq_iff (inflight_queue p w) _ = ground arith

instance abbrev pub queue_key_Eq : Eq QueueKey
queue_key_Eq = record { beq = queue_key_eq; beq_iff = queue_key_eq_iff }

-- The stages of a workflow, in the order of its children.
pub data Stage : Type 0 where
  compile kernel ref : Stage

abbrev pub stage_text : Stage → String
stage_text compile = "compile"
stage_text kernel = "kernel"
stage_text ref = "ref"

-- `{prefix}:cancel:{id}` and `{prefix}:cancelled:{id}`.
pub data MarkerKey : Type 0 where
  cancel_key : String → String → MarkerKey
  tombstone_key : String → String → MarkerKey

-- The tombstone of the child id `{id}_{stage}` that an older client names.
unfoldable pub stage_tombstone : String → String → Stage → MarkerKey
stage_tombstone p id s = tombstone_key p (join id (join "_" (stage_text s)))

unfoldable pub marker_key_eq : MarkerKey → MarkerKey → Bool
marker_key_eq (cancel_key p i) (cancel_key q j) = p == q && i == j
marker_key_eq (tombstone_key p i) (tombstone_key q j) = p == q && i == j
marker_key_eq _ _ = false

pub marker_key_eq_iff : (k j : MarkerKey) → (marker_key_eq k j ≡ true) ↔ (k ≡ j)
unfolding marker_key_eq
marker_key_eq_iff (cancel_key p i) (cancel_key q j) = ground (arith, eq_iff p q, eq_iff i j)
marker_key_eq_iff (cancel_key p i) _ = ground arith
marker_key_eq_iff (tombstone_key p i) (tombstone_key q j) = ground (arith, eq_iff p q, eq_iff i j)
marker_key_eq_iff (tombstone_key p i) _ = ground arith

instance abbrev pub marker_key_Eq : Eq MarkerKey
marker_key_Eq = record { beq = marker_key_eq; beq_iff = marker_key_eq_iff }

-- `{prefix}:workflow_children:{id}:{generation}` and `{prefix}:workflows:active`.
pub data SetKey : Type 0 where
  children_key : String → String → String → SetKey
  active_key : String → SetKey

unfoldable pub set_key_eq : SetKey → SetKey → Bool
set_key_eq (children_key p i g) (children_key q j h) = p == q && i == j && g == h
set_key_eq (active_key p) (active_key q) = p == q
set_key_eq _ _ = false

pub set_key_eq_iff : (k j : SetKey) → (set_key_eq k j ≡ true) ↔ (k ≡ j)
unfolding set_key_eq
set_key_eq_iff (children_key p i g) (children_key q j h) =
    ground (arith, eq_iff p q, eq_iff i j, eq_iff g h)
set_key_eq_iff (children_key p i g) _ = ground arith
set_key_eq_iff (active_key p) (active_key q) = ground (arith, eq_iff p q)
set_key_eq_iff (active_key p) _ = ground arith

instance abbrev pub set_key_Eq : Eq SetKey
set_key_Eq = record { beq = set_key_eq; beq_iff = set_key_eq_iff }

-- What a queue holds: a task id, or in an inflight queue the entry `{token}|{id}`.
pub data Item : Type 0 where
  waiting : String → Item
  entry : String → String → Item

unfoldable pub item_eq : Item → Item → Bool
item_eq (waiting i) (waiting j) = i == j
item_eq (entry t i) (entry u j) = t == u && i == j
item_eq _ _ = false

pub item_eq_iff : (k j : Item) → (item_eq k j ≡ true) ↔ (k ≡ j)
unfolding item_eq
item_eq_iff (waiting i) (waiting j) = ground (arith, eq_iff i j)
item_eq_iff (waiting i) _ = ground arith
item_eq_iff (entry t i) (entry u j) = ground (arith, eq_iff t u, eq_iff i j)
item_eq_iff (entry t i) _ = ground arith

instance abbrev pub item_Eq : Eq Item
item_Eq = record { beq = item_eq; beq_iff = item_eq_iff }
