-- ===== src/Manager/Nodes.antt =====
-- Which worker may take a task: _task_node_affinity, _task_matches_worker_node,
-- _gpu_worker_admission_open and _resource_worker_candidates of `TaskManager`, and
-- `WorkerLoadBalancer` (kernelgym/server/task_manager.py). Texts are those after `strip` and `lower`
-- where the source calls them; `read_gpu_quarantine` is the argument `latch`.
use Prim.Native.Nat.{◌%◌}
use text.Mathlib.Text.{starts_with}
use kernel_gym.Prelude.{
  ℕ, zero, suc, ◌+◌, ◌-◌, ◌*◌, String, Bool, true, false, not, ◌&&◌, ◌||◌, Option, none, some, List,
  [], ◌∷◌, if◌then◌else◌, ◌==◌, ltb, leb, length,
}
use kernel_gym.Redis.Keys.{Resource, cpu, gpu}

-- The fields of a task's JSON that name a node.
pub record NodeWish : Type 0 where
  pub affinity : String
  pub target_node_id : String
  pub artifact_node_id : String
  pub preferred_node_id : String
  pub target_hostname : String
  pub artifact_hostname : String

abbrev pub first_text : String → String → String
first_text a b = if a == "" then b else a

unfoldable pub task_node_affinity : NodeWish → String × String × Bool
task_node_affinity w =
    let node = first_text w.target_node_id (first_text w.artifact_node_id w.preferred_node_id) in
    let host = first_text w.target_hostname w.artifact_hostname in
    (node, host, w.affinity == "required" || (not (node == "") || not (host == "")))

-- The hash of a worker. A heartbeat that does not parse is missing.
pub record WorkerInfo : Type 0 where
  pub worker_id : String
  pub device : String
  pub node_id : String
  pub hostname : String
  pub status : String
  pub online : String
  pub accepting_tasks : String
  pub health_state : String
  pub current_task : String
  pub last_heartbeat : Option ℕ

abbrev one_of : String → String → String → Bool
one_of x a b = x == a || x == b

unfoldable pub task_matches_worker_node : NodeWish → WorkerInfo → Bool
unfolding task_node_affinity
task_matches_worker_node w i =
    let (node, host, required) = task_node_affinity w in
    if not required
    then true
    else (node == "" || one_of node i.node_id i.hostname)
      && (host == "" || one_of host i.hostname i.node_id)

-- What the quarantine store answers.
pub data Latch : Type 0 where
  clear latched unreadable : Latch

abbrev is_clear : Latch → Bool
is_clear clear = true
is_clear _ = false

-- A heartbeat that is not older than `max_age` seconds.
abbrev pub is_fresh : ℕ → ℕ → Option ℕ → Bool
is_fresh now max_age none = false
is_fresh now max_age (some t) = leb (now - t) (max_age * 1000000)

abbrev pub max_age_of : ℕ → ℕ
max_age_of n = if ltb 1 n then n else 1

unfoldable pub gpu_worker_admission_open : ℕ → ℕ → WorkerInfo → Latch → Bool
gpu_worker_admission_open now timeout_setting i latch =
    if not (starts_with i.device "cuda:")
      || (i.hostname == ""
          || (not (i.status == "online")
              || (not (i.online == "true")
                  || (not (i.accepting_tasks == "true")
                      || not (i.health_state == "healthy" || i.health_state == "degraded_check")))))
    then false
    else if not (is_fresh now (max_age_of timeout_setting) i.last_heartbeat)
    then false
    else is_clear latch

pub record Wanted : Type 0 where
  pub resource : Resource
  pub idle_only : Bool
  pub target_node_id : String
  pub target_hostname : String
  pub max_heartbeat_age_s : ℕ

abbrev pub serves : Resource → String → Bool
serves gpu device = starts_with device "cuda:"
serves cpu device = device == "cpu"

abbrev admitted_for : Resource → Bool → Bool
admitted_for gpu admitted = admitted
admitted_for cpu admitted = true

unfoldable pub is_candidate : ℕ → ℕ → Wanted → WorkerInfo → Latch → Bool
is_candidate now timeout_setting w i latch =
    serves w.resource i.device
    && (admitted_for w.resource (gpu_worker_admission_open now timeout_setting i latch)
        && (i.status == "online"
            && (not (w.idle_only && not (i.current_task == ""))
                && (is_fresh now w.max_heartbeat_age_s i.last_heartbeat
                    && ((w.target_node_id == "" || one_of w.target_node_id i.node_id i.hostname)
                        && (w.target_hostname == ""
                            || one_of w.target_hostname i.hostname i.node_id))))))

-- The workers come in the order of their ids, as the sort leaves them.
unfoldable pub resource_worker_candidates :
    ℕ → ℕ → Wanted → (WorkerInfo → Latch) → List WorkerInfo → List WorkerInfo
resource_worker_candidates now timeout_setting w latch [] = []
resource_worker_candidates now timeout_setting w latch (i ∷ rest) =
    let others = resource_worker_candidates now timeout_setting w latch rest in
    if is_candidate now timeout_setting w i (latch i) then i ∷ others else others

unfoldable pub nth {ℓ} : {A : Type ℓ} → ℕ → List A → Option A
nth n [] = none
nth zero (x ∷ xs) = some x
nth (suc n) (x ∷ xs) = nth n xs

-- `candidates[index % len(candidates)]`, or `None` where there is no candidate.
unfoldable pub pick {ℓ} : {A : Type ℓ} → ℕ → List A → Option A
pick index [] = none
pick index (x ∷ xs) = nth (index % length (x ∷ xs)) (x ∷ xs)

-- `select_idle_worker` by the counter before its increment, and `select_worker_by_task_id` by the number of
-- the digest.
unfoldable pub select_worker :
    ℕ → ℕ → Wanted → (WorkerInfo → Latch) → List WorkerInfo → ℕ → Option WorkerInfo
select_worker now timeout_setting w latch workers index =
    pick index (resource_worker_candidates now timeout_setting w latch workers)

-- `WorkerLoadBalancer`: the workers in the order of the dict, and the place of the next turn.
pub record BalancedWorker : Type 0 where
  pub id : String
  pub is_online : Bool
  pub last_heartbeat : ℕ

pub record Balancer : Type 0 where
  pub available_workers : List BalancedWorker
  pub current_index : ℕ

unfoldable pub fresh_online : ℕ → List BalancedWorker → List String
fresh_online now [] = []
fresh_online now (w ∷ ws) =
    let rest = fresh_online now ws in
    if w.is_online && leb (now - w.last_heartbeat) 30000000 then w.id ∷ rest else rest

unfoldable pub get_next_worker : ℕ → Balancer → Balancer × Option String
get_next_worker now b = turn (fresh_online now b.available_workers) b
  where
    turn : List String → Balancer → Balancer × Option String
    turn [] b = (b, none)
    turn (x ∷ xs) b = (
      record b { current_index = (b.current_index + 1) % length (x ∷ xs) },
      nth (b.current_index % length (x ∷ xs)) (x ∷ xs),
    )
