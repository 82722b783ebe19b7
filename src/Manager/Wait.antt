-- ===== src/Manager/Wait.antt =====
-- The monitor of the workers' queues: _get_task_timeout_sec, _get_queue_wait_timeout_sec and one
-- visit of `_queue_wait_monitor` (kernelgym/server/task_manager.py). `time_of` is
-- `datetime.fromisoformat`, in microseconds.
use kernel_gym.Prelude.{
  ℕ, ◌-◌, ◌*◌, String, Bool, false, not, ◌&&◌, Option, none, some, if◌then◌else◌, ◌==◌, or_else,
  ltb,
}
use kernel_gym.Redis.{TaskHash, TaskJson, pending, is_pending}
use kernel_gym.Scripts.Code.{Code, zero_code}
use kernel_gym.Scripts.Requeue.{Operation, requeue, remove_stale_copy}
use kernel_gym.Manager.State.{Server}
use kernel_gym.Manager.Requeue.{conditionally_requeue_waiting_task}

-- A field that `int` reads: missing, not a number, below zero, or seconds.
pub data Seconds : Type 0 where
  missing malformed negative : Seconds
  seconds : ℕ → Seconds

unfoldable pub read_seconds : Seconds → ℕ → ℕ
read_seconds missing default = default
read_seconds malformed default = default
read_seconds negative default = 0
read_seconds (seconds n) default = n

-- `task_json.get("timeout", task_json.get("per_task_timeout"))`: the second only where there is no first.
abbrev pub first_seconds : Option Seconds → Seconds → Seconds
first_seconds none b = b
first_seconds (some a) b = a

pub record Limits : Type 0 where
  pub timeout : Option Seconds
  pub per_task_timeout : Seconds
  pub queue_wait_timeout : Option Seconds
  pub queue_timeout : Seconds

unfoldable pub get_task_timeout_sec : ℕ → Limits → ℕ
unfolding read_seconds
get_task_timeout_sec default l = read_seconds (first_seconds l.timeout l.per_task_timeout) default

unfoldable pub get_queue_wait_timeout_sec : Limits → ℕ → ℕ → ℕ
unfolding read_seconds
get_queue_wait_timeout_sec l task_timeout default =
    let wait = read_seconds (first_seconds l.queue_wait_timeout l.queue_timeout) default in
    if ltb 0 task_timeout && ltb task_timeout wait then task_timeout else wait

pub record Monitor : Type 0 where
  pub prefix : String
  pub worker : String
  pub default_timeout : ℕ
  pub timeout_sec : ℕ
  pub time_of : String → Option ℕ
  pub limits_of : TaskJson → Limits
  pub now : ℕ
  pub now_text : String

abbrev first_time : Option ℕ → Option ℕ → Option ℕ
first_time none b = b
first_time (some a) b = some a

abbrev pub waiting_since : Monitor → TaskHash → Option ℕ
waiting_since m h =
    first_time (m.time_of (or_else h.stamps.assigned_at ""))
      (m.time_of (or_else h.stamps.submitted_at ""))

abbrev pub wait_limit : Monitor → TaskJson → ℕ
wait_limit m j =
    get_queue_wait_timeout_sec (m.limits_of j)
      (get_task_timeout_sec m.default_timeout (m.limits_of j)) m.timeout_sec

-- Whether a task that this worker owns has waited for more than its limit.
unfoldable pub is_overdue : Monitor → Option ℕ → ℕ → Bool
is_overdue m none limit = false
is_overdue m (some since) limit = ltb 0 limit && ltb (limit * 1000000) (m.now - since)

-- What the monitor decides about one id of the worker's queue, by the task's snapshot.
unfoldable pub decide_wait : Monitor → TaskHash → TaskJson → Option (Operation × String)
unfolding is_overdue
decide_wait m h j =
    let owner = or_else h.assigned_worker "" in
    if owner == ""
    then some (requeue, "stale_assignment")
    else if not (owner == m.worker)
    then some (remove_stale_copy, "stale_assignment_copy")
    else if is_overdue m (waiting_since m h) (wait_limit m j)
    then some (requeue, "queue_wait_timeout")
    else none

unfoldable pub perform_decision :
    Server
    → Monitor
    → String
    → TaskHash
    → TaskJson
    → String
    → Option (Operation × String)
    → Server × Code
perform_decision s m id h j move_token none = (s, zero_code)
perform_decision s m id h j move_token (some (operation, reason)) =
    conditionally_requeue_waiting_task s m.prefix m.worker id h j reason m.now_text operation
      move_token

unfoldable pub visit_json :
    Server → Monitor → String → TaskHash → String → Option TaskJson → Server × Code
unfolding perform_decision
visit_json s m id h move_token none = (s, zero_code)
visit_json s m id h move_token (some j) = perform_decision s m id h j move_token (decide_wait m h j)

-- A missing status counts as pending. `h` is the hash that the monitor has read.
unfoldable pub visit_task : Server → Monitor → String → Option TaskHash → String → Server × Code
unfolding visit_json
visit_task s m id none move_token = (s, zero_code)
visit_task s m id (some h) move_token =
    if is_pending (some (or_else h.status pending))
    then visit_json s m id h move_token h.json
    else (s, zero_code)
