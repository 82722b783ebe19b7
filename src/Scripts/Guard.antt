-- ===== src/Scripts/Guard.antt =====
-- The admission guard that the submit and dispatch scripts share (WORKFLOW_GUARD_LUA and
-- WORKFLOW_TASK_ALIVE_LUA of kernelgym/server/workflow_lifecycle.py).
use kernel_gym.Prelude.{
  ℕ, String, Bool, true, false, not, ◌&&◌, Option, none, some, ltb, if◌then◌else◌, or_else,
  is_blank, holds, is_some, [],
}
use kernel_gym.Redis.Keys.{TaskKey}
use kernel_gym.Redis.{Db, Flow, Parent, task_at, is_active, any_marked, marked, lease_owner}

-- The parent's own tombstone, once the parent names one.
abbrev pub parent_cancelled : Db → Parent → Bool
parent_cancelled db p = elim p.cancellation_key [ none ↦ false | some k ↦ marked db k ]

-- The part of the guard that a workflow's generation adds.
unfoldable pub parent_admits : Db → String → Option ℕ → Option TaskKey → Option TaskKey → Bool
parent_admits db generation deadline (some parent) (some lease) =
    let p = task_at db parent in
    not (parent_cancelled db p.parent)
    && holds p.flow.generation generation
    && is_active p.status
    && holds (lease_owner db lease) generation
    && ltb db.clock (or_else p.flow.deadline 0)
    && ltb db.clock (or_else deadline 0)
parent_admits db generation deadline _ _ = false

unfoldable pub workflow_allowed : Db → Flow → Bool
unfolding parent_admits
workflow_allowed db f =
    if any_marked db.markers (or_else f.cancellation_keys [])
    then false
    else if is_blank f.generation
    then true
    else parent_admits db (or_else f.generation "") f.deadline f.parent_key f.lease_key

unfoldable pub workflow_task_allowed : Db → TaskKey → Bool
unfolding workflow_allowed
workflow_task_allowed db k = workflow_allowed db (task_at db k).flow

-- A parent is asked with itself as the parent key, under the lease key that is passed.
abbrev pub parent_flow : Db → TaskKey → TaskKey → Flow
parent_flow db k lease = record {
  cancellation_keys = none;
  generation = (task_at db k).flow.generation;
  parent_key = some k;
  lease_key = some lease;
  deadline = (task_at db k).flow.deadline;
  children_key = none;
}

unfoldable pub workflow_task_alive : Db → TaskKey → TaskKey → Bool
unfolding workflow_task_allowed
workflow_task_alive db k lease =
    if is_some (task_at db k).flow.parent_key
    then workflow_task_allowed db k
    else workflow_allowed db (parent_flow db k lease)
