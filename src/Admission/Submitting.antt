-- ===== src/Admission/Submitting.antt =====
-- What the creating scripts promise (_SUBMIT_TASK_IF_ABSENT_LUA and _FORCE_REFRESH_TASK_LUA of
-- kernelgym/server/task_manager.py).
use kernel_gym.Prelude.{
  suc, String, true, false, none, some, List, [], ◌∷◌, ◌≡◌, ◌≢◌, ◌⊎◌, ◌↔◌, inl, inr, refl, arith,
  ap, ◌∙◌, ◌==◌, count, count-cons_self, count-lrem_all_self, lrem_all, contains, Bool-cases,
  beq_refl, update-at, is_blank,
}
use kernel_gym.Redis.Keys.{
  TaskKey, task_key_eq, QueueKey, queue_key_eq, queue_key_eq_iff, worker_queue, Item, waiting,
  item_Eq, queue_key_Eq, task_key_Eq,
}
use kernel_gym.Redis.{Db, TaskHash, task_at, task_exists, is_frozen, is_terminal}
use kernel_gym.Scripts.Guard.{workflow_allowed}
use kernel_gym.Scripts.Code.{one, two}
use kernel_gym.Scripts.Submit.{
  RefreshArgs, lrem_queues, replace_task, drop_assigned, submit_task_if_absent, force_refresh_task,
}

pub count-requeued : (x : Item) (l : List Item) → count x (x ∷ lrem_all x l) ≡ 1
count-requeued x l = count-cons_self x (lrem_all x l) ∙ ap suc (count-lrem_all_self x l)

-- What a successful submission leaves.
pub record Submitted (db db' : Db) (k : TaskKey) (q : QueueKey) (id : String) (m : TaskHash)
    : Type 0 where
  pub task : db'.tasks k ≡ some m
  pub queued : count (waiting id) (db'.queues q) ≡ 1
  pub others : (j : TaskKey) → task_key_eq k j ≡ false → db'.tasks j ≡ db.tasks j
  pub results : db'.results ≡ db.results

-- An admitted submission of an absent task writes the whole mapping and leaves the id exactly once in
-- its queue, in one step; no other task and no result changes.
pub submit_creates :
    (db : Db) (k : TaskKey) (q : QueueKey) (id : String) (m : TaskHash)
    → workflow_allowed db m.flow ≡ true
    → task_exists db k ≡ false
    → ((submit_task_if_absent db k q id m).1 ≡ one)
      × Submitted db (submit_task_if_absent db k q id m).0 k q id m
unfolding submit_task_if_absent
submit_creates db k q id m w x =
    rw (w, submit_task_if_absent)
      (rw x (
        refl,
        record {
          task = update-at db.tasks k (some m);
          queued = rw (beq_refl q) (count-requeued (waiting id) (db.queues q));
          others = λ j h. rw h refl;
          results = refl;
        },
      ))

submit_existing :
    (db : Db) (k : TaskKey) (q : QueueKey) (id : String) (m : TaskHash)
    → task_exists db k ≡ true
    → ((submit_task_if_absent db k q id m).0 ≡ db) × ((submit_task_if_absent db k q id m).1 ≢ one)
unfolding submit_task_if_absent
submit_existing db k q id m x = elim (Bool-cases (workflow_allowed db m.flow)) [
  | inl w ↦ rw (w, submit_task_if_absent) (rw x (refl, λ e. cc))
  | inr w ↦ rw (w, submit_task_if_absent) (refl, λ e. cc)
]

submit_exists :
    (db : Db) (k : TaskKey) (q : QueueKey) (id : String) (m : TaskHash)
    → (submit_task_if_absent db k q id m).1 ≡ one
    → task_exists (submit_task_if_absent db k q id m).0 k ≡ true
unfolding submit_task_if_absent
submit_exists db k q id m e = ground (arith, beq_refl k)

-- Once a submission has created the task, no later submission of the same key changes anything,
-- whatever its mapping and queue are, and none of them reports a creation.
pub submit_idempotent :
    (db : Db) (k : TaskKey) (q r : QueueKey) (id : String) (m n : TaskHash)
    → (submit_task_if_absent db k q id m).1 ≡ one
    → let db' = (submit_task_if_absent db k q id m).0 in
      ((submit_task_if_absent db' k r id n).0 ≡ db')
      × ((submit_task_if_absent db' k r id n).1 ≢ one)
submit_idempotent db k q r id m n e =
    submit_existing (submit_task_if_absent db k q id m).0 k r id n (submit_exists db k q id m e)

-- A task that a refresh may replace: terminal, its attempt released, its claim not frozen.
pub record Replaceable (db : Db) (k : TaskKey) : Type 0 where
  pub terminal : is_terminal (task_at db k).status ≡ true
  pub released : is_blank (task_at db k).claim.token ≡ true
  pub unfrozen : is_frozen (task_at db k).claim.recovery_state ≡ false

-- A refresh replaces a task exactly when its workflow admits it and it is replaceable; it creates a
-- task exactly when its workflow admits it and there is none; in every other case nothing changes.
pub refresh_guard :
    (db : Db) (a : RefreshArgs)
    → (((force_refresh_task db a).1 ≡ two) ↔ (
        (workflow_allowed db a.mapping.flow ≡ true)
        × (task_exists db a.task ≡ true)
        × Replaceable db a.task))
      × (((force_refresh_task db a).1 ≡ one)
          ↔ ((workflow_allowed db a.mapping.flow ≡ true) × (task_exists db a.task ≡ false)))
      × (((force_refresh_task db a).1 ≢ one)
          → ((force_refresh_task db a).1 ≢ two)
          → (force_refresh_task db a).0 ≡ db)
unfolding force_refresh_task
refresh_guard db a = (
  (λ e. ground arith, λ h. ground arith),
  (λ e. ground arith, λ h. ground arith),
  λ n t. ground arith,
)

lrem_queues-keeps_zero :
    (qs : List QueueKey) (id : String) (m : QueueKey → List Item) (q : QueueKey)
    → count (waiting id) (m q) ≡ 0
    → count (waiting id) (lrem_queues qs id m q) ≡ 0
unfolding lrem_queues
lrem_queues-keeps_zero [] id m q z = z
lrem_queues-keeps_zero (p ∷ ps) id m q z =
    lrem_queues-keeps_zero ps id _ q
      (ground (arith, count-lrem_all_self (waiting id) (m p), queue_key_eq_iff p q))

-- Every queue of the list loses the id.
lrem_queues_clears :
    (qs : List QueueKey) (id : String) (m : QueueKey → List Item) (q : QueueKey)
    → contains q qs ≡ true
    → count (waiting id) (lrem_queues qs id m q) ≡ 0
unfolding lrem_queues contains
lrem_queues_clears [] id m q h = cc
lrem_queues_clears (p ∷ ps) id m q h = elim (Bool-cases (queue_key_eq p q)) [
  | inl same ↦
      lrem_queues-keeps_zero ps id _ q (ground (arith, count-lrem_all_self (waiting id) (m p)))
  | inr other ↦
      lrem_queues_clears ps id _ q (ground (arith, queue_key_eq_iff q p, queue_key_eq_iff p q))
]

created :
    (db : Db) (a : RefreshArgs)
    → (force_refresh_task db a).1 ≡ one
    → (force_refresh_task db a).0 ≡ replace_task db a
unfolding force_refresh_task
created db a e = ground arith

replaced :
    (db : Db) (a : RefreshArgs)
    → (force_refresh_task db a).1 ≡ two
    → (force_refresh_task db a).0 ≡ replace_task (drop_assigned db a) a
unfolding force_refresh_task
replaced db a e = ground arith

-- What a refresh that wrote leaves.
pub record Refreshed (db' : Db) (a : RefreshArgs) : Type 0 where
  pub task : db'.tasks a.task ≡ some a.mapping
  pub result : db'.results a.result ≡ none
  pub queued : count (waiting a.id) (db'.queues a.destination) ≡ 1
  pub cleaned :
      (q : QueueKey)
      → queue_key_eq a.destination q ≡ false
      → contains q a.cleanup ≡ true
      → count (waiting a.id) (db'.queues q) ≡ 0

in_cleanup :
    (a : RefreshArgs) (q : QueueKey)
    → contains q a.cleanup ≡ true
    → contains q (a.destination ∷ a.cleanup) ≡ true
unfolding contains
in_cleanup a q h = ground arith

dest_listed : (a : RefreshArgs) → contains a.destination (a.destination ∷ a.cleanup) ≡ true
unfolding contains
dest_listed a = ground (arith, beq_refl a.destination)

replace-Refreshed : (db : Db) (a : RefreshArgs) → Refreshed (replace_task db a) a
replace-Refreshed db a = record {
  task = rw (beq_refl a.task) refl;
  result = update-at db.results a.result none;
  queued = rw (beq_refl a.destination) (
      count-cons_self (waiting a.id) _
      ∙ ap suc (lrem_queues_clears _ a.id db.queues a.destination (dest_listed a)));
  cleaned = λ q h c. rw h (lrem_queues_clears _ a.id db.queues q (in_cleanup a q c));
}

-- A refresh that writes puts the new mapping in place of the task and of its result; the id is once
-- in its queue and in no other of the queues to clean up.
pub refresh_replaces :
    (db : Db) (a : RefreshArgs)
    → ((force_refresh_task db a).1 ≡ one) ⊎ ((force_refresh_task db a).1 ≡ two)
    → Refreshed (force_refresh_task db a).0 a
unfolding force_refresh_task
refresh_replaces db a (inl e) = rw (created db a e) (replace-Refreshed db a)
refresh_replaces db a (inr e) = rw (replaced db a e) (replace-Refreshed (drop_assigned db a) a)

-- The queue of the worker to which the old task was assigned loses the id too.
pub refresh_unassigns :
    (db : Db) (a : RefreshArgs) (w : String)
    → (force_refresh_task db a).1 ≡ two
    → (task_at db a.task).assigned_worker ≡ some w
    → (w == "") ≡ false
    → queue_key_eq a.destination (worker_queue a.prefix w) ≡ false
    → count (waiting a.id) ((force_refresh_task db a).0.queues (worker_queue a.prefix w)) ≡ 0
unfolding force_refresh_task
refresh_unassigns db a w e o r d = rw (replaced db a e) (
    rw d (
      lrem_queues-keeps_zero _ a.id _ _ (
        rw o (
          rw r (
            rw (beq_refl (worker_queue a.prefix w))
              (count-lrem_all_self (waiting a.id) (db.queues (worker_queue a.prefix w))))))))
