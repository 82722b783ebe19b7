-- ===== src/Safety/Stale.antt =====
-- An attempt that has lost its claim (kernelgym/server/task_manager.py).
use kernel_gym.Prelude.{
  String, Bool, false, ◌&&◌, Option, none, some, ◌≡◌, ◌≤◌, refl, arith, holds, count,
  count-lrem_one_le, count-lrem_one_ne,
}
use kernel_gym.Redis.Keys.{TaskKey, QueueKey, Item, queue_key_Eq, queue_key_eq_iff, item_Eq}
use kernel_gym.Redis.{Db, task_at, lrem_first}
use kernel_gym.Scripts.Dispatch.{mark_claim_processing}
use kernel_gym.Scripts.Release.{return_claim, ack_claim, freeze_claim, finalize_claim}
use kernel_gym.Scripts.Requeue.{conditional_requeue}
use kernel_gym.Scripts.Schedule.{
  Call, mark_call, return_call, ack_call, freeze_call, finalize_call, requeue_call, run,
}

-- A change of the lists that removes at most entries of its own: the hashes, results, markers, leases, sets,
-- expiries and the clock are as they were, no list gains an entry, and any other entry stays.
pub record OnlyQueues (own : QueueKey → Item → Bool) (db db' : Db) : Type 0 where
  pub tasks : db'.tasks ≡ db.tasks
  pub results : db'.results ≡ db.results
  pub markers : db'.markers ≡ db.markers
  pub leases : db'.leases ≡ db.leases
  pub sets : db'.sets ≡ db.sets
  pub task_expiry : db'.task_expiry ≡ db.task_expiry
  pub result_expiry : db'.result_expiry ≡ db.result_expiry
  pub marker_expiry : db'.marker_expiry ≡ db.marker_expiry
  pub set_expiry : db'.set_expiry ≡ db.set_expiry
  pub clock : db'.clock ≡ db.clock
  pub gains_none : (q : QueueKey) (x : Item) → count x (db'.queues q) ≤ count x (db.queues q)
  pub keeps :
      (q : QueueKey) (x : Item) → own q x ≡ false → count x (db'.queues q) ≡ count x (db.queues q)

abbrev entry_is : QueueKey → Item → QueueKey → Item → Bool
entry_is k i q x = queue_key_Eq.beq k q && item_Eq.beq i x

-- The entries of a list that belong to a call: those of its attempt in its inflight list.
abbrev pub own_entry : Call → QueueKey → Item → Bool
own_entry (mark_call a) = entry_is a.inflight a.item
own_entry (return_call a) = entry_is a.inflight a.item
own_entry (ack_call a) = entry_is a.inflight a.item
own_entry (finalize_call a) = entry_is a.inflight a.item
own_entry (requeue_call a) = entry_is a.inflight a.item
own_entry _ = λ q x. false

same-OnlyQueues : (own : QueueKey → Item → Bool) (db : Db) → OnlyQueues own db db
same-OnlyQueues own db = record {
  tasks = refl;
  results = refl;
  markers = refl;
  leases = refl;
  sets = refl;
  task_expiry = refl;
  result_expiry = refl;
  marker_expiry = refl;
  set_expiry = refl;
  clock = refl;
  gains_none = λ q x. ground arith;
  keeps = λ q x h. refl;
}

lrem_first-OnlyQueues :
    (k : QueueKey) (i : Item) (db : Db) → OnlyQueues (entry_is k i) db (lrem_first db k i)
lrem_first-OnlyQueues k i db = record {
  tasks = refl;
  results = refl;
  markers = refl;
  leases = refl;
  sets = refl;
  task_expiry = refl;
  result_expiry = refl;
  marker_expiry = refl;
  set_expiry = refl;
  clock = refl;
  gains_none = λ q x. ground (arith, queue_key_eq_iff k q, count-lrem_one_le i x (db.queues k));
  keeps = λ q x h. ground (arith, queue_key_eq_iff k q, count-lrem_one_ne i x (db.queues k));
}

-- The task and the token of a call that an attempt makes under its claim.
abbrev pub carried : Call → Option (TaskKey × String)
carried (mark_call a) = some (a.task, a.token)
carried (return_call a) = some (a.task, a.token)
carried (ack_call a) = some (a.task, a.token)
carried (freeze_call k t r n) = some (k, t)
carried (finalize_call a) = some (a.task, a.token)
carried (requeue_call a) = some (a.task, a.token)
carried _ = none

-- A call that carries a token which is not the current claim token of its task changes no hash,
-- result, marker, lease, set, expiry or clock, and adds no entry to a list: at most its attempt's own entry
-- leaves its inflight list, and the count of every other entry of every list stays.
pub stale_call :
    (db : Db) (c : Call) {k : TaskKey} {t : String}
    → carried c ≡ some (k, t)
    → holds (task_at db k).claim.token t ≡ false
    → OnlyQueues (own_entry c) db (run db c)
unfolding run mark_claim_processing return_claim ack_claim freeze_claim finalize_claim
    conditional_requeue
stale_call db (mark_call a) e h = ground (arith, lrem_first-OnlyQueues a.inflight a.item db)
stale_call db (return_call a) e h = ground (arith, lrem_first-OnlyQueues a.inflight a.item db)
stale_call db (ack_call a) e h = ground (arith, lrem_first-OnlyQueues a.inflight a.item db)
stale_call db (freeze_call k t r n) e h = ground (arith, same-OnlyQueues (λ q x. false) db)
stale_call db (finalize_call a) e h = ground (arith, lrem_first-OnlyQueues a.inflight a.item db)
stale_call db (requeue_call a) e h = ground (arith, lrem_first-OnlyQueues a.inflight a.item db)
stale_call db _ e h = cc
