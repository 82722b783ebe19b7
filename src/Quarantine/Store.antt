-- ===== src/Quarantine/Store.antt =====
-- The durable latches and their mirrors: how they are written, read and cleared
-- (kernelgym/utils/gpu_quarantine.py). Different ids have different files here. `listed` is the list of the workers that have a file or a key.
use kernel_gym.Prelude.{
  String, Bool, true, false, not, ◌&&◌, ◌||◌, Option, none, some, List, [], ◌∷◌, ◌++◌, ◌==◌,
  or_else, if◌then◌else◌, update, string_eq, contains,
}
use kernel_gym.Quarantine.Latch.{
  no_page, Latch, DeviceKey, device_key_Eq, Identity, is_physical, is_named,
  normalize_device_record, same_physical_gpu, or_text,
}
use kernel_gym.Quarantine.Merge.{Sources, apply, Answer, read_merged_quarantine}

pub record Latches : Type 0 where
  pub device_latch : DeviceKey → Option Latch
  pub worker_latch : String → Option Latch

abbrev pub sources_of : Latches → Latches → String → DeviceKey → Sources
sources_of durable redis worker k = record {
  durable_device = durable.device_latch k;
  durable_worker = durable.worker_latch worker;
  redis_device = redis.device_latch k;
  redis_worker = redis.worker_latch worker;
}

-- `read_gpu_quarantine` with `read_only`.
unfoldable pub read_gpu_quarantine :
    (Identity → String) → Latches → Latches → Bool → String → DeviceKey → Answer
read_gpu_quarantine digest durable redis redis_ok worker k =
    read_merged_quarantine digest redis_ok worker k (sources_of durable redis worker k)

pub record WriteArgs : Type 0 where
  pub worker_id : String
  pub target : DeviceKey
  pub reason : String
  pub fault_class : String
  pub task_id : String
  pub node_id : String
  pub physical_scope : Bool
  -- what `uuid4` and the clock give
  pub event_id : String
  pub now : String

unfoldable pub new_quarantine_record : WriteArgs → Latch
new_quarantine_record a = record {
  state = "quarantined";
  scope = if a.physical_scope then "physical_gpu" else "worker_process";
  scope_set = true;
  worker_id = a.worker_id;
  origin_worker_id = "";
  hostname = a.target.hostname;
  device = a.target.device;
  event_id = a.event_id;
  created_at = a.now;
  fault_class = a.fault_class;
  reason = a.reason;
  task_id = a.task_id;
  node_id = a.node_id;
  manual_clear_required = "true";
  page_user_state = none;
  page = no_page;
  notification_provenance = "";
}

abbrev pub or_worker : Option Latch → Option Latch → Option Latch
or_worker none w = w
or_worker (some l) w = some l

unfoldable pub existing_durable_record : Latches → String → DeviceKey → Option Latch
existing_durable_record d worker k =
    or_worker (if is_named k then apply (normalize_device_record k) (d.device_latch k) else none)
      (d.worker_latch worker)

unfoldable pub preserves : WriteArgs → Latch → Bool
preserves a l =
    (is_physical l && (not (is_named a.target) || same_physical_gpu a.target l))
    || (not a.physical_scope
        && (l.scope == "worker_process"
            && (l.worker_id == a.worker_id
                && (l.hostname == a.target.hostname && l.device == a.target.device))))

abbrev pub chosen : WriteArgs → Option Latch → Latch
chosen a none = new_quarantine_record a
chosen a (some l) = if preserves a l then l else new_quarantine_record a

-- The record of a write: the latch that stands, or a new one.
unfoldable pub written_record : Latches → WriteArgs → Latch
written_record d a =
    let l = chosen a (existing_durable_record d a.worker_id a.target) in
    record l { page_user_state = some (or_else l.page_user_state "pending") }

abbrev pub key_of : Latch → DeviceKey
key_of l = record { hostname = l.hostname; device = l.device }

-- The latch under the name of another worker.
unfoldable pub alias_record : String → Latch → Latch
alias_record worker l =
    if worker == l.worker_id
    then l
    else record l { origin_worker_id = or_text l.origin_worker_id l.worker_id; worker_id = worker }

-- The paths of a record, written in their order: the device's where the latch is physical, then the worker's.
unfoldable pub write_aliases : Latch → String → Latches → Latches
write_aliases l worker d = record {
  device_latch =
      if is_physical l && is_named (key_of l)
      then update d.device_latch (key_of l) (some l)
      else d.device_latch;
  worker_latch = update d.worker_latch worker (some (alias_record worker l));
}

-- `_write_quarantine_durable_locked` where the files can be written.
unfoldable pub write_quarantine_durable : Latches → WriteArgs → Latches
unfolding written_record write_aliases
write_quarantine_durable d a = write_aliases (written_record d a) a.worker_id d

-- Whether a worker's latch stands for the device that is cleared.
abbrev pub stands_for : DeviceKey → Option Latch → Bool
stands_for k none = false
stands_for k (some l) = is_physical l && (l.hostname == k.hostname && l.device == k.device)

-- In Redis a latch whose `scope` is there and empty stands for its device too, one that has no `scope` does not.
abbrev pub redis_stands_for : DeviceKey → Option Latch → Bool
redis_stands_for k none = false
redis_stands_for k (some l) =
    ((l.scope == "" && l.scope_set) || is_physical l)
    && (l.hostname == k.hostname && l.device == k.device)

abbrev alias_of : Option Latch → List String
alias_of none = []
alias_of (some l) = l.worker_id ∷ []

-- The workers that the removed files name.
unfoldable pub durable_aliases : Latches → DeviceKey → List String → List String
durable_aliases d k [] = []
durable_aliases d k (w ∷ ws) =
    let rest = durable_aliases d k ws in
    if stands_for k (d.worker_latch w) then alias_of (d.worker_latch w) ++ rest else rest

unfoldable pub clear_durable : Latches → String → DeviceKey → Latches
clear_durable d worker k = record {
  device_latch = if is_named k then update d.device_latch k none else d.device_latch;
  worker_latch = λ w.
      if w == worker || (is_named k && stands_for k (d.worker_latch w))
      then none
      else d.worker_latch w;
}

unfoldable pub clear_redis : Latches → String → DeviceKey → List String → Latches
clear_redis r worker k aliases = record {
  device_latch = if is_named k then update r.device_latch k none else r.device_latch;
  worker_latch = λ w.
      if w == worker
        || (contains w aliases || (is_named k && redis_stands_for k (r.worker_latch w)))
      then none
      else r.worker_latch w;
}

unfoldable pub clear_gpu_quarantine :
    Latches → Latches → String → DeviceKey → List String → Latches × Latches
clear_gpu_quarantine durable redis worker k listed =
    let aliases = if is_named k then durable_aliases durable k listed else [] in
    (clear_durable durable worker k, clear_redis redis worker k aliases)
