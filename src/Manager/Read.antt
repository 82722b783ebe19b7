-- ===== src/Manager/Read.antt =====
-- What `TaskManager` tells of a task: get_task_status (of a task that is no workflow's parent),
-- get_task_result, _dequeued_task_cancelled and _dropped_before_dispatch
-- (kernelgym/server/task_manager.py).
use kernel_gym.Prelude.{
  String, Bool, true, false, not, ◌&&◌, ◌||◌, Option, none, some, if◌then◌else◌, ◌==◌, or_else,
  is_blank, text_of,
}
use kernel_gym.Redis.Keys.{TaskKey, cancel_key, tombstone_key}
use kernel_gym.Redis.{
  Db, Status, pending, completed, failed, Payload, ResultHash, TaskHash, is_terminal, marked,
}
use kernel_gym.Manager.State.{Settings}
use kernel_gym.Manager.Finish.{task_status_from_result_payload, key_of}

-- The text of a status in the result's JSON.
unfoldable pub status_text : Status → String
status_text s = elim s [
  | Status.pending ↦ "pending"
  | Status.processing ↦ "processing"
  | Status.completed ↦ "completed"
  | Status.failed ↦ "failed"
  | Status.timeout ↦ "timeout"
]

pub record StatusReply : Type 0 where
  pub status : Status
  pub completed_at : Option String
  pub failed_at : Option String
  pub error_message : Option String
  pub submitted_at : Option String
  pub started_at : Option String

unfoldable pub payload_status : Payload → Status
payload_status p = task_status_from_result_payload (status_text p.status) (or_else p.error_code "")

abbrev is_completed : Status → Bool
is_completed completed = true
is_completed _ = false

-- A result without a payload is a failure, or a timeout by its error code.
unfoldable pub stored_status : ResultHash → Option Payload → Status
unfolding payload_status
stored_status r (some p) = payload_status p
stored_status r none =
    if is_blank r.error_code
    then failed
    else task_status_from_result_payload "failed" (text_of r.error_code)

abbrev payload_message : Option Payload → Option String
payload_message none = none
payload_message (some p) = if is_completed (payload_status p) then none else p.error_message

abbrev first_of : Option String → Option String → Option String
first_of none b = b
first_of (some a) b = some a

abbrev pub result_reply : ResultHash → StatusReply
result_reply r = record {
  status = stored_status r r.result;
  completed_at = r.completed_at;
  failed_at = r.failed_at;
  error_message = first_of (payload_message r.result) r.error;
  submitted_at = none;
  started_at = none;
}

abbrev pub task_reply : TaskHash → StatusReply
task_reply h = record {
  status = or_else h.status pending;
  completed_at = none;
  failed_at = none;
  error_message = none;
  submitted_at = some (text_of h.stamps.submitted_at);
  started_at = some (text_of h.stamps.started_at);
}

abbrev from_task : Option TaskHash → Option StatusReply
from_task none = none
from_task (some h) = some (task_reply h)

-- One prefix of the loop: the result hash comes before the task hash.
unfoldable pub status_under : Db → TaskKey → Option ResultHash → Option StatusReply
status_under db k (some r) = some (result_reply r)
status_under db k none = from_task (db.tasks k)

abbrev otherwise {ℓ} : {A : Type ℓ} → Option A → Option A → Option A
otherwise (some a) b = some a
otherwise none b = b

abbrev under_legacy {ℓ} : {A : Type ℓ} → Option String → (String → Option A) → Option A
under_legacy none f = none
under_legacy (some p) f = f p

-- `_prefixes_for_read`: the legacy prefix, where it is set and another one.
unfoldable pub legacy_of : Settings → Option String
legacy_of c =
    if c.legacy_prefix == "" || c.legacy_prefix == c.key_prefix then none else some c.legacy_prefix

unfoldable pub get_task_status : Settings → Db → String → Option StatusReply
unfolding status_under
get_task_status c db id =
    otherwise (status_under db (key_of c.key_prefix id) (db.results (key_of c.key_prefix id)))
      (under_legacy (legacy_of c) λ p. status_under db (key_of p id) (db.results (key_of p id)))

pub data ResultReply : Type 0 where
  -- the payload with its time
  finished : Option String → Payload → ResultReply
  -- the message and the code of a failure
  errored : Option String → String → String → ResultReply

abbrev hash_matches : Option String → Option String → Bool
hash_matches none stored = true
hash_matches (some expected) stored = not (is_blank stored) && text_of stored == expected

abbrev stored_reply : Option Payload → Option String → ResultHash → Option ResultReply
stored_reply (some p) e r = some (finished (some (text_of r.completed_at)) p)
stored_reply none (some e) r =
    some (errored (some (text_of r.failed_at)) e (or_else r.error_code "UNKNOWN_ERROR"))
stored_reply none none r = none

-- One prefix of the loop: a hash with another request's result ends the call with nothing, and one
-- without a result leaves it to the next prefix.
unfoldable pub result_under :
    Option String → Option ResultHash → Option ResultReply → Option ResultReply
result_under expected none next = next
result_under expected (some r) next =
    if hash_matches expected r.request_hash
    then otherwise (stored_reply r.result r.error r) next
    else none

unfoldable pub get_task_result : Settings → Db → String → Option String → Option ResultReply
unfolding result_under
get_task_result c db id expected =
    result_under expected (db.results (key_of c.key_prefix id))
      (under_legacy (legacy_of c) λ p. result_under expected (db.results (key_of p id)) none)

unfoldable pub dropped_before_dispatch : Option TaskHash → Bool
dropped_before_dispatch none = false
dropped_before_dispatch (some h) = is_terminal h.status

unfoldable pub dequeued_task_cancelled : Db → String → String → String → Bool
dequeued_task_cancelled db prefix id base =
    marked db (cancel_key prefix id)
    || (marked db (tombstone_key prefix id)
        || (not (base == "")
            && not (base == id)
            && (marked db (cancel_key prefix base) || marked db (tombstone_key prefix base))))
