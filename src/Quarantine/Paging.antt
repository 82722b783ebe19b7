-- ===== src/Quarantine/Paging.antt =====
-- The claims under which a page about a quarantine is sent: acquire_gpu_quarantine_notification_claim and
-- finish_gpu_quarantine_notification_claim (kernelgym/utils/gpu_quarantine.py). Each runs under the device's lock.
use kernel_gym.Prelude.{
  suc, String, Bool, true, false, not, ◌&&◌, ◌||◌, Option, none, some, ◌==◌, if◌then◌else◌, holds,
}
use kernel_gym.Quarantine.Latch.{
  Latch, Identity, is_physical, is_named, gpu_quarantine_generation, same_generation,
  normalize_device_record,
}
use kernel_gym.Quarantine.Merge.{apply}
use kernel_gym.Quarantine.Store.{Latches, write_aliases, key_of}

pub data Claim : Type 0 where
  -- the record is no latch of a named device and worker
  invalid : Claim
  -- the event was cleared or replaced, or a physical latch stands above it
  superseded : Latch → Claim
  already_sent : Latch → Claim
  claimed : Latch → Claim

abbrev pub is_worker_scope : Latch → Bool
is_worker_scope l = l.scope == "worker_process"

abbrev pub is_claimable : Latch → Bool
is_claimable l =
    (is_physical l || is_worker_scope l) && (is_named (key_of l) && not (l.worker_id == ""))

unfoldable pub take_page : String → String → Latch → Latch
take_page now owner l = record l {
  page_user_state = some "sending";
  page = record (l.page) {
    claimed_at = now;
    claim_owner = owner;
    attempt_count = suc l.page.attempt_count;
  };
}

-- The latch that stands for the event, where it is of the generation of the record.
abbrev pub claim_current :
    (Identity → String) → Latches → Latch → String → String → Option Latch → Latches × Claim
claim_current digest d l now owner none = (d, superseded l)
claim_current digest d l now owner (some c) =
    if not
      (same_generation (gpu_quarantine_generation digest c) (gpu_quarantine_generation digest l))
    then (d, superseded c)
    else if holds c.page_user_state "sent"
    then (d, already_sent c)
    else (write_aliases (take_page now owner c) l.worker_id d, claimed (take_page now owner c))

abbrev worker_current : Option Latch → Option Latch
worker_current none = none
worker_current (some w) = if is_worker_scope w then some w else none

-- A physical latch suppresses the page about a worker.
abbrev claim_worker :
    (Identity → String) → Latches → Latch → String → String → Option Latch → Latches × Claim
claim_worker digest d l now owner (some device) = (d, superseded device)
claim_worker digest d l now owner none =
    claim_current digest d l now owner (worker_current (d.worker_latch l.worker_id))

unfoldable pub acquire_claim :
    (Identity → String) → Latches → Latch → String → String → Latches × Claim
acquire_claim digest d l now owner =
    let device = apply (normalize_device_record (key_of l)) (d.device_latch (key_of l)) in
    if not (is_claimable l)
    then (d, invalid)
    else if is_physical l
    then claim_current digest d l now owner device
    else claim_worker digest d l now owner device

unfoldable pub finished_page : Bool → String → String → Latch → Latch
finished_page sent now error l = record l {
  page_user_state = some (if sent then "sent" else "failed");
  page = record (l.page) {
    updated_at = now;
    error = error;
    claim_owner = "";
    sent_at = if sent then now else l.page.sent_at;
  };
}

-- `finish_gpu_quarantine_notification_claim` of a claim that is held.
unfoldable pub finish_claim : Latches → Latch → String → Bool → String → String → Latches
finish_claim d l worker sent now error = write_aliases (finished_page sent now error l) worker d

abbrev pub is_claimed : Claim → Bool
is_claimed (claimed l) = true
is_claimed _ = false
