-- ===== src/Quarantine/Merge.antt =====
-- How the four sources of a read are merged: _strongest_quarantine_record and _read_merged_quarantine
-- (kernelgym/utils/gpu_quarantine.py).
use kernel_gym.Prelude.{
  nat_eq, String, Bool, true, false, ◌&&◌, Option, none, some, List, [], ◌∷◌, if◌then◌else◌, holds,
}
use kernel_gym.Quarantine.Latch.{
  Page, or_text, Latch, DeviceKey, Identity, is_physical, is_named, gpu_quarantine_generation,
  same_generation, normalize_device_record, normalize_read_record, constrain_to_device,
}

abbrev pub apply : (Latch → Latch) → Option Latch → Option Latch
apply f none = none
apply f (some l) = some (f l)

pub record Sources : Type 0 where
  pub durable_device : Option Latch
  pub durable_worker : Option Latch
  pub redis_device : Option Latch
  pub redis_worker : Option Latch

-- The first latch that `keep` holds of.
unfoldable pub first_latch : (Latch → Bool) → List (Option Latch) → Option Latch
first_latch keep [] = none
first_latch keep (none ∷ rest) = first_latch keep rest
first_latch keep (some l ∷ rest) =
    let later = first_latch keep rest in if keep l then some l else later

abbrev pub ordered : DeviceKey → Sources → List (Option Latch)
ordered k s =
    s.durable_device
    ∷ apply (constrain_to_device k) s.durable_worker
    ∷ s.redis_device
    ∷ apply (constrain_to_device k) s.redis_worker
    ∷ []

abbrev or_first : Option Latch → Option Latch → Option Latch
or_first none b = b
or_first (some l) b = some l

abbrev pub any_latch : Latch → Bool
any_latch l = true

abbrev pub is_sent : Latch → Bool
is_sent l = is_physical l && holds l.page_user_state "sent"

-- Each field that is set is copied.
abbrev merge_page : Page → Page → Page
merge_page s p = record {
  updated_at = or_text s.updated_at p.updated_at;
  error = or_text s.error p.error;
  sent_at = or_text s.sent_at p.sent_at;
  claimed_at = or_text s.claimed_at p.claimed_at;
  claim_owner = or_text s.claim_owner p.claim_owner;
  attempt_count = if nat_eq s.attempt_count 0 then p.attempt_count else s.attempt_count;
}

-- The merged latch takes over the page of a latch of its own generation that was sent.
abbrev pub with_sent : (Identity → String) → Option Latch → Latch → Latch
with_sent digest none l = l
with_sent digest (some sent) l =
    if same_generation (gpu_quarantine_generation digest sent) (gpu_quarantine_generation digest l)
    then record l { page_user_state = some "sent"; page = merge_page sent.page l.page }
    else l

unfoldable pub strongest_quarantine_record :
    (Identity → String) → DeviceKey → Sources → Option Latch
strongest_quarantine_record digest k s =
    apply (with_sent digest (first_latch is_sent (ordered k s)))
      (or_first (first_latch is_physical (ordered k s)) (first_latch any_latch (ordered k s)))

-- The device's sources are read only where the query names a device.
abbrev pub if_named : DeviceKey → Option Latch → Option Latch
if_named k o = if is_named k then o else none

abbrev pub normal_sources : String → DeviceKey → Sources → Sources
normal_sources worker k s = record {
  durable_device =
      apply (λ l. normalize_read_record worker k (normalize_device_record k l))
        (if_named k s.durable_device);
  durable_worker = apply (normalize_read_record worker k) s.durable_worker;
  redis_device =
      apply (λ l. normalize_read_record worker k (normalize_device_record k l))
        (if_named k s.redis_device);
  redis_worker = apply (normalize_read_record worker k) s.redis_worker;
}

pub data Answer : Type 0 where
  redis_error : Answer
  open_gpu : Answer
  quarantined_by : Latch → Answer

abbrev pub without_redis : Bool → Sources → Sources
without_redis true s = s
without_redis false s = record s { redis_device = none; redis_worker = none }

abbrev pub answer : Bool → Option Latch → Answer
answer ok (some l) = quarantined_by l
answer true none = open_gpu
answer false none = redis_error

-- A read. Where Redis fails the durable latches decide, and with none of them the error is raised.
unfoldable pub read_merged_quarantine :
    (Identity → String) → Bool → String → DeviceKey → Sources → Answer
unfolding strongest_quarantine_record
read_merged_quarantine digest redis_ok worker k s =
    answer redis_ok
      (strongest_quarantine_record digest k (normal_sources worker k (without_redis redis_ok s)))
