-- ===== src/Quarantine/Exclusion.antt =====
-- A latch excludes its GPU until it is cleared, whatever Redis says (kernelgym/utils/gpu_quarantine.py).
use kernel_gym.Prelude.{
  String, Bool, true, false, ◌||◌, Option, none, some, List, ◌≡◌, ◌↔◌, ◌==◌, arith, refl, eq_iff,
  beq_refl, string_eq, eq_refl, subst, sym,
}
use kernel_gym.Quarantine.Latch.{
  Latch, DeviceKey, device_key_Eq, Identity, is_physical, is_named, normalize_device_record,
  normalize_read_record, same_physical_gpu,
}
use kernel_gym.Quarantine.Merge.{
  Sources, first_latch, ordered, is_sent, with_sent, strongest_quarantine_record, normal_sources,
  if_named, open_gpu, quarantined_by, without_redis, read_merged_quarantine,
}
use kernel_gym.Quarantine.Store.{
  Latches, sources_of, read_gpu_quarantine, WriteArgs, written_record, chosen, key_of,
  write_quarantine_durable, write_aliases, existing_durable_record, preserves,
  new_quarantine_record, clear_durable, clear_redis, clear_gpu_quarantine, stands_for,
  redis_stands_for,
}

-- What a merge keeps of a latch.
pub record Excludes (k : DeviceKey) (l r : Latch) : Type 0 where
  pub scope : r.scope ≡ "physical_gpu"
  pub hostname : r.hostname ≡ k.hostname
  pub device : r.device ≡ k.device
  pub event : r.event_id ≡ l.event_id
  -- a page that was sent stays sent
  pub page : l.page_user_state ≡ some "sent" → r.page_user_state ≡ some "sent"

module _ (digest : Identity → String) where
  -- A merge loses no latch: it is empty exactly where every source is.
  strongest-none :
      (k : DeviceKey) (s : Sources)
      → (strongest_quarantine_record digest k s ≡ none) ↔ (
          (s.durable_device ≡ none)
          × ((s.durable_worker ≡ none) × ((s.redis_device ≡ none) × (s.redis_worker ≡ none))))
  unfolding strongest_quarantine_record first_latch
  strongest-none k s = ground arith

  with_sent-Excludes :
      (k : DeviceKey) (l r : Latch) (o : Option Latch)
      → Excludes k l r
      → Excludes k l (with_sent digest o r)
  with_sent-Excludes k l r none e = e
  with_sent-Excludes k l r (some sent) e = record {
    scope = ground (arith, e.scope);
    hostname = ground (arith, e.hostname);
    device = ground (arith, e.device);
    event = ground (arith, e.event);
    page = ground (arith, e.page);
  }

  strongest-device :
      (k : DeviceKey) (s : Sources) (l : Latch)
      → s.durable_device ≡ some l
      → is_physical l ≡ true
      → strongest_quarantine_record digest k s
        ≡ some (with_sent digest (first_latch is_sent (ordered k s)) l)
  unfolding strongest_quarantine_record first_latch
  strongest-device k s l e p = ground (arith, e, p)

  normal-Excludes :
      (worker : String) (k : DeviceKey) (l : Latch)
      → is_named k ≡ true
      → Excludes k l (normalize_read_record worker k (normalize_device_record k l))
  unfolding normalize_read_record normalize_device_record
  normal-Excludes worker k l n = record {
    scope = refl;
    hostname = ground (arith, n);
    device = ground (arith, n);
    event = refl;
    page = λ h. rw h refl;
  }

  -- A durable latch of a GPU excludes it: every read that names the device, by whatever worker, with whatever is in Redis
  -- and even where Redis fails, finds it quarantined as a physical GPU, under the same event, and with its page sent if it was.
  pub device_latch-Excludes :
      (durable redis : Latches) (redis_ok : Bool) (worker : String) (k : DeviceKey) (l : Latch)
      → is_named k ≡ true
      → durable.device_latch k ≡ some l
      → (r : Latch) × ((read_gpu_quarantine digest durable redis redis_ok worker k
            ≡ quarantined_by r)
          × Excludes k l r)
  unfolding read_gpu_quarantine read_merged_quarantine normalize_read_record normalize_device_record
  device_latch-Excludes durable redis redis_ok worker k l n h =
      let s =
        normal_sources worker k (without_redis redis_ok (sources_of durable redis worker k)) in
      let m = normalize_read_record worker k (normalize_device_record k l) in
      let e = strongest-device k s m (device-source redis_ok) refl in
      (
        with_sent digest (first_latch is_sent (ordered k s)) m,
        (rw e refl, with_sent-Excludes k l m _ (normal-Excludes worker k l n)),
      )
    where
      device-source :
          (b : Bool)
          → (normal_sources worker k
              (without_redis b (sources_of durable redis worker k))).durable_device
            ≡ some (normalize_read_record worker k (normalize_device_record k l))
      device-source true = rw n (rw h refl)
      device-source false = rw n (rw h refl)

  -- A GPU is found open exactly where Redis answers and no source that the read looks at holds a latch: of the device,
  -- where it is named, and of the worker.
  pub read-open :
      (durable redis : Latches) (redis_ok : Bool) (worker : String) (k : DeviceKey)
      → (read_gpu_quarantine digest durable redis redis_ok worker k ≡ open_gpu) ↔ (
          (redis_ok ≡ true)
          × ((if_named k (durable.device_latch k) ≡ none)
              × ((durable.worker_latch worker ≡ none)
                  × ((if_named k (redis.device_latch k) ≡ none)
                      × (redis.worker_latch worker ≡ none)))))
  unfolding read_gpu_quarantine read_merged_quarantine
  read-open durable redis true worker k =
      ground (arith, strongest-none k (normal_sources worker k (sources_of durable redis worker k)))
  read-open durable redis false worker k = ground arith

-- The latch of a physical write is the device's.
record Targets (a : WriteArgs) (l : Latch) : Type 0 where
  scope : l.scope ≡ "physical_gpu"
  hostname : l.hostname ≡ a.target.hostname
  device : l.device ≡ a.target.device

module _ (a : WriteArgs) (n : is_named a.target ≡ true) (p : a.physical_scope ≡ true) where
  chosen-Targets : (o : Option Latch) → Targets a (chosen a o)
  unfolding preserves new_quarantine_record same_physical_gpu
  chosen-Targets none = record { scope = ground (arith, p); hostname = refl; device = refl }
  chosen-Targets (some l) = record {
    scope = ground (arith, p, n, eq_iff l.scope "physical_gpu");
    hostname = ground (arith, p, n, eq_iff l.hostname a.target.hostname);
    device = ground (arith, p, n, eq_iff l.device a.target.device);
  }

  written-Targets : (d : Latches) → Targets a (written_record d a)
  unfolding written_record
  written-Targets d =
      let t = chosen-Targets (existing_durable_record d a.worker_id a.target) in
      record { scope = t.scope; hostname = t.hostname; device = t.device }

  Targets-key : (l : Latch) → Targets a l → (is_physical l ≡ true) × (key_of l ≡ a.target)
  Targets-key l t = (rw t.scope (eq_refl "physical_gpu"), ground (arith, t.hostname, t.device))

  aliases-device :
      (d : Latches) (l : Latch)
      → Targets a l
      → (write_aliases l a.worker_id d).device_latch a.target ≡ some l
  unfolding write_aliases
  aliases-device d l t =
      let k = Targets-key l t in
      let named = subst (λ j. is_named j ≡ true) (sym k.1) n in
      rw k.0 (rw named (rw k.1 (rw (beq_refl a.target) refl)))

  written-device :
      (d : Latches)
      → (write_quarantine_durable d a).device_latch a.target ≡ some (written_record d a)
  unfolding write_quarantine_durable
  written-device d = aliases-device d (written_record d a) (written-Targets d)

-- A GPU that was quarantined stays excluded: once a physical latch has been written for a named device, every read that
-- names the device, by any worker, with anything in Redis and even where Redis fails, finds the physical
-- GPU quarantined, under the event that the write returned.
pub write_then_read :
    (digest : Identity → String) (d redis : Latches) (a : WriteArgs) (redis_ok : Bool)
    (worker : String)
    → is_named a.target ≡ true
    → a.physical_scope ≡ true
    → (r : Latch) × ((read_gpu_quarantine digest
            (write_quarantine_durable d a)
            redis
            redis_ok
            worker
            a.target
          ≡ quarantined_by r)
        × Excludes a.target (written_record d a) r)
write_then_read digest d redis a redis_ok worker n p =
    device_latch-Excludes digest (write_quarantine_durable d a) redis redis_ok worker a.target
      (written_record d a) n (written-device a n p d)

-- A device's latch that stands is the one of the next write.
second-event :
    (d : Latches) (b : WriteArgs) (l : Latch)
    → is_named b.target ≡ true
    → d.device_latch b.target ≡ some l
    → (written_record d b).event_id ≡ l.event_id
unfolding written_record existing_durable_record preserves same_physical_gpu normalize_device_record
second-event d b l n h = ground (arith, n, h, eq_refl b.target.hostname, eq_refl b.target.device)

-- The first latch of a device stands: after a physical write for a named device, a second write for it, by any worker and
-- of either scope, returns the first one's event.
pub first_latch_stands :
    (d : Latches) (a b : WriteArgs)
    → is_named a.target ≡ true
    → a.physical_scope ≡ true
    → b.target ≡ a.target
    → (written_record (write_quarantine_durable d a) b).event_id ≡ (written_record d a).event_id
first_latch_stands d a b n p t =
    second-event (write_quarantine_durable d a) b (written_record d a) (ground (arith, n, t)) (
      subst (λ k. (write_quarantine_durable d a).device_latch k ≡ some (written_record d a)) (sym t)
        (written-device a n p d))

-- Whether a clear of the device `k` by `worker` removes what `v` has.
abbrev pub cleared : String → String → Bool → Option Latch → Bool
cleared worker v stands none = true
cleared worker v stands (some l) = v == worker || stands

-- A clear opens the GPU: after it, a read that names the device finds it open where Redis answers, by the worker that was
-- named and by every worker whose own latches stand for that device.
pub clear_then_read :
    (digest : Identity → String) (d redis : Latches) (worker : String) (k : DeviceKey)
    (listed : List String) (v : String)
    → is_named k ≡ true
    → cleared worker v (stands_for k (d.worker_latch v)) (d.worker_latch v) ≡ true
    → cleared worker v (redis_stands_for k (redis.worker_latch v)) (redis.worker_latch v) ≡ true
    → read_gpu_quarantine digest
        (clear_gpu_quarantine d redis worker k listed).0
        (clear_gpu_quarantine d redis worker k listed).1
        true
        v
        k
      ≡ open_gpu
unfolding clear_gpu_quarantine clear_durable clear_redis
clear_then_read digest d redis worker k listed v n x y =
    (read-open digest (clear_gpu_quarantine d redis worker k listed).0
        (clear_gpu_quarantine d redis worker k listed).1 true v k).1
      (
        refl,
        (
          rw n (rw (beq_refl k) refl),
          (ground (arith, n, x), (rw n (rw (beq_refl k) refl), ground (arith, n, y))),
        ),
      )
