-- ===== src/Examples/Latches.antt =====
-- A GPU that two workers quarantine, and that is cleared.
use kernel_gym.Prelude.{String, Bool, true, false, none, [], ◌∷◌, ◌≡◌, ◌↔◌, refl}
use kernel_gym.Quarantine.Latch.{Latch, DeviceKey, Identity}
use kernel_gym.Quarantine.Merge.{open_gpu, quarantined_by, if_named}
use kernel_gym.Quarantine.Store.{
  Latches, WriteArgs, read_gpu_quarantine, write_quarantine_durable, written_record,
  clear_gpu_quarantine,
}
use kernel_gym.Quarantine.Paging.{acquire_claim, claimed, take_page, finish_claim, is_claimed}
use kernel_gym.Quarantine.Once.{page_sent_once}
use kernel_gym.Quarantine.Exclusion.{
  Excludes, read-open, write_then_read, first_latch_stands, clear_then_read,
}

abbrev no_latches : Latches
no_latches = record { device_latch = λ k. none; worker_latch = λ w. none }

abbrev gpu0 : DeviceKey
gpu0 = record { hostname = "node1"; device = "cuda:0" }

-- What the hash of an identity is does not matter here.
abbrev hashed : Identity → String
hashed i = i.reason

abbrev first_write : WriteArgs
first_write = record {
  worker_id = "w1";
  target = gpu0;
  reason = "Xid";
  fault_class = "device";
  task_id = "t1";
  node_id = "n1";
  physical_scope = true;
  event_id = "e1";
  now = "s";
}

abbrev second_write : WriteArgs
second_write = record first_write { worker_id = "w2"; event_id = "e2"; physical_scope = false }

abbrev latched : Latches
latched = write_quarantine_durable no_latches first_write

write_then_read_example :
    (r : Latch) × ((read_gpu_quarantine hashed latched no_latches false "w2" gpu0
        ≡ quarantined_by r)
      × Excludes gpu0 (written_record no_latches first_write) r)
write_then_read_example =
    write_then_read hashed no_latches no_latches first_write false "w2" refl refl

first_latch_stands_example :
    (written_record latched second_write).event_id
    ≡ (written_record no_latches first_write).event_id
first_latch_stands_example = first_latch_stands no_latches first_write second_write refl refl refl

clear_then_read_example :
    read_gpu_quarantine hashed
      (clear_gpu_quarantine latched no_latches "w1" gpu0 ("w1" ∷ [])).0
      (clear_gpu_quarantine latched no_latches "w1" gpu0 ("w1" ∷ [])).1
      true
      "w1"
      gpu0
    ≡ open_gpu
unfolding write_quarantine_durable
clear_then_read_example =
    clear_then_read hashed latched no_latches "w1" gpu0 ("w1" ∷ []) "w1" refl refl refl

read-open_example : (read_gpu_quarantine hashed latched no_latches true "w1" gpu0 ≡ open_gpu) ↔ (
    (◌≡◌ {A = Bool} true true)
    × ((if_named gpu0 (latched.device_latch gpu0) ≡ none)
        × ((latched.worker_latch "w1" ≡ none)
            × ((if_named gpu0 (no_latches.device_latch gpu0) ≡ none)
                × (no_latches.worker_latch "w1" ≡ none)))))
read-open_example = read-open hashed latched no_latches true "w1" gpu0

abbrev written : Latch
written = written_record no_latches first_write

abbrev being_sent : Latch
being_sent = take_page "s" "42" written

claims : (acquire_claim hashed latched written "s" "42").1 ≡ claimed being_sent
unfolding acquire_claim written_record kernel_gym.Quarantine.Store.existing_durable_record
    kernel_gym.Quarantine.Store.new_quarantine_record write_quarantine_durable
    kernel_gym.Quarantine.Latch.device_key_eq kernel_gym.Quarantine.Latch.same_generation
    kernel_gym.Quarantine.Latch.gpu_quarantine_generation
    kernel_gym.Quarantine.Latch.normalize_device_record
claims = refl

-- Another worker's own latch on the same GPU.
abbrev of_worker : Latch
of_worker = record written { scope = "worker_process"; worker_id = "w2" }

page_sent_once_example :
    is_claimed
      (acquire_claim hashed (finish_claim latched being_sent "w1" true "u" "") of_worker "v" "43").1
    ≡ false
unfolding written_record kernel_gym.Quarantine.Store.existing_durable_record
    kernel_gym.Quarantine.Store.new_quarantine_record
page_sent_once_example =
    page_sent_once hashed latched latched written of_worker being_sent "s" "42" "v" "43" "u" "" refl
      claims refl
