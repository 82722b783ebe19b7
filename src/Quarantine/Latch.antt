-- ===== src/Quarantine/Latch.antt =====
-- One latch, its identity and its normal form (kernelgym/utils/gpu_quarantine.py). A missing field is the empty
-- text, save for `page_user_state` and an empty `scope`, whose absence the code tells apart. `digest` is the SHA-256 of an identity.
use kernel_gym.Prelude.{
  ℕ, String, Bool, true, false, not, ◌&&◌, ◌||◌, Option, some, ◌==◌, ◌≡◌, ◌↔◌, or_else,
  if◌then◌else◌, Eq, eq_iff, arith,
}

pub record Page : Type 0 where
  pub updated_at : String
  pub error : String
  pub sent_at : String
  pub claimed_at : String
  pub claim_owner : String
  pub attempt_count : ℕ

abbrev pub no_page : Page
no_page = record {
  updated_at = "";
  error = "";
  sent_at = "";
  claimed_at = "";
  claim_owner = "";
  attempt_count = 0;
}

pub record Latch : Type 0 where
  pub state : String
  pub scope : String
  -- whether an empty `scope` is a field of the record
  pub scope_set : Bool
  pub worker_id : String
  pub origin_worker_id : String
  pub hostname : String
  pub device : String
  pub event_id : String
  pub created_at : String
  pub fault_class : String
  pub reason : String
  pub task_id : String
  pub node_id : String
  pub manual_clear_required : String
  pub page_user_state : Option String
  -- the other `page_user_…` fields
  pub page : Page
  pub notification_provenance : String

pub record DeviceKey : Type 0 where
  pub hostname : String
  pub device : String

unfoldable pub device_key_eq : DeviceKey → DeviceKey → Bool
device_key_eq k j = k.hostname == j.hostname && k.device == j.device

pub device_key_eq_iff : (k j : DeviceKey) → (device_key_eq k j ≡ true) ↔ (k ≡ j)
unfolding device_key_eq
device_key_eq_iff k j = ground (arith, eq_iff k.hostname j.hostname, eq_iff k.device j.device)

instance abbrev pub device_key_Eq : Eq DeviceKey
device_key_Eq = record { beq = device_key_eq; beq_iff = device_key_eq_iff }

-- A query names its device by two texts that are not empty.
abbrev pub is_named : DeviceKey → Bool
is_named k = not (k.hostname == "") && not (k.device == "")

pub record Identity : Type 0 where
  pub scope : String
  pub hostname : String
  pub device : String
  pub worker_id : String
  pub fault_class : String
  pub reason : String
  pub task_id : String

abbrev pub is_physical : Latch → Bool
is_physical l = l.scope == "physical_gpu"

abbrev identity_of : Latch → Identity
identity_of l = record {
  scope = l.scope;
  hostname = l.hostname;
  device = l.device;
  worker_id = if is_physical l then "" else l.worker_id;
  fault_class = l.fault_class;
  reason = l.reason;
  task_id = l.task_id;
}

pub data Generation : Type 0 where
  event created legacy : String → Generation

unfoldable pub gpu_quarantine_generation : (Identity → String) → Latch → Generation
gpu_quarantine_generation digest l =
    if not (l.event_id == "")
    then event l.event_id
    else if not (l.created_at == "")
    then created l.created_at
    else legacy (digest (identity_of l))

unfoldable pub same_generation : Generation → Generation → Bool
same_generation (event a) (event b) = a == b
same_generation (created a) (created b) = a == b
same_generation (legacy a) (legacy b) = a == b
same_generation _ _ = false

unfoldable pub normalize_device_record : DeviceKey → Latch → Latch
normalize_device_record k l = record l {
  scope = "physical_gpu";
  hostname = k.hostname;
  device = k.device;
}

abbrev pub or_text : String → String → String
or_text a b = if a == "" then b else a

abbrev is_known : String → Bool
is_known scope = scope == "physical_gpu" || scope == "worker_process"

-- A latch without a known scope is a physical one, with its page to be sent.
abbrev with_scope : Latch → Latch
with_scope l =
    if is_known l.scope
    then l
    else record l { scope = "physical_gpu"; page_user_state = some "pending"; page = no_page }

unfoldable pub normalize_read_record : String → DeviceKey → Latch → Latch
normalize_read_record worker k l =
    let m = with_scope (record l {
      state = "quarantined";
      manual_clear_required = "true";
      page_user_state = some (or_else l.page_user_state "pending");
    }) in
    record m {
      worker_id = or_text m.worker_id worker;
      hostname = or_text m.hostname k.hostname;
      device = or_text m.device k.device;
    }

unfoldable pub same_physical_gpu : DeviceKey → Latch → Bool
same_physical_gpu k l =
    is_physical l && (is_named k && (l.hostname == k.hostname && l.device == k.device))

-- A worker's old latch on another GPU does not stand for the queried one.
unfoldable pub constrain_to_device : DeviceKey → Latch → Latch
unfolding same_physical_gpu
constrain_to_device k l =
    if not (is_physical l) || not (is_named k)
    then l
    else if same_physical_gpu k l
    then l
    else record l {
      scope = "worker_process";
      page_user_state = some "not_applicable";
      page = no_page;
    }
