-- ===== src/Quarantine/Once.antt =====
-- A page about a GPU's quarantine is sent once (kernelgym/utils/gpu_quarantine.py).
use kernel_gym.Prelude.{
  String, Bool, true, false, Option, none, some, ◌≡◌, arith, refl, sym, subst, holds_self, eq_refl,
  beq_refl, ap, ◌∙◌,
}
use kernel_gym.Quarantine.Latch.{
  Latch, DeviceKey, device_key_Eq, Identity, is_physical, is_named, normalize_device_record,
}
use kernel_gym.Quarantine.Merge.{apply}
use kernel_gym.Quarantine.Store.{Latches, write_aliases, key_of}
use kernel_gym.Quarantine.Paging.{
  claimed, is_claimed, is_claimable, acquire_claim, claim_current, take_page, finished_page,
  finish_claim,
}

-- No record of a device whose latch has its page sent is claimed.
sent-unclaimed :
    (digest : Identity → String) (d : Latches) (l c : Latch) (now owner : String)
    → d.device_latch (key_of l) ≡ some c
    → c.page_user_state ≡ some "sent"
    → is_claimed (acquire_claim digest d l now owner).1 ≡ false
unfolding acquire_claim normalize_device_record
sent-unclaimed digest d l c now owner h s = ground (arith, h, s, holds_self "sent")

claim_current-claimed :
    (digest : Identity → String) (d : Latches) (l r : Latch) (now owner : String) (o : Option Latch)
    → (claim_current digest d l now owner o).1 ≡ claimed r
    → (c : Latch) × ((o ≡ some c) × (r ≡ take_page now owner c))
claim_current-claimed digest d l r now owner none h = ground (arith, h)
claim_current-claimed digest d l r now owner (some c) h = (c, (refl, ground (arith, h)))

acquire-physical :
    (digest : Identity → String) (d : Latches) (l r : Latch) (now owner : String)
    → is_physical l ≡ true
    → (acquire_claim digest d l now owner).1 ≡ claimed r
    → (is_claimable l ≡ true)
      × ((claim_current digest d l now owner
            (apply (normalize_device_record (key_of l)) (d.device_latch (key_of l)))).1
          ≡ claimed r)
unfolding acquire_claim
acquire-physical digest d l r now owner p h = ground (arith, p, h)

normalized-scope :
    (k : DeviceKey) (o : Option Latch) (c : Latch)
    → apply (normalize_device_record k) o ≡ some c
    → (c.scope ≡ "physical_gpu") × (key_of c ≡ k)
unfolding normalize_device_record
normalized-scope k none c h = ground (arith, h)
normalized-scope k (some x) c h = ground (arith, h)

normalized-device :
    (k : DeviceKey) (o : Option Latch) (c : Latch)
    → apply (normalize_device_record k) o ≡ some c
    → (is_physical c ≡ true) × (key_of c ≡ k)
normalized-device k o c h =
    let n = normalized-scope k o c h in (rw n.0 (eq_refl "physical_gpu"), n.1)

-- What is claimed is the device's latch, with a page that is being sent.
claim-device :
    (digest : Identity → String) (d : Latches) (l r : Latch) (now owner : String)
    → is_physical l ≡ true
    → (acquire_claim digest d l now owner).1 ≡ claimed r
    → (is_physical r ≡ true) × ((key_of r ≡ key_of l) × (is_named (key_of l) ≡ true))
unfolding take_page
claim-device digest d l r now owner p h =
    let a = acquire-physical digest d l r now owner p h in
    let c = claim_current-claimed digest d l r now owner _ a.1 in
    let n = normalized-device (key_of l) (d.device_latch (key_of l)) c.0 c.1.0 in
    (rw c.1.1 n.0, (ap key_of c.1.1 ∙ n.1, named_of l a.0))
  where
    named_of : (l : Latch) → is_claimable l ≡ true → is_named (key_of l) ≡ true
    named_of l h = ground (arith, h)

finish-device :
    (d : Latches) (r : Latch) (worker : String) (sent : Bool) (now error : String)
    → is_physical r ≡ true
    → is_named (key_of r) ≡ true
    → (finish_claim d r worker sent now error).device_latch (key_of r)
      ≡ some (finished_page sent now error r)
unfolding finish_claim write_aliases finished_page
finish-device d r worker sent now error p n = rw p (rw n (rw (beq_refl (key_of r)) refl))

-- A page is sent once for one latch: where a claim about a physical GPU ends with a page that was sent, no later claim that
-- names that GPU is given while that latch stands, by whatever worker and with whatever record, be it the GPU's or a
-- worker's own.
pub page_sent_once :
    (digest : Identity → String) (d e : Latches) (l m r : Latch)
    (now owner now' owner' at error : String)
    → is_physical l ≡ true
    → (acquire_claim digest d l now owner).1 ≡ claimed r
    → key_of m ≡ key_of l
    → is_claimed (acquire_claim digest (finish_claim e r l.worker_id true at error) m now' owner').1
      ≡ false
unfolding finished_page
page_sent_once digest d e l m r now owner now' owner' at error p h k =
    let c = claim-device digest d l r now owner p h in
    let f =
      finish-device e r l.worker_id true at error c.0
        (subst (λ j. is_named j ≡ true) (sym c.1.0) c.1.1) in
    sent-unclaimed digest (finish_claim e r l.worker_id true at error) m
      (finished_page true at error r) now' owner'
      (subst
        (λ j.
          (finish_claim e r l.worker_id true at error).device_latch j
          ≡ some (finished_page true at error r))
        (c.1.0 ∙ sym k) f)
      refl
