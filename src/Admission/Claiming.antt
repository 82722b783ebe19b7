-- ===== src/Admission/Claiming.antt =====
-- What the claim script hands out (_CLAIM_GPU_TASK_LUA of kernelgym/server/task_manager.py).
use kernel_gym.Prelude.{
  ℕ, zero, suc, ◌<◌, ◌+◌, ◌≤◌, String, true, false, none, some, List, [], ◌∷◌, ◌++◌, ◌≡◌, ◌⊎◌, ◌-◌,
  refl, ap, ◌∙◌, sym, arith, rpop, rpop-append, length, Bool-cases, inl, inr, update-update,
  update-same, update-at, Option-cases, beq_refl, subst, or_else, is_blank, eq_iff, Option,
}
use kernel_gym.Redis.Keys.{QueueKey, queue_key_Eq, TaskKey, task_key_Eq, Item, entry}
use kernel_gym.Redis.{Db, pending, unfenced, task_at, task_exists, set_queue, lease_owner}
use kernel_gym.Scripts.Guard.{workflow_task_allowed}
use kernel_gym.Scripts.Dispatch.{
  ClaimArgs, item_text, claim_key, claimable, take_claim, claim_gpu_task,
}

-- No item of the list is a task that may be claimed.
abbrev pub Debris : Db → ClaimArgs → List Item → Type 0
Debris db a [] = Unit {0}
Debris db a (x ∷ xs) = (claimable db (claim_key a x) ≡ false) × Debris db a xs

-- The queue that still has the items `ds` to its right, the first of `ds` at the end where RPOP takes.
abbrev pub behind : List Item → List Item → List Item
behind [] rest = rest
behind (d ∷ ds) rest = behind ds rest ++ d ∷ []

set_queue_twice :
    (db : Db) (q : QueueKey) (l m : List Item) → set_queue (set_queue db q l) q m ≡ set_queue db q m
set_queue_twice db q l m = ap (λ f. record db { queues = f }) (update-update db.queues q l m)

set_queue_self : (db : Db) (q : QueueKey) → set_queue db q (db.queues q) ≡ db
set_queue_self db q = ap (λ f. record db { queues = f }) (update-same db.queues q)

set_queue_of : (db : Db) (q : QueueKey) (l : List Item) → db.queues q ≡ l → set_queue db q l ≡ db
set_queue_of db q l e = ap (λ m. set_queue db q m) (sym e) ∙ set_queue_self db q

-- Claimability does not read the queues.
claimable-set_queue :
    (db : Db) (a : ClaimArgs) (q : QueueKey) (l : List Item) (x : Item)
    → claimable db (claim_key a x) ≡ true
    → claimable (set_queue db q l) (claim_key a x) ≡ true
unfolding claimable workflow_task_allowed lease_owner
claimable-set_queue db a q l x c = c

Debris-set_queue :
    (db : Db) (a : ClaimArgs) (q : QueueKey) (l ds : List Item)
    → Debris db a ds
    → Debris (set_queue db q l) a ds
unfolding claimable workflow_task_allowed lease_owner
Debris-set_queue db a q l [] h = tt
Debris-set_queue db a q l (d ∷ ds) h = (h.0, Debris-set_queue db a q l ds h.1)

-- One round of the loop.
module _ (n : ℕ) (db : Db) (a : ClaimArgs) (x : Item) (rest : List Item) where
  claim_take :
      rpop (db.queues a.source) ≡ some (x, rest)
      → claimable (set_queue db a.source rest) (claim_key a x) ≡ true
      → claim_gpu_task (suc n) db a
        ≡ (take_claim (set_queue db a.source rest) a x, some (item_text x))
  unfolding claim_gpu_task
  claim_take p c = rw (p, claim_gpu_task) (rw c refl)

  claim_pass :
      rpop (db.queues a.source) ≡ some (x, rest)
      → claimable (set_queue db a.source rest) (claim_key a x) ≡ false
      → claim_gpu_task (suc n) db a ≡ claim_gpu_task n (set_queue db a.source rest) a
  unfolding claim_gpu_task
  claim_pass p c = rw (p, claim_gpu_task) (rw c refl)

-- The loop passes over debris: it goes on, with the debris gone and as much of the limit used up.
claim_skips :
    (ds : List Item) (n m : ℕ) (db : Db) (a : ClaimArgs) (rest : List Item)
    → n ≡ length ds + m
    → db.queues a.source ≡ behind ds rest
    → Debris db a ds
    → claim_gpu_task n db a ≡ claim_gpu_task m (set_queue db a.source rest) a
unfolding claim_gpu_task
claim_skips [] n m db a rest e q h =
    let same : n ≡ m = omega arith in
    ap (λ k. claim_gpu_task k db a) same
    ∙ ap (λ d. claim_gpu_task m d a) (sym (set_queue_of db a.source rest q))
claim_skips (d ∷ ds) zero m db a rest e q h = absurd (omega arith)
claim_skips (d ∷ ds) (suc n) m db a rest e q h =
    let db' = set_queue db a.source (behind ds rest) in
    let popped : rpop (db.queues a.source) ≡ some (d, behind ds rest) =
      ap rpop q ∙ rpop-append (behind ds rest) d in
    let left = Debris-set_queue db a a.source (behind ds rest) (d ∷ ds) h in
    let more =
      claim_skips ds n m db' a rest (omega arith) (update-at db.queues a.source (behind ds rest))
        left.1 in
    claim_pass n db a d (behind ds rest) popped left.0
    ∙ (more ∙ ap (λ e. claim_gpu_task m e a) (set_queue_twice db a.source (behind ds rest) rest))

claim_hit :
    (n : ℕ) (db : Db) (a : ClaimArgs) (front : List Item) (x : Item)
    → claimable db (claim_key a x) ≡ true
    → claim_gpu_task (suc n) (set_queue db a.source (front ++ x ∷ [])) a
      ≡ (take_claim (set_queue db a.source front) a x, some (item_text x))
unfolding claim_gpu_task
claim_hit n db a front x c =
    let db' = set_queue db a.source (front ++ x ∷ []) in
    let popped : rpop (db'.queues a.source) ≡ some (x, front) =
      ap rpop (update-at db.queues a.source (front ++ x ∷ [])) ∙ rpop-append front x in
    let hit =
      claimable-set_queue db' a a.source front x
        (claimable-set_queue db a a.source (front ++ x ∷ []) x c) in
    claim_take n db' a x front popped hit
    ∙ ap (λ d. (take_claim d a x, some (item_text x)))
        (set_queue_twice db a.source (front ++ x ∷ []) front)

claim_stop : (db : Db) (a : ClaimArgs) → claim_gpu_task 0 db a ≡ (db, none)
unfolding claim_gpu_task
claim_stop db a = refl

claim_empty :
    (n : ℕ) (db : Db) (a : ClaimArgs) → db.queues a.source ≡ [] → claim_gpu_task n db a ≡ (db, none)
unfolding claim_gpu_task rpop
claim_empty zero db a q = refl
claim_empty (suc n) db a q =
    let popped : rpop (db.queues a.source) ≡ none = ap rpop q in rw (popped, claim_gpu_task) refl

-- With a claimable task in the queue, and no more debris to its right than the limit lets pass, the
-- script hands out the rightmost claimable task and takes it and the debris off the queue.
pub claim_first :
    (n : ℕ) (db : Db) (a : ClaimArgs) (front ds : List Item) (x : Item)
    → db.queues a.source ≡ behind ds (front ++ x ∷ [])
    → Debris db a ds
    → claimable db (claim_key a x) ≡ true
    → length ds < n
    → claim_gpu_task n db a ≡ (take_claim (set_queue db a.source front) a x, some (item_text x))
claim_first n db a front ds x q h c lt =
    claim_skips ds n (suc (n - length ds - 1)) db a (front ++ x ∷ []) (omega arith) q h
    ∙ claim_hit (n - length ds - 1) db a front x c

-- With nothing but debris there is no task: the queue is empty, or the limit is used up.
pub claim_none :
    (n : ℕ) (db : Db) (a : ClaimArgs) (rest ds : List Item)
    → db.queues a.source ≡ behind ds rest
    → Debris db a ds
    → (length ds ≡ n) ⊎ ((length ds ≤ n) × (rest ≡ []))
    → claim_gpu_task n db a ≡ (set_queue db a.source rest, none)
claim_none n db a rest ds q h (inl e) =
    claim_skips ds n 0 db a rest (omega arith) q h ∙ claim_stop _ a
claim_none n db a rest ds q h (inr e) =
    claim_skips ds n (n - length ds) db a rest (omega (arith, e.0)) q h
    ∙ claim_empty _ _ a (update-at db.queues a.source rest ∙ e.1)

abbrev pub key_in : ClaimArgs → String → TaskKey
key_in a id = record { prefix = a.prefix; id = id }

-- What a claim by `a` has found of the task `id`, and what it has made of it.
pub record Claimed (db db' : Db) (a : ClaimArgs) (id : String) : Type 0 where
  pub was_there : task_exists db (key_in a id) ≡ true
  pub was_pending : (task_at db (key_in a id)).status ≡ some pending
  pub was_free : or_else (task_at db (key_in a id)).claim.token "" ≡ ""
  pub was_admitted : workflow_task_allowed db (key_in a id) ≡ true
  pub status : (task_at db' (key_in a id)).status ≡ some pending
  pub token : (task_at db' (key_in a id)).claim.token ≡ some a.token
  pub worker : (task_at db' (key_in a id)).claim.worker ≡ some a.worker
  pub worker_instance : (task_at db' (key_in a id)).claim.worker_instance ≡ some a.worker_instance
  pub source : (task_at db' (key_in a id)).claim.source_queue ≡ some a.source
  pub inflight : (task_at db' (key_in a id)).claim.inflight_queue ≡ some a.inflight
  pub unfenced_yet : (task_at db' (key_in a id)).claim.recovery_state ≡ some unfenced
  pub listed : (l : List Item) × (db'.queues a.inflight ≡ entry a.token id ∷ l)

take-Claimed :
    (db : Db) (a : ClaimArgs) (x : Item)
    → claimable db (claim_key a x) ≡ true
    → Claimed db (take_claim db a x) a (item_text x)
unfolding take_claim claimable
take-Claimed db a x c = record {
  was_there = ground (arith, c);
  was_pending = ground (arith, c);
  was_free = free_text (task_at db (claim_key a x)).claim.token (ground (arith, c));
  was_admitted = ground (arith, c);
  status = ground (arith, c, beq_refl (claim_key a x));
  token = rw (beq_refl (claim_key a x)) refl;
  worker = rw (beq_refl (claim_key a x)) refl;
  worker_instance = rw (beq_refl (claim_key a x)) refl;
  source = rw (beq_refl (claim_key a x)) refl;
  inflight = rw (beq_refl (claim_key a x)) refl;
  unfenced_yet = rw (beq_refl (claim_key a x)) refl;
  listed = (db.queues a.inflight, update-at db.queues a.inflight _);
}
  where
    free_text : (o : Option String) → is_blank o ≡ true → or_else o "" ≡ ""
    free_text none h = refl
    free_text (some t) h = ground (arith, eq_iff t "")

-- Popping debris changes no task.
Claimed-set_queue :
    (db db' : Db) (a : ClaimArgs) (q : QueueKey) (l : List Item) (id : String)
    → Claimed (set_queue db q l) db' a id
    → Claimed db db' a id
unfolding claimable workflow_task_allowed lease_owner
Claimed-set_queue db db' a q l id c = record {
  was_there = c.was_there;
  was_pending = c.was_pending;
  was_free = c.was_free;
  was_admitted = c.was_admitted;
  status = c.status;
  token = c.token;
  worker = c.worker;
  worker_instance = c.worker_instance;
  source = c.source;
  inflight = c.inflight;
  unfenced_yet = c.unfenced_yet;
  listed = c.listed;
}

-- A claim that returns a task id found that task there, pending, with a token that is missing or empty, and
-- admitted by its workflow; it leaves the task pending with the caller's token, worker and instance, the queue that
-- it was taken from, the caller's inflight list and no fence, and the caller's entry at the head of that list.
pub claim_owned :
    (n : ℕ) (db : Db) (a : ClaimArgs) (id : String)
    → (claim_gpu_task n db a).1 ≡ some id
    → Claimed db (claim_gpu_task n db a).0 a id
unfolding claim_gpu_task
claim_owned zero db a id = λ e. cc
claim_owned (suc n) db a id = elim (Option-cases (rpop (db.queues a.source))) [
  | inl p ↦ rw (p, claim_gpu_task) (λ e. cc)
  | inr p ↦
      let db' = set_queue db a.source p.0.1 in
      rw (p.1, claim_gpu_task)
        (elim (Bool-cases (claimable db' (claim_key a p.0.0))) [
          | inl c ↦ rw c λ e.
              subst (λ i. Claimed db (take_claim db' a p.0.0) a i) (cc e)
                (Claimed-set_queue db _ a a.source p.0.1 _ (take-Claimed db' a p.0.0 c))
          | inr c ↦ rw c λ e. Claimed-set_queue db _ a a.source p.0.1 id (claim_owned n db' a id e)
        ])
]
