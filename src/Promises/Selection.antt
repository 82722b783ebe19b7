-- ===== src/Promises/Selection.antt =====
-- Which workers are chosen (kernelgym/server/task_manager.py).
use Prim.Native.Nat.{◌%◌}
use native.Mathlib.Nat.{mod-lt}
use text.Mathlib.Text.{starts_with}
use kernel_gym.Prelude.{
  subst, eq_iff, ℕ, zero, suc, ◌<◌, ◌≤◌, ◌+◌, ◌*◌, String, ◌==◌, ◌||◌, Option, ◌⊎◌, inl, inr,
  Bool-cases, Bool, true, false, none, some, List, [], ◌∷◌, ◌≡◌, refl, arith, if◌then◌else◌, length,
}
use kernel_gym.Redis.Keys.{gpu, cpu}
use kernel_gym.Manager.Nodes.{
  WorkerInfo, Latch, clear, Wanted, is_candidate, gpu_worker_admission_open,
  resource_worker_candidates, nth, pick, select_worker, is_fresh, max_age_of,
}

module _ (now t : ℕ) (w : Wanted) (latch : WorkerInfo → Latch) where
  abbrev Candidates : List WorkerInfo → Type 0
  Candidates l =
      (n : ℕ) (i : WorkerInfo) → nth n l ≡ some i → is_candidate now t w i (latch i) ≡ true

  with_head :
      (x : WorkerInfo) (l : List WorkerInfo)
      → is_candidate now t w x (latch x) ≡ true
      → Candidates l
      → Candidates (x ∷ l)
  unfolding nth
  with_head x l c all zero i h =
      let e : x ≡ i = cc in subst (λ y. is_candidate now t w y (latch y) ≡ true) e c
  with_head x l c all (suc n) i h = all n i h

  kept_or_not :
      (b : Bool) (x : WorkerInfo)
      → is_candidate now t w x (latch x) ≡ b
      → (l : List WorkerInfo) → Candidates l
      → Candidates (if b then x ∷ l else l)
  kept_or_not true x c l all = with_head x l c all
  kept_or_not false x c l all = all

  all-Candidates : (l : List WorkerInfo) → Candidates (resource_worker_candidates now t w latch l)
  unfolding nth resource_worker_candidates
  all-Candidates [] n i h = cc
  all-Candidates (x ∷ l) n i h =
      let others = resource_worker_candidates now t w latch l in
      kept_or_not (is_candidate now t w x (latch x)) x refl others (all-Candidates l) n i h

  picked :
      (l : List WorkerInfo) (n : ℕ) (i : WorkerInfo)
      → Candidates l
      → pick n l ≡ some i
      → is_candidate now t w i (latch i) ≡ true
  unfolding pick
  picked [] n i all h = cc
  picked (x ∷ l) n i all h = all (n % length (x ∷ l)) i h

nth_there : {A : Type 0} (l : List A) (n : ℕ) → n < length l → (a : A) × (nth n l ≡ some a)
unfolding nth
nth_there [] n h = ground arith
nth_there (x ∷ l) zero h = (x, refl)
nth_there (x ∷ l) (suc n) h = nth_there l n (omega arith)

pick_there : {A : Type 0} (x : A) (l : List A) (n : ℕ) → (a : A) × (pick n (x ∷ l) ≡ some a)
unfolding pick
pick_there x l n = nth_there (x ∷ l) (n % length (x ∷ l)) (mod-lt n (omega arith))

-- A selection gives nothing only where no worker is a candidate.
pub selection_is_total :
    (now t : ℕ) (w : Wanted) (latch : WorkerInfo → Latch) (l : List WorkerInfo) (index : ℕ)
    → select_worker now t w latch l index ≡ none
    → resource_worker_candidates now t w latch l ≡ []
unfolding select_worker
selection_is_total now t w latch l index h =
    nothing (resource_worker_candidates now t w latch l) index h
  where
    nothing : (c : List WorkerInfo) (n : ℕ) → pick n c ≡ none → c ≡ []
    nothing [] n h = refl
    nothing (x ∷ c) n h = let (a, e) = pick_there x c n in cc

-- Whether a worker's heartbeat is there and at most so many seconds old.
abbrev pub Beats : ℕ → ℕ → Option ℕ → Type 0
Beats now max_age o = (t : ℕ) × ((o ≡ some t) × (now ≤ t + max_age * 1000000))

-- What a worker of a GPU says of itself, and what the quarantine store says of it.
pub record Admitted (now timeout : ℕ) (i : WorkerInfo) (latch : Latch) : Type 0 where
  pub device : starts_with i.device "cuda:" ≡ true
  pub online : i.online ≡ "true"
  pub named : (i.hostname == "") ≡ false
  pub health : (i.health_state ≡ "healthy") ⊎ (i.health_state ≡ "degraded_check")
  pub accepting : i.accepting_tasks ≡ "true"
  pub beats : Beats now (max_age_of timeout) i.last_heartbeat
  pub clear_latch : latch ≡ clear

-- A worker that may be given the task.
pub record Fit (now timeout : ℕ) (w : Wanted) (i : WorkerInfo) (latch : Latch) : Type 0 where
  pub online : i.status ≡ "online"
  pub idle : w.idle_only ≡ true → i.current_task ≡ ""
  pub beats : Beats now w.max_heartbeat_age_s i.last_heartbeat
  pub for_gpu : w.resource ≡ gpu → Admitted now timeout i latch
  pub for_cpu : w.resource ≡ cpu → i.device ≡ "cpu"
  pub node :
      (w.target_node_id == "") ≡ false
      → (w.target_node_id ≡ i.node_id) ⊎ (w.target_node_id ≡ i.hostname)
  pub host :
      (w.target_hostname == "") ≡ false
      → (w.target_hostname ≡ i.hostname) ⊎ (w.target_hostname ≡ i.node_id)

Beats-is_fresh :
    (now max_age : ℕ) (o : Option ℕ) → is_fresh now max_age o ≡ true → Beats now max_age o
Beats-is_fresh now max_age none h = ground arith
Beats-is_fresh now max_age (some t) h = (t, (refl, ground (arith, h)))

either_text : (x a b : String) → (x == a || x == b) ≡ true → (x ≡ a) ⊎ (x ≡ b)
either_text x a b h = elim (Bool-cases (x == a)) [
  | inl e ↦ inl ((eq_iff x a).0 e)
  | inr e ↦ inr (ground (arith, eq_iff x b))
]

module _ (now t : ℕ) (w : Wanted) (i : WorkerInfo) (latch : Latch)
    (c : is_candidate now t w i latch ≡ true) where
  candidate-Admitted : w.resource ≡ gpu → Admitted now t i latch
  unfolding is_candidate gpu_worker_admission_open
  candidate-Admitted r = record {
    device = ground (arith, r, c);
    online = ground (arith, r, c, eq_iff i.online "true");
    named = ground (arith, r, c);
    health = either_text i.health_state "healthy" "degraded_check" (ground (arith, r, c));
    accepting = ground (arith, r, c, eq_iff i.accepting_tasks "true");
    beats = Beats-is_fresh now (max_age_of t) i.last_heartbeat (ground (arith, r, c));
    clear_latch = ground (arith, r, c);
  }

  candidate-Fit : Fit now t w i latch
  unfolding is_candidate
  candidate-Fit = record {
    online = ground (arith, c, eq_iff i.status "online");
    idle = λ h. ground (arith, h, c, eq_iff i.current_task "");
    beats = Beats-is_fresh now w.max_heartbeat_age_s i.last_heartbeat (ground (arith, c));
    for_gpu = candidate-Admitted;
    for_cpu = λ r. ground (arith, r, c, eq_iff i.device "cpu");
    node = λ h. either_text w.target_node_id i.node_id i.hostname (ground (arith, h, c));
    host = λ h. either_text w.target_hostname i.hostname i.node_id (ground (arith, h, c));
  }

-- A worker that is selected, whatever the counter or the digest is, says that it is online, has a heartbeat of the asked
-- age, has no current task where an idle one is wanted, and is of the wanted node and host. For the CPU its
-- device is the CPU; for a GPU its device is one, it names its host, says that it is online, healthy or being checked, and takes tasks, its
-- heartbeat is within the worker timeout, and no quarantine latch is set or unreadable.
pub select_worker-Fit :
    (now t : ℕ) (w : Wanted) (latch : WorkerInfo → Latch) (l : List WorkerInfo) (index : ℕ)
    (i : WorkerInfo)
    → select_worker now t w latch l index ≡ some i
    → Fit now t w i (latch i)
unfolding select_worker
select_worker-Fit now t w latch l index i h = candidate-Fit now t w i (latch i) (
    picked now t w latch (resource_worker_candidates now t w latch l) index i
      (all-Candidates now t w latch l) h)
