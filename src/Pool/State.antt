-- ===== src/Pool/State.antt =====
-- The state that `SubprocessWorkerPool` keeps under its lock, and the helpers that change it
-- (kernelgym/worker/subprocess_pool.py). A worker process is a number, its object's identity.
use kernel_gym.Prelude.{
  ℕ, zero, suc, ◌+◌, String, Bool, true, false, not, ◌&&◌, ◌||◌, List, [], ◌∷◌, ◌++◌, if◌then◌else◌,
  nat_eq, ltb, length, contains, lrem_one, lrem_all, nat_Eq,
}

pub data Health : Type 0 where
  healthy degraded_check suspect bootstrap_failed quarantined : Health

abbrev pub is_healthy : Health → Bool
is_healthy healthy = true
is_healthy _ = false

abbrev pub is_degraded : Health → Bool
is_degraded degraded_check = true
is_degraded _ = false

abbrev pub is_suspect : Health → Bool
is_suspect suspect = true
is_suspect _ = false

abbrev pub is_quarantined : Health → Bool
is_quarantined quarantined = true
is_quarantined _ = false

pub data Scope : Type 0 where
  gpu_scope worker_scope : Scope

-- A background constructor: the generation that it belongs to, and whether it validates a context fault.
pub record Thread : Type 0 where
  pub generation : ℕ
  pub validates : Bool

pub record Pool : Type 0 where
  pub pool_size : ℕ
  pub workers : List ℕ
  pub idle_workers : List ℕ
  pub busy_workers : List ℕ
  -- the handles of processes whose exit is not proven
  pub retained : List ℕ
  pub retiring : List ℕ
  pub pending_replacements : ℕ
  pub pending_retirements : ℕ
  -- the generation of each ticket that is not finished
  pub tickets : List ℕ
  pub threads : List Thread
  -- the generation of each failed constructor that waits for its retry
  pub delayed : List ℕ
  pub closing : Bool
  pub unsafe_reason : String
  pub health_state : Health
  pub health_reason : String
  pub health_task_id : String
  pub health_fault_class : String
  pub health_scope : Scope
  pub health_epoch : ℕ
  pub pool_generation : ℕ
  pub hard_recovery_epoch : ℕ
  pub speculative : ℕ
  pub failures : ℕ
  pub max_failures : ℕ
  pub restarted : ℕ
  -- the identity of the next process
  pub next_worker : ℕ

unfoldable pub accepting_tasks : Pool → Bool
accepting_tasks p =
    if p.closing
    then false
    else if is_healthy p.health_state
    then true
    else is_degraded p.health_state && ltb 0 p.speculative

abbrev pub set_health : Health → String → String → String → Scope → Pool → Pool
set_health h reason task fault scope p = record p {
  health_state = h;
  health_reason = reason;
  health_task_id = task;
  health_fault_class = fault;
  health_scope = scope;
  health_epoch = suc p.health_epoch;
  speculative = if is_degraded h then p.speculative else 0;
}

abbrev pub register_ticket : ℕ → Pool → Pool
register_ticket g p = record p { tickets = g ∷ p.tickets }

abbrev pub finish_ticket : ℕ → Pool → Pool
finish_ticket g p = record p { tickets = lrem_one g p.tickets }

-- Whether a constructor of an earlier generation is still on its way.
unfoldable pub older_active : ℕ → List ℕ → Bool
older_active g [] = false
older_active g (t ∷ ts) = ltb t g || older_active g ts

-- Every worker of any view, each once.
unfoldable pub distinct_workers : List ℕ → List ℕ → List ℕ
distinct_workers seen [] = []
distinct_workers seen (w ∷ ws) =
    if contains w seen then distinct_workers seen ws else w ∷ distinct_workers (w ∷ seen) ws

unfoldable pub tracked_workers : Pool → List ℕ → List ℕ
unfolding distinct_workers
tracked_workers p extra =
    distinct_workers [] (p.workers ++ (p.idle_workers ++ (p.busy_workers ++ (p.retained ++ extra))))

abbrev pub retain : ℕ → List ℕ → List ℕ
retain w ws = if contains w ws then ws else w ∷ ws

-- `_record_worker_reap_result`: a handle is released where the exit is proven, and kept otherwise.
unfoldable pub record_reap : Bool → ℕ → List ℕ → List ℕ
record_reap true w ws = lrem_all w ws
record_reap false w ws = retain w ws

unfoldable pub record_reap_results : List (ℕ × Bool) → List ℕ → List ℕ
unfolding record_reap
record_reap_results [] ws = ws
record_reap_results ((w, stopped) ∷ rest) ws = record_reap_results rest (record_reap stopped w ws)

unfoldable pub all_stopped : List (ℕ × Bool) → Bool
all_stopped [] = true
all_stopped ((w, stopped) ∷ rest) = stopped && all_stopped rest

abbrev pub reaped : List (ℕ × Bool) → Pool → Pool
reaped results p = record p { retained = record_reap_results results p.retained }

abbrev pub clear_workers : Pool → Pool
clear_workers p = record p { workers = []; idle_workers = []; busy_workers = [] }

abbrev pub used : Pool → ℕ
used p = length p.workers + (p.pending_replacements + p.pending_retirements)

abbrev pub is_short : Pool → Bool
is_short p = ltb (used p) p.pool_size

abbrev pub start_thread : ℕ → Bool → Pool → Pool
start_thread g validates p = record p {
  tickets = g ∷ p.tickets;
  threads = record { generation = g; validates = validates } ∷ p.threads;
}

abbrev pub top_up : Pool → Pool
top_up p =
    start_thread p.pool_generation false
      (record p { pending_replacements = suc p.pending_replacements })

abbrev pub same_thread : Thread → Thread → Bool
same_thread t u =
    nat_eq t.generation u.generation && (if t.validates then u.validates else not u.validates)

unfoldable pub remove_thread : Thread → List Thread → List Thread
remove_thread t [] = []
remove_thread t (u ∷ us) = let rest = remove_thread t us in if same_thread t u then us else u ∷ rest

-- `_ensure_capacity_locked`: the loop ends after `pool_size` rounds at most.
unfoldable pub top_up_times : ℕ → Pool → Pool
top_up_times zero p = p
top_up_times (suc n) p = if is_short p then top_up_times n (top_up p) else p

unfoldable pub ensure_capacity : Pool → Pool
ensure_capacity p =
    if p.closing || not (is_healthy p.health_state) then p else top_up_times p.pool_size p
