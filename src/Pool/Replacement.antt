-- ===== src/Pool/Replacement.antt =====
-- Replacement workers: _restart_worker and the callbacks of _start_replenishment_thread
-- (kernelgym/worker/subprocess_pool.py).
use kernel_gym.Prelude.{
  ℕ, suc, ◌-◌, String, Bool, true, false, not, ◌&&◌, ◌||◌, Option, none, some, [], ◌∷◌, ◌++◌,
  if◌then◌else◌, nat_eq, ltb, leb, length, lrem_one, lrem_all, nat_Eq,
}
use kernel_gym.Pool.State.{
  healthy, bootstrap_failed, quarantined, is_healthy, is_degraded, Thread, Pool, gpu_scope,
  worker_scope, set_health, record_reap, retain, clear_workers, is_short, remove_thread,
  ensure_capacity,
}
use kernel_gym.Pool.Recovery.{is_current, quarantine_unreaped_context}

abbrev pub validation_is_current : Pool → Option ℕ → Bool
validation_is_current p none = false
validation_is_current p (some g) = nat_eq g p.pool_generation && is_degraded p.health_state

abbrev pub is_plain : Option ℕ → Bool
is_plain none = true
is_plain (some g) = false

abbrev pub detach : ℕ → Pool → Pool
detach w p = record p {
  workers = lrem_one w p.workers;
  idle_workers = lrem_one w p.idle_workers;
  busy_workers = lrem_one w p.busy_workers;
}

unfoldable pub should_replenish : Pool → Option ℕ → Bool
should_replenish p validation =
    validation_is_current p validation
    || (is_plain validation && (is_healthy p.health_state && is_short p))

-- The constructor's entry stands from the section that decides on it. The thread starts after the old process
-- is gone.
abbrev start_if : Bool → Option ℕ → Pool → Pool
start_if should validation p = record p {
  pending_replacements = if should then suc p.pending_replacements else p.pending_replacements;
  tickets = if should then p.pool_generation ∷ p.tickets else p.tickets;
  threads =
      if should
      then record { generation = p.pool_generation; validates = not (is_plain validation) }
        ∷ p.threads
      else p.threads;
}

abbrev retire : ℕ → Pool → Pool
retire w p = record p {
  retained = retain w p.retained;
  retiring = retain w p.retiring;
  tickets = p.pool_generation ∷ p.tickets;
  pending_retirements = suc p.pending_retirements;
}

-- The locked section of `_restart_worker`.
unfoldable pub restart_worker : Pool → ℕ → Option ℕ → Pool
restart_worker p w validation =
    let q = detach w p in retire w (start_if (should_replenish q validation) validation q)

abbrev retired : ℕ → ℕ → Pool → Pool
retired w g p = record p {
  pending_retirements = p.pending_retirements - 1;
  retiring = lrem_all w p.retiring;
  tickets = lrem_one g p.tickets;
}

-- What follows the shutdown of the old process: `g` is the generation of the ticket and `should` the decision. A
-- process that is not gone quarantines the pool, and its replacement is not built.
unfoldable pub finish_restart : Pool → ℕ → ℕ → Bool → Option ℕ → Bool → String → String → Pool
finish_restart p w g should validation true reason task =
    let q = retired w g (record p { retained = record_reap true w p.retained }) in
    if should then q else ensure_capacity q
finish_restart p w g should validation false reason task =
    let q =
      (quarantine_unreaped_context (record p { retained = record_reap false w p.retained }) reason
        task (w ∷ [])).0 in
    retired w g (record q {
      threads =
          if should
          then remove_thread (record { generation = g; validates = not (is_plain validation) })
              q.threads
          else q.threads;
    })

abbrev done_thread : Thread → Pool → Pool
done_thread t p = record p {
  threads = remove_thread t p.threads;
  tickets = lrem_one t.generation p.tickets;
}

-- `_mark_failed`, where a constructor has failed and its process is gone: a CUDA probe or a validation
-- quarantines, the last allowed failure asks for an outer restart, and any other waits for a retry.
unfoldable pub mark_failed : Pool → Thread → Bool → String → String → Pool
mark_failed p t physical reason fault =
    let q = done_thread t p in
    if not (is_current p t.generation)
    then q
    else let f = record q { failures = suc p.failures } in
      if t.validates || physical
      then set_health quarantined reason p.health_task_id fault gpu_scope
          (record (clear_workers f) {
            pool_generation = suc p.pool_generation;
            pending_replacements = 0;
          })
      else if leb p.max_failures (suc p.failures)
      then set_health bootstrap_failed reason p.health_task_id "worker_bootstrap_failure"
          worker_scope
          (record f { pool_generation = suc p.pool_generation; pending_replacements = 0 })
      else record f { delayed = t.generation ∷ p.delayed }

-- The end of the delay before a retry.
unfoldable pub retry_capacity : Pool → ℕ → Pool
retry_capacity p g =
    let q = record p { delayed = lrem_one g p.delayed } in
    if not (is_current p g)
    then q
    else ensure_capacity (record q { pending_replacements = p.pending_replacements - 1 })

-- Whether a fresh worker comes too late for the pool.
unfoldable pub is_stale : Pool → Thread → Bool
is_stale p t =
    not (is_current p t.generation)
    || (if t.validates then not (is_degraded p.health_state) else not (is_healthy p.health_state))

abbrev pub reopen_if : Bool → Pool → Pool
reopen_if true p = set_health healthy "" "" "" gpu_scope p
reopen_if false p = p

abbrev admit : Thread → Pool → Pool
admit t p = reopen_if t.validates (record p {
  workers = p.workers ++ p.next_worker ∷ [];
  idle_workers = p.idle_workers ++ p.next_worker ∷ [];
  restarted = suc p.restarted;
  failures = 0;
  next_worker = suc p.next_worker;
})

-- A worker that is not admitted stays a retained handle until its exit is proven.
abbrev turn_away : Pool → Pool
turn_away p = record p {
  retained = retain p.next_worker p.retained;
  next_worker = suc p.next_worker;
}

-- The shutdown of a worker that was turned away has ended, with its exit proven or not.
abbrev pub late_reaped : Pool → ℕ → Bool → Pool
late_reaped p w stopped = record p { retained = record_reap stopped w p.retained }

-- `_register`: the READY worker gets the next identity. `aborted` says that the registration was aborted meanwhile.
unfoldable pub register_worker : Pool → Thread → Bool → Pool
register_worker p t aborted =
    let q = done_thread t p in
    if aborted || is_stale p t
    then turn_away q
    else let r = record q { pending_replacements = p.pending_replacements - 1 } in
      if ltb (length p.workers) p.pool_size
      then ensure_capacity (admit t r)
      else ensure_capacity (turn_away r)
