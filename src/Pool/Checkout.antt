-- ===== src/Pool/Checkout.antt =====
-- Handing out a worker and taking it back: _get_idle_worker and _return_worker
-- (kernelgym/worker/subprocess_pool.py). `alive` says which processes are alive at the time.
use kernel_gym.Prelude.{
  ℕ, suc, ◌+◌, ◌-◌, Bool, true, false, not, ◌&&◌, ◌||◌, List, [], ◌∷◌, ◌++◌, if◌then◌else◌, ltb,
  length, contains, lrem_one, nat_Eq,
}
use kernel_gym.Pool.State.{
  Health, quarantined, is_healthy, is_degraded, Pool, gpu_scope, set_health, tracked_workers,
  clear_workers, ensure_capacity, finish_ticket,
}

pub data Checkout : Type 0 where
  refused waits : Checkout
  dispatches : ℕ → Checkout
  -- the workers to reap before another one is built
  reaps : List ℕ → Checkout

-- The items of the list that `keep` holds of.
unfoldable pub select : (ℕ → Bool) → List ℕ → List ℕ
select keep [] = []
select keep (w ∷ ws) = let rest = select keep ws in if keep w then w ∷ rest else rest

abbrev pub is_nonempty : List ℕ → Bool
is_nonempty [] = false
is_nonempty (w ∷ ws) = true

abbrev pub live_orphans : Pool → (ℕ → Bool) → List ℕ
live_orphans p alive =
    select (λ w. not (contains w p.workers) && (not (contains w p.retiring) && alive w))
      (p.idle_workers ++ p.busy_workers)

abbrev pub dead_busy : Pool → (ℕ → Bool) → List ℕ
dead_busy p alive =
    select (λ w. contains w p.busy_workers && (not (contains w p.retiring) && not (alive w)))
      (tracked_workers p [])

abbrev pub dead_workers : Pool → (ℕ → Bool) → List ℕ
dead_workers p alive =
    select (λ w. not (contains w p.busy_workers) && (not (contains w p.retiring) && not (alive w)))
      (tracked_workers p [])

abbrev pub is_blocked : Health → Bool
is_blocked Health.suspect = true
is_blocked Health.bootstrap_failed = true
is_blocked Health.quarantined = true
is_blocked _ = false

-- A live worker outside the pool's list: everything is detached and the GPU is quarantined.
unfoldable pub close_corrupt : Pool → Pool
close_corrupt p =
    set_health quarantined "live CUDA worker found outside canonical pool membership" ""
      "worker_topology_corruption" gpu_scope
      (record (clear_workers p) {
        tickets = p.pool_generation ∷ p.tickets;
        pending_retirements = p.pending_retirements + length (tracked_workers p []);
        pool_generation = suc p.pool_generation;
        hard_recovery_epoch = suc p.hard_recovery_epoch;
        pending_replacements = 0;
      })

unfoldable pub detach_dead : Pool → List ℕ → Pool
detach_dead p dead = record p {
  tickets = p.pool_generation ∷ p.tickets;
  pending_retirements = p.pending_retirements + length dead;
  workers = select (λ w. not (contains w dead)) p.workers;
  idle_workers = select (λ w. not (contains w dead)) p.idle_workers;
  busy_workers = select (λ w. not (contains w dead)) p.busy_workers;
}

abbrev pub may_dispatch : Pool → Bool
may_dispatch p = is_healthy p.health_state || (is_degraded p.health_state && ltb 0 p.speculative)

abbrev pub hand_over : Pool → ℕ → List ℕ → Pool
hand_over p w rest = record p {
  idle_workers = rest;
  busy_workers = p.busy_workers ++ w ∷ [];
  speculative = if is_degraded p.health_state then p.speculative - 1 else p.speculative;
}

-- The first idle worker, where the pool may dispatch.
unfoldable pub dispatch : Pool → List ℕ → Bool → Pool × Checkout
dispatch p [] may = (p, waits)
dispatch p (w ∷ rest) false = (p, waits)
dispatch p (w ∷ rest) true = (ensure_capacity (hand_over p w rest), dispatches w)

-- One round of the loop of `_get_idle_worker`.
unfoldable pub get_idle_worker : Pool → (ℕ → Bool) → Pool × Checkout
get_idle_worker p alive =
    if p.closing
    then (p, refused)
    else if is_blocked p.health_state
    then (p, refused)
    else if is_nonempty (live_orphans p alive)
    then (close_corrupt p, reaps (tracked_workers p []))
    else if is_nonempty (dead_workers p alive)
    then (detach_dead p (dead_workers p alive), reaps (dead_workers p alive))
    else let q = ensure_capacity p in
      dispatch q q.idle_workers (not (is_nonempty (dead_busy p alive)) && may_dispatch q)

-- The end of `_reap_detached_workers`: the reservations of the retired workers are given back.
unfoldable pub finish_reap : Pool → ℕ → ℕ → Pool
finish_reap p retired_count g =
    finish_ticket g
      (ensure_capacity (record p { pending_retirements = p.pending_retirements - retired_count }))

unfoldable pub return_worker : Pool → ℕ → Bool → Pool
return_worker p w is_alive = ensure_capacity (record p {
  busy_workers = lrem_one w p.busy_workers;
  idle_workers =
      if contains w p.workers && is_alive
      then (if contains w p.idle_workers then p.idle_workers else p.idle_workers ++ w ∷ [])
      else p.idle_workers;
})
