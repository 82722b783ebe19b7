-- ===== src/Pool/Capacity.antt =====
-- What `_ensure_capacity_locked` does: it fills the pool and touches nothing else.
use kernel_gym.Prelude.{ℕ, zero, suc, ◌+◌, ◌-◌, ◌≤◌, length, false, true, ◌≡◌, arith, refl}
use kernel_gym.Pool.State.{Pool, is_healthy, used, top_up, top_up_times, ensure_capacity}
use kernel_gym.Pool.Generations.{is_open, limit, Below}

-- Two pools that differ in their constructors at most.
pub record Alike (p q : Pool) : Type 0 where
  pub size : q.pool_size ≡ p.pool_size
  pub members : q.workers ≡ p.workers
  pub idle : q.idle_workers ≡ p.idle_workers
  pub busy : q.busy_workers ≡ p.busy_workers
  pub closed : q.closing ≡ p.closing
  pub unsafe : q.unsafe_reason ≡ p.unsafe_reason
  pub health : q.health_state ≡ p.health_state
  pub epoch : q.health_epoch ≡ p.health_epoch
  pub generation : q.pool_generation ≡ p.pool_generation
  pub spare : q.speculative ≡ p.speculative
  pub next : q.next_worker ≡ p.next_worker
  pub hard : q.hard_recovery_epoch ≡ p.hard_recovery_epoch
  pub handles : q.retained ≡ p.retained
  pub retiring_count : q.pending_retirements ≡ p.pending_retirements

Alike-refl : (p : Pool) → Alike p p
Alike-refl p = record {
  size = refl;
  members = refl;
  idle = refl;
  busy = refl;
  closed = refl;
  unsafe = refl;
  health = refl;
  epoch = refl;
  generation = refl;
  spare = refl;
  next = refl;
  hard = refl;
  handles = refl;
  retiring_count = refl;
}

Alike-top_up : (p q : Pool) → Alike (top_up p) q → Alike p q
Alike-top_up p q a = record {
  size = a.size;
  members = a.members;
  idle = a.idle;
  busy = a.busy;
  closed = a.closed;
  unsafe = a.unsafe;
  health = a.health;
  epoch = a.epoch;
  generation = a.generation;
  spare = a.spare;
  next = a.next;
  hard = a.hard;
  handles = a.handles;
  retiring_count = a.retiring_count;
}

Alike-top_up_times : (n : ℕ) (p : Pool) → Alike p (top_up_times n p)
unfolding top_up_times
Alike-top_up_times zero p = Alike-refl p
Alike-top_up_times (suc n) p =
    ground (arith, Alike-refl p, Alike-top_up p _ (Alike-top_up_times n (top_up p)))

pub Alike-ensure_capacity : (p : Pool) → Alike p (ensure_capacity p)
unfolding ensure_capacity
Alike-ensure_capacity p = ground (arith, Alike-refl p, Alike-top_up_times p.pool_size p)

Below-top_up_times :
    (n : ℕ) (p : Pool)
    → is_open p.health_state ≡ true
    → Below (limit p) p.threads
    → Below (limit (top_up_times n p)) (top_up_times n p).threads
unfolding top_up_times
Below-top_up_times zero p o b = b
Below-top_up_times (suc n) p o b = ground (arith, Below-top_up_times n (top_up p) o)

pub Below-ensure_capacity :
    (p : Pool)
    → Below (limit p) p.threads
    → Below (limit (ensure_capacity p)) (ensure_capacity p).threads
unfolding ensure_capacity
Below-ensure_capacity p b = ground (arith, Below-top_up_times p.pool_size p)

used-top_up_times :
    (n : ℕ) (p : Pool) → p.pool_size ≤ used p + n → p.pool_size ≤ used (top_up_times n p)
unfolding top_up_times
used-top_up_times zero p h = ground arith
used-top_up_times (suc n) p h = ground (arith, used-top_up_times n (top_up p))

bound-top_up_times :
    (n m : ℕ) (p : Pool) → used p ≤ m → p.pool_size ≤ m → used (top_up_times n p) ≤ m
unfolding top_up_times
bound-top_up_times zero m p h k = h
bound-top_up_times (suc n) m p h k = ground (arith, bound-top_up_times n m (top_up p))

threads-top_up_times :
    (n : ℕ) (p : Pool)
    → p.pool_size ≤ used p + n
    → length (top_up_times n p).threads ≡ length p.threads + (p.pool_size - used p)
unfolding top_up_times
threads-top_up_times zero p h = ground arith
threads-top_up_times (suc n) p h = ground (arith, threads-top_up_times n (top_up p))

pending-top_up_times :
    (n : ℕ) (p : Pool)
    → p.pool_size ≤ used p + n
    → (top_up_times n p).pending_replacements ≡ p.pending_replacements + (p.pool_size - used p)
unfolding top_up_times
pending-top_up_times zero p h = ground arith
pending-top_up_times (suc n) p h = ground (arith, pending-top_up_times n (top_up p))

-- A pool that is healthy and not closing starts exactly the constructors that its workers, its pending
-- constructors and its pending retirements leave room for: afterwards these three account for its size, for no
-- more where they did not before, and one constructor was started and counted for each missing worker.
pub ensure_capacity-fills :
    (p : Pool)
    → p.closing ≡ false
    → is_healthy p.health_state ≡ true
    → let q = ensure_capacity p in
      let before = length p.workers + (p.pending_replacements + p.pending_retirements) in
      let after = length q.workers + (q.pending_replacements + q.pending_retirements) in
      (p.pool_size ≤ after)
      × ((before ≤ p.pool_size → after ≡ p.pool_size)
          × ((length q.threads ≡ length p.threads + (p.pool_size - before))
              × (q.pending_replacements ≡ p.pending_replacements + (p.pool_size - before))))
unfolding ensure_capacity
ensure_capacity-fills p c h = ground (
  arith,
  used-top_up_times p.pool_size p,
  bound-top_up_times p.pool_size p.pool_size p,
  threads-top_up_times p.pool_size p,
  pending-top_up_times p.pool_size p,
)
