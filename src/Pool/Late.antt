-- ===== src/Pool/Late.antt =====
-- What a gate turns away in every later run: late constructors, second reports and, at the end, workers whose exit
-- is not proven (kernelgym/worker/subprocess_pool.py).
use kernel_gym.Prelude.{
  ℕ, ◌≤◌, ◌<◌, String, Bool, true, false, ◌&&◌, ◌||◌, List, [], ◌≡◌, arith, refl, contains, map,
  nat_Eq, beq_refl, ◌==◌,
}
use kernel_gym.Pool.State.{Pool, Thread, all_stopped}
use kernel_gym.Pool.Faults.{begin_context_fault_validation}
use kernel_gym.Pool.Recovery.{
  recover_from_device_fault, begin_shutdown, end_shutdown, opens, shutdown_reason,
}
use kernel_gym.Pool.Replacement.{register_worker, is_stale}
use kernel_gym.Pool.Generations.{limit, Below-has_thread}
use kernel_gym.Pool.Moves.{System, Run, no_moves, quiet, hands, enter, has_thread, device_fault}
use kernel_gym.Pool.Runs.{Sound, Sound-Move, Sound-Run, Sound-start, start, Kept-Move}
use kernel_gym.Pool.Retained.{
  Unproven, Held-Run, proven, record_reap_results-clears, proven-all, contains-tracked_workers,
}

-- The generation and the epoch of the hard recoveries only grow.
grows-Run :
    {ws : List ℕ} {s t : System}
    → Run s ws t
    → Sound s
    → (s.pool.pool_generation ≤ t.pool.pool_generation)
      × (s.pool.hard_recovery_epoch ≤ t.pool.hard_recovery_epoch)
grows-Run (no_moves s) z = ground arith
grows-Run (quiet s t u ws m r) z =
    let k = (Kept-Move m z.in_order).1 in
    let n = grows-Run r (Sound-Move m z) in ground (arith, k.generation, k.hard, n.0, n.1)
grows-Run (hands s t u w ws m r) z =
    let k = (Kept-Move m z.in_order).1 in
    let n = grows-Run r (Sound-Move m z) in ground (arith, k.generation, k.hard, n.0, n.1)

-- A constructor of an earlier generation is turned away, and its handle is held.
older_is_turned_away :
    (p : Pool) (t : Thread) (b : Bool)
    → t.generation < p.pool_generation
    → ((register_worker p t b).workers ≡ p.workers)
      × (((register_worker p t b).idle_workers ≡ p.idle_workers)
          × (contains p.next_worker (register_worker p t b).retained ≡ true))
unfolding register_worker is_stale contains
older_is_turned_away p t b h = ground (arith, beq_refl p.next_worker)

-- In any run of a new pool, a constructor that was on its way before the pool began a new generation (by a context or a device fault, a containment, a
-- failure or a shutdown) cannot join it any more: after any further run, also one that reopens the pool, the
-- worker that it brings is not added to the workers and is not made idle, and its handle is retained from then
-- on, through every run that does not bring the proof of its exit.
pub late_worker_is_turned_away :
    (size : ℕ) (ws vs us : List ℕ) (s t u : System) (late : Thread) (aborted : Bool)
    → Run (start size) ws s
    → has_thread late s.pool.threads ≡ true
    → Run s vs t
    → s.pool.pool_generation < t.pool.pool_generation
    → (r : Run (record t { pool = register_worker t.pool late aborted }) us u)
    → Unproven t.pool.next_worker r
    → ((register_worker t.pool late aborted).workers ≡ t.pool.workers)
      × (((register_worker t.pool late aborted).idle_workers ≡ t.pool.idle_workers)
          × (contains t.pool.next_worker u.pool.retained ≡ true))
late_worker_is_turned_away size ws vs us s t u late aborted r k q g l n =
    let z = Sound-Run r (Sound-start size) in
    let b = Below-has_thread (limit s.pool) late s.pool.threads z.in_order.settled.below k in
    let o = older_is_turned_away t.pool late aborted (ground (arith, b, g)) in
    (o.0, (o.1.0, Held-Run t.pool.next_worker l n o.1.1))

opened :
    (p : Pool) (w n g : ℕ) (old : List ℕ) (task reason : String)
    → (recover_from_device_fault p w n task reason).1 ≡ opens g old
    → n < (recover_from_device_fault p w n task reason).0.hard_recovery_epoch
unfolding recover_from_device_fault
opened p w n g old task reason h = ground arith

older_report :
    (p : Pool) (v n : ℕ) (task reason : String)
    → n < p.hard_recovery_epoch
    → ((recover_from_device_fault p v n task reason).0 ≡ p)
      × ((begin_context_fault_validation p n task reason).0 ≡ p)
unfolding recover_from_device_fault begin_context_fault_validation
older_report p v n task reason h = ground arith

-- Two tasks that report a fault of one epoch start one recovery: once, in a run of a new pool, a device fault that was
-- observed in an epoch has opened a recovery, then after any further run, also one that ends the recovery and reopens the pool, a
-- report that was observed in the same epoch, of a device or of a context fault and about any worker, changes
-- nothing.
pub fault_reported_twice :
    (size : ℕ) (ws vs old : List ℕ) (s t : System) (w v n g : ℕ)
    (task task' reason reason' : String)
    → Run (start size) ws s
    → (recover_from_device_fault s.pool w n task reason).1 ≡ opens g old
    → Run
        (record {
          pool = (recover_from_device_fault s.pool w n task reason).0;
          phase = enter s.phase (recover_from_device_fault s.pool w n task reason).1;
        })
        vs
        t
    → ((recover_from_device_fault t.pool v n task' reason').0 ≡ t.pool)
      × ((begin_context_fault_validation t.pool n task' reason').0 ≡ t.pool)
fault_reported_twice size ws vs old s t w v n g task task' reason reason' r o q =
    let z = Sound-Move (device_fault s w n task reason) (Sound-Run r (Sound-start size)) in
    older_report t.pool v n task' reason'
      (ground (arith, opened s.pool w n g old task reason o, (grows-Run q z).1))

shutdown_reason-blank :
    (drained stopped : Bool) (old : String)
    → (shutdown_reason drained stopped old == "") ≡ (drained && (stopped && (old == "")))
shutdown_reason-blank false stopped old = refl
shutdown_reason-blank true false old = refl
shutdown_reason-blank true true old = refl

abbrev pub is_listed : ℕ → Pool → Bool
is_listed w p =
    contains w p.workers
    || (contains w p.idle_workers || (contains w p.busy_workers || contains w p.retained))

-- A shutdown that has a result for each worker it took off the pool, and reports success, has drained every
-- constructor and leaves no handle: no worker that the pool listed when it closed, as a worker, idle, busy or
-- retained, is retained afterwards, and no unsafe reason stands. One that does not report success leaves a
-- reason why the device is not safe.
pub shutdown_proves :
    (p q : Pool) (drained : Bool) (results : List (ℕ × Bool)) (w : ℕ)
    → map (λ r. r.0) results ≡ (begin_shutdown p).1
    → is_listed w p ≡ true
    → ((end_shutdown q drained results).1 ≡ true
        → (drained ≡ true)
          × ((proven w results ≡ true)
              × ((contains w (end_shutdown q drained results).0.retained ≡ false)
                  × (((end_shutdown q drained results).0.unsafe_reason == "") ≡ true))))
      × ((end_shutdown q drained results).1 ≡ false
          → ((end_shutdown q drained results).0.unsafe_reason == "") ≡ false)
unfolding end_shutdown begin_shutdown
shutdown_proves p q drained results w e l = ground (
  arith,
  e,
  shutdown_reason-blank drained (all_stopped results) q.unsafe_reason,
  contains-tracked_workers w p [] l,
  record_reap_results-clears w results q.retained,
  proven-all w results,
)
