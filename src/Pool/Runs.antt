-- ===== src/Pool/Runs.antt =====
-- What holds at every move of a run that begins with a fresh pool.
use kernel_gym.Prelude.{
  ℕ, zero, suc, ◌≤◌, Bool, true, false, Option, List, [], ◌∷◌, ◌++◌, ◌≡◌, arith, count,
  count-append, nat_Eq,
}
use kernel_gym.Pool.State.{Pool, healthy, gpu_scope}
use kernel_gym.Pool.Moves.{
  System, never, Move, Run, no_moves, quiet, hands, context_fault, device_fault, older_drained,
  recovery_over, old_reaped, probed, unreaped, contained, containment_reaped, restarted,
  restart_done, thread_failed, delay_over, thread_ready, late_stopped, asked, dead_reaped, returned,
  shutdown_begun, shutdown_ended,
}
use kernel_gym.Pool.InOrder.{InOrder, InOrder-Move}
use kernel_gym.Pool.Kept.{
  Kept-refl, Kept-late_reaped, Kept-finish_ticket, Kept, Kept-begin_context, Kept-recover,
  Kept-old_workers_reaped, Kept-finish_validation, Kept-quarantine, Kept-contain,
  Kept-after_containment, Kept-restart_worker, Kept-finish_restart, Kept-mark_failed,
  Kept-retry_capacity, Kept-register_worker, Kept-get_idle_worker, Kept-finish_reap,
  Kept-return_worker, Kept-begin_shutdown, Kept-end_shutdown,
}
use kernel_gym.Pool.Distinct.{
  Distinct-late_reaped, Distinct-finish_ticket, Distinct, Distinct-begin_context, Distinct-recover,
  Distinct-old_workers_reaped, Distinct-finish_validation, Distinct-quarantine, Distinct-contain,
  Distinct-after_containment, Distinct-restart_worker, Distinct-finish_restart,
  Distinct-mark_failed, Distinct-retry_capacity, Distinct-register_worker, Distinct-get_idle_worker,
  Distinct-finish_reap, Distinct-return_worker, Distinct-begin_shutdown, Distinct-end_shutdown,
}

-- The identities of the workers that `_init_workers` starts.
unfoldable pub first_workers : ℕ → List ℕ
first_workers zero = []
first_workers (suc n) = first_workers n ++ n ∷ []

-- `__init__`, where every worker starts: a pool of `size` idle workers that is healthy.
abbrev pub new_pool : ℕ → Pool
new_pool size = record {
  pool_size = size;
  workers = first_workers size;
  idle_workers = first_workers size;
  busy_workers = [];
  retained = [];
  retiring = [];
  pending_replacements = 0;
  pending_retirements = 0;
  tickets = [];
  threads = [];
  delayed = [];
  closing = false;
  unsafe_reason = "";
  health_state = healthy;
  health_reason = "";
  health_task_id = "";
  health_fault_class = "";
  health_scope = gpu_scope;
  health_epoch = 0;
  pool_generation = 0;
  hard_recovery_epoch = 0;
  speculative = 0;
  failures = 0;
  max_failures = 3;
  restarted = 0;
  next_worker = size;
}

abbrev pub start : ℕ → System
start size = record { pool = new_pool size; phase = λ g. never }

-- What every pool of a run has.
pub record Sound (s : System) : Type 0 where
  pub in_order : InOrder s
  pub distinct : Distinct s.pool
  pub one_spare : s.pool.speculative ≤ 1

count-first_workers :
    (n w : ℕ) → (count w (first_workers n) ≤ 1) × (n ≤ w → count w (first_workers n) ≡ 0)
unfolding count first_workers
count-first_workers zero w = ground arith
count-first_workers (suc n) w =
    rw (count-append w (first_workers n) (n ∷ [])) (ground (arith, count-first_workers n w))

pub Sound-start : (n : ℕ) → Sound (start n)
unfolding count
Sound-start n = record {
  in_order = record { settled = record { below = ground arith }; gated = λ g h. ground arith };
  distinct = record {
    once = λ w. ground (arith, count-first_workers n w);
    fresh = λ w h. ground (arith, count-first_workers n w);
  };
  one_spare = ground arith;
}

Distinct-Move :
    {s : System} {d : Option ℕ} {t : System} → Move s d t → Distinct s.pool → Distinct t.pool
Distinct-Move (context_fault s n t r) z = Distinct-begin_context s.pool z n t r
Distinct-Move (device_fault s w n t r) z = Distinct-recover s.pool z w n t r
Distinct-Move (old_reaped s g t rs h) z = Distinct-old_workers_reaped s.pool z g t rs
Distinct-Move (probed s g t e f b h) z = Distinct-finish_validation s.pool z g t e f b
Distinct-Move (unreaped s r t ws) z = Distinct-quarantine s.pool z r t ws
Distinct-Move (contained s r t ws) z = Distinct-contain s.pool z r t ws
Distinct-Move (containment_reaped s rs) z = Distinct-after_containment s.pool z rs
Distinct-Move (restarted s w v) z = Distinct-restart_worker s.pool z w v
Distinct-Move (restart_done s w g b v c r t) z = Distinct-finish_restart s.pool z w g b v c r t
Distinct-Move (thread_failed s t b r f h) z = Distinct-mark_failed s.pool z t b r f
Distinct-Move (delay_over s g) z = Distinct-retry_capacity s.pool z g
Distinct-Move (thread_ready s t b h) z = Distinct-register_worker s.pool z t b
Distinct-Move (late_stopped s w b) z = Distinct-late_reaped s.pool z w b
Distinct-Move (asked s alive) z = Distinct-get_idle_worker s.pool z alive
Distinct-Move (dead_reaped s n g) z = Distinct-finish_reap s.pool z n g
Distinct-Move (returned s w b) z = Distinct-return_worker s.pool z w b
Distinct-Move (shutdown_begun s) z = Distinct-begin_shutdown s.pool z
Distinct-Move (shutdown_ended s b rs) z = Distinct-end_shutdown s.pool z b rs
Distinct-Move (older_drained s g h k) z = z
Distinct-Move (recovery_over s g h) z = Distinct-finish_ticket s.pool z g

-- What a move keeps, whether it is the end of a validation or not.
pub Kept-Move :
    {s : System} {d : Option ℕ} {t : System}
    → Move s d t
    → InOrder s
    → (v : Bool) × Kept v d s.pool t.pool
Kept-Move (context_fault s n t r) i = (false, Kept-begin_context s.pool n t r)
Kept-Move (device_fault s w n t r) i = (false, Kept-recover s.pool w n t r)
Kept-Move (old_reaped s g t rs h) i = (false, Kept-old_workers_reaped s.pool g t rs)
Kept-Move (probed s g t e f b h) i = (true, Kept-finish_validation s.pool g t e f b)
Kept-Move (unreaped s r t ws) i = (false, Kept-quarantine s.pool r t ws)
Kept-Move (contained s r t ws) i = (false, Kept-contain s.pool r t ws)
Kept-Move (containment_reaped s rs) i = (false, Kept-after_containment s.pool rs)
Kept-Move (restarted s w v) i = (false, Kept-restart_worker s.pool w v)
Kept-Move (restart_done s w g b v c r t) i = (false, Kept-finish_restart s.pool w g b v c r t)
Kept-Move (thread_failed s t b r f h) i = (false, Kept-mark_failed s.pool t b r f i.settled h)
Kept-Move (delay_over s g) i = (false, Kept-retry_capacity s.pool g)
Kept-Move (thread_ready s t b h) i = (false, Kept-register_worker s.pool t b)
Kept-Move (late_stopped s w b) i = (false, Kept-late_reaped s.pool w b)
Kept-Move (asked s alive) i = (false, Kept-get_idle_worker s.pool alive)
Kept-Move (dead_reaped s n g) i = (false, Kept-finish_reap s.pool n g)
Kept-Move (returned s w b) i = (false, Kept-return_worker s.pool w b)
Kept-Move (shutdown_begun s) i = (false, Kept-begin_shutdown s.pool)
Kept-Move (shutdown_ended s b rs) i = (false, Kept-end_shutdown s.pool b rs)
Kept-Move (older_drained s g h k) i = (false, Kept-refl s.pool)
Kept-Move (recovery_over s g h) i = (false, Kept-finish_ticket s.pool g)

pub Sound-Move : {s : System} {d : Option ℕ} {t : System} → Move s d t → Sound s → Sound t
Sound-Move {s = s} m z = record {
  in_order = InOrder-Move s z.in_order m;
  distinct = Distinct-Move m z.distinct;
  one_spare = (Kept-Move m z.in_order).1.spare z.one_spare;
}

pub Sound-Run : {ws : List ℕ} {s t : System} → Run s ws t → Sound s → Sound t
Sound-Run (no_moves s) z = z
Sound-Run (quiet s t u ws m r) z = Sound-Run r (Sound-Move m z)
Sound-Run (hands s t u w ws m r) z = Sound-Run r (Sound-Move m z)
