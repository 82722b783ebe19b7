-- ===== src/Pool/Moves.antt =====
-- The sections that SubprocessWorkerPool runs under its lock, as the moves of one system
-- (kernelgym/worker/subprocess_pool.py). Each asyncio task and each thread takes the lock for one of them, so
-- a run of moves is an interleaving of any number of tasks.
use kernel_gym.Prelude.{
  ℕ, String, Bool, true, false, ◌||◌, Option, none, some, List, [], ◌∷◌, ◌≡◌, update, nat_Eq,
}
use kernel_gym.Pool.State.{Pool, Thread, same_thread, all_stopped, older_active, finish_ticket}
use kernel_gym.Pool.Faults.{begin_context_fault_validation}
use kernel_gym.Pool.Recovery.{
  Gate, opens, quarantine_unreaped_context, contain_hard_recovery_failure, after_containment,
  recover_from_device_fault, old_workers_reaped, finish_validation, begin_shutdown, end_shutdown,
}
use kernel_gym.Pool.Replacement.{
  restart_worker, finish_restart, mark_failed, retry_capacity, register_worker, late_reaped,
}
use kernel_gym.Pool.Checkout.{Checkout, dispatches, get_idle_worker, finish_reap, return_worker}

-- How far the recovery of a generation is: its old workers are to be reaped, the constructors of earlier generations are
-- to end, or a fresh worker is tried.
pub data Phase : Type 0 where
  never reaping draining probing over : Phase

pub record System : Type 0 where
  pub pool : Pool
  pub phase : ℕ → Phase

unfoldable pub has_thread : Thread → List Thread → Bool
has_thread t [] = false
has_thread t (u ∷ us) = same_thread t u || has_thread t us

abbrev pub enter : (ℕ → Phase) → Gate → ℕ → Phase
enter phase (opens g ws) = update phase g reaping
enter phase _ = phase

-- A failed recovery is over, a clean one waits for the constructors of earlier generations.
abbrev pub next_phase : Bool → Phase
next_phase true = draining
next_phase false = over

abbrev pub taken : Checkout → Option ℕ
taken (dispatches w) = some w
taken _ = none

-- A move, with the worker that it hands out.
pub data Move : System → Option ℕ → System → Type 0 where
  context_fault :
      (s : System) (observed : ℕ) (task reason : String)
      → Move s none
          (record s { pool = (begin_context_fault_validation s.pool observed task reason).0 })
  device_fault :
      (s : System) (worker observed : ℕ) (task reason : String)
      → Move s none (record {
        pool = (recover_from_device_fault s.pool worker observed task reason).0;
        phase = enter s.phase (recover_from_device_fault s.pool worker observed task reason).1;
      })
  old_reaped :
      (s : System) (g : ℕ) (task : String) (results : List (ℕ × Bool))
      → s.phase g ≡ reaping
      → Move s none (record {
        pool = old_workers_reaped s.pool g task results;
        phase = update s.phase g (next_phase (all_stopped results));
      })
  older_drained :
      (s : System) (g : ℕ)
      → s.phase g ≡ draining
      → older_active g s.pool.tickets ≡ false
      → Move s none (record s { phase = update s.phase g probing })
  recovery_over :
      (s : System) (g : ℕ)
      → s.phase g ≡ over
      → Move s none (record s { pool = finish_ticket g s.pool })
  probed :
      (s : System) (g : ℕ) (task error fault : String) (started : Bool)
      → s.phase g ≡ probing
      → Move s none (record {
        pool = finish_validation s.pool g task error fault started;
        phase = update s.phase g over;
      })
  unreaped :
      (s : System) (reason task : String) (extra : List ℕ)
      → Move s none (record s { pool = (quarantine_unreaped_context s.pool reason task extra).0 })
  contained :
      (s : System) (reason task : String) (extra : List ℕ)
      → Move s none (record s { pool = (contain_hard_recovery_failure s.pool reason task extra).0 })
  containment_reaped :
      (s : System) (results : List (ℕ × Bool))
      → Move s none (record s { pool = after_containment s.pool results })
  restarted :
      (s : System) (w : ℕ) (validation : Option ℕ)
      → Move s none (record s { pool = restart_worker s.pool w validation })
  restart_done :
      (s : System) (w g : ℕ) (should : Bool) (validation : Option ℕ) (stopped : Bool)
      (reason task : String)
      → Move s none
          (record s { pool = finish_restart s.pool w g should validation stopped reason task })
  thread_failed :
      (s : System) (t : Thread) (physical : Bool) (reason fault : String)
      → has_thread t s.pool.threads ≡ true
      → Move s none (record s { pool = mark_failed s.pool t physical reason fault })
  delay_over : (s : System) (g : ℕ) → Move s none (record s { pool = retry_capacity s.pool g })
  thread_ready :
      (s : System) (t : Thread) (aborted : Bool)
      → has_thread t s.pool.threads ≡ true
      → Move s none (record s { pool = register_worker s.pool t aborted })
  late_stopped :
      (s : System) (w : ℕ) (stopped : Bool)
      → Move s none (record s { pool = late_reaped s.pool w stopped })
  asked :
      (s : System) (alive : ℕ → Bool)
      → Move s
          (taken (get_idle_worker s.pool alive).1)
          (record s { pool = (get_idle_worker s.pool alive).0 })
  dead_reaped :
      (s : System) (retired_count g : ℕ)
      → Move s none (record s { pool = finish_reap s.pool retired_count g })
  returned :
      (s : System) (w : ℕ) (is_alive : Bool)
      → Move s none (record s { pool = return_worker s.pool w is_alive })
  shutdown_begun : (s : System) → Move s none (record s { pool = (begin_shutdown s.pool).0 })
  shutdown_ended :
      (s : System) (drained : Bool) (results : List (ℕ × Bool))
      → Move s none (record s { pool = (end_shutdown s.pool drained results).0 })

-- A run, with the workers that it hands out, the first one first.
pub data Run : System → List ℕ → System → Type 0 where
  no_moves : (s : System) → Run s [] s
  quiet : (s t u : System) (ws : List ℕ) → Move s none t → Run t ws u → Run s ws u
  hands : (s t u : System) (w : ℕ) (ws : List ℕ) → Move s (some w) t → Run t ws u → Run s (w ∷ ws) u
