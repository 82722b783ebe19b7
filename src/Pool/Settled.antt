-- ===== src/Pool/Settled.antt =====
-- Each move leaves the constructors of a pool in order.
use kernel_gym.Prelude.{
  ◌||◌, ℕ, ◌-◌, ◌≤◌, ◌<◌, String, Bool, true, false, not, Option, List, [], ◌∷◌, ◌≡◌, arith, refl,
  if-elim, ltb, length,
}
use kernel_gym.Pool.State.{finish_ticket, Pool, Thread, ensure_capacity, remove_thread}
use kernel_gym.Pool.Faults.{begin_context_fault_validation}
use kernel_gym.Pool.Recovery.{
  quarantine_unreaped_context, contain_hard_recovery_failure, after_containment,
  recover_from_device_fault, old_workers_reaped, finish_validation, begin_shutdown, end_shutdown,
  may_validate, is_current,
}
use kernel_gym.Pool.Replacement.{
  restart_worker, finish_restart, mark_failed, retry_capacity, register_worker, late_reaped,
  is_stale, should_replenish,
}
use kernel_gym.Pool.Checkout.{
  dispatch, get_idle_worker, finish_reap, return_worker, close_corrupt, detach_dead,
}
use kernel_gym.Pool.Generations.{is_open, limit, Below, Below-mono, Below-remove_thread}
use kernel_gym.Pool.Capacity.{Below-ensure_capacity}
use kernel_gym.Pool.Asking.{get_idle_worker-cases}

-- The pool's constructors are of earlier generations where it builds nothing.
pub record Settled (p : Pool) : Type 0 where
  pub below : Below (limit p) p.threads

Settled-ensure : {q : Pool} → Settled q → Settled (ensure_capacity q)
Settled-ensure {q = q} s = record { below = Below-ensure_capacity q s.below }

-- A pool with the same constructors and no lower limit.
Settled-raise : {p q : Pool} → Settled p → limit p ≤ limit q → q.threads ≡ p.threads → Settled q
Settled-raise {p = p} {q = q} s h e = record {
  below = rw e (Below-mono (limit p) (limit q) p.threads h s.below);
}

Settled-remove :
    {p q : Pool} (t : Thread)
    → Settled p
    → limit p ≤ limit q
    → q.threads ≡ remove_thread t p.threads
    → Settled q
Settled-remove {p = p} {q = q} t s h e = record {
  below =
      rw e (Below-mono (limit p) (limit q) _ h (Below-remove_thread (limit p) t p.threads s.below));
}

Settled-dispatch : (q : Pool) (ws : List ℕ) (b : Bool) → Settled q → Settled (dispatch q ws b).0
unfolding dispatch
Settled-dispatch q [] b k = k
Settled-dispatch q (w ∷ rest) false k = k
Settled-dispatch q (w ∷ rest) true k = Settled-ensure (Settled-raise k (ground arith) refl)

module _ (p : Pool) (s : Settled p) where
  pub Settled-begin_context :
      (n : ℕ) (t r : String) → Settled (begin_context_fault_validation p n t r).0
  unfolding begin_context_fault_validation
  Settled-begin_context n t r = Settled-raise s (ground arith) (ground arith)

  pub Settled-quarantine :
      (t r : String) (ws : List ℕ) → Settled (quarantine_unreaped_context p t r ws).0
  unfolding quarantine_unreaped_context
  Settled-quarantine t r ws = Settled-raise s (ground arith) refl

  pub Settled-contain :
      (t r : String) (ws : List ℕ) → Settled (contain_hard_recovery_failure p t r ws).0
  unfolding contain_hard_recovery_failure
  Settled-contain t r ws = Settled-raise s (ground arith) refl

  pub Settled-after_containment : (rs : List (ℕ × Bool)) → Settled (after_containment p rs)
  unfolding after_containment
  Settled-after_containment rs = Settled-raise s (ground arith) refl

  pub Settled-recover : (w n : ℕ) (t r : String) → Settled (recover_from_device_fault p w n t r).0
  unfolding recover_from_device_fault
  Settled-recover w n t r = Settled-raise s (ground arith) (ground arith)

  -- A recovery that still reaps belongs to a gated pool, so the quarantine finds no current constructor.
  pub Settled-old_workers_reaped :
      (g : ℕ) (t : String) (rs : List (ℕ × Bool))
      → (is_open p.health_state ≡ true → g < p.pool_generation)
      → Settled (old_workers_reaped p g t rs)
  unfolding old_workers_reaped
  Settled-old_workers_reaped g t rs h = Settled-raise s (ground arith) (ground arith)

  pub Settled-finish_validation :
      (g : ℕ) (t e f : String) (b : Bool) → Settled (finish_validation p g t e f b)
  unfolding finish_validation may_validate
  Settled-finish_validation g t e f b =
      if-elim Settled (not (may_validate p g)) _ _ (λ h. s)
        λ h.
          if-elim Settled (not b) _ _ (λ k. Settled-raise s (ground arith) refl)
            λ k. Settled-ensure (Settled-raise s (ground arith) refl)

  pub Settled-restart_worker : (w : ℕ) (v : Option ℕ) → Settled (restart_worker p w v)
  unfolding restart_worker should_replenish
  Settled-restart_worker w v = record { below = ground (arith, s.below) }

  pub Settled-finish_restart :
      (w g : ℕ) (b : Bool) (v : Option ℕ) (c : Bool) (r t : String)
      → Settled (finish_restart p w g b v c r t)
  unfolding finish_restart quarantine_unreaped_context
  Settled-finish_restart w g b v true r t =
      if-elim Settled b _ _ (λ h. Settled-raise s (ground arith) refl)
        λ h. Settled-ensure (Settled-raise s (ground arith) refl)
  Settled-finish_restart w g true v false r t = Settled-remove _ s (ground arith) refl
  Settled-finish_restart w g false v false r t = Settled-raise s (ground arith) refl

  pub Settled-mark_failed : (t : Thread) (b : Bool) (r f : String) → Settled (mark_failed p t b r f)
  unfolding mark_failed
  Settled-mark_failed t b r f = Settled-remove t s (ground arith) (ground arith)

  pub Settled-retry_capacity : (g : ℕ) → Settled (retry_capacity p g)
  unfolding retry_capacity
  Settled-retry_capacity g =
      if-elim Settled (not (is_current p g)) _ _ (λ h. Settled-raise s (ground arith) refl)
        λ h. Settled-ensure (Settled-raise s (ground arith) refl)

  pub Settled-register_worker : (t : Thread) (b : Bool) → Settled (register_worker p t b)
  unfolding register_worker is_stale
  Settled-register_worker t b =
      if-elim Settled (b || is_stale p t) _ _ (λ h. Settled-remove t s (ground arith) refl)
        λ h.
          if-elim Settled (ltb (length p.workers) p.pool_size) _ _
            (λ k. Settled-ensure (Settled-remove t s (ground arith) (ground arith)))
            (λ k. Settled-ensure (Settled-remove t s (ground arith) refl))

  pub Settled-get_idle_worker : (alive : ℕ → Bool) → Settled (get_idle_worker p alive).0
  unfolding close_corrupt detach_dead
  Settled-get_idle_worker alive =
      get_idle_worker-cases (λ r. Settled r.0) p alive s (Settled-raise s (ground arith) refl)
        (Settled-raise s (ground arith) refl) λ b c h. Settled-dispatch _ _ b (Settled-ensure s)

  pub Settled-finish_reap : (n g : ℕ) → Settled (finish_reap p n g)
  unfolding finish_reap
  Settled-finish_reap n g = record {
    below =
        (Settled-ensure {q = record p { pending_retirements = p.pending_retirements - n }}
          (Settled-raise s (ground arith) refl)).below;
  }

  pub Settled-return_worker : (w : ℕ) (b : Bool) → Settled (return_worker p w b)
  unfolding return_worker
  Settled-return_worker w b = Settled-ensure (Settled-raise s (ground arith) refl)

  pub Settled-begin_shutdown : Settled (begin_shutdown p).0
  unfolding begin_shutdown
  Settled-begin_shutdown = Settled-raise s (ground arith) refl

  pub Settled-end_shutdown : (b : Bool) (rs : List (ℕ × Bool)) → Settled (end_shutdown p b rs).0
  unfolding end_shutdown
  Settled-end_shutdown b rs = Settled-raise s (ground arith) refl

  pub Settled-late_reaped : (w : ℕ) (b : Bool) → Settled (late_reaped p w b)
  Settled-late_reaped w b = Settled-raise s (ground arith) refl

  pub Settled-finish_ticket : (g : ℕ) → Settled (finish_ticket g p)
  Settled-finish_ticket g = Settled-raise s (ground arith) refl
