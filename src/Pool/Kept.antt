-- ===== src/Pool/Kept.antt =====
-- What each move keeps: generations only grow, no constructor outlives a gate, and a quarantine stays.
use kernel_gym.Prelude.{
  ◌||◌, ℕ, ◌+◌, ◌≤◌, String, Bool, true, false, Option, none, some, not, ltb, ◌-◌, length, List, [],
  ◌∷◌, ◌≡◌, arith, refl, if-elim,
}
use kernel_gym.Pool.State.{
  finish_ticket, Pool, Thread, is_degraded, is_quarantined, ensure_capacity,
}
use kernel_gym.Pool.Faults.{begin_context_fault_validation}
use kernel_gym.Pool.Recovery.{
  quarantine_unreaped_context, contain_hard_recovery_failure, after_containment,
  recover_from_device_fault, old_workers_reaped, finish_validation, begin_shutdown, end_shutdown,
  may_validate, is_current,
}
use kernel_gym.Pool.Replacement.{
  restart_worker, finish_restart, mark_failed, retry_capacity, register_worker, late_reaped,
  is_stale, reopen_if,
}
use kernel_gym.Pool.Checkout.{
  may_dispatch, get_idle_worker, dispatch, finish_reap, return_worker, close_corrupt, detach_dead,
}
use kernel_gym.Pool.Asking.{get_idle_worker-cases}
use kernel_gym.Pool.Settled.{Settled}
use kernel_gym.Pool.Moves.{has_thread, taken}
use kernel_gym.Pool.Generations.{is_open, limit, Below-has_thread}
use kernel_gym.Pool.Capacity.{Alike-ensure_capacity}

-- How many workers a move hands out.
abbrev pub handed : Option ℕ → ℕ
handed none = 0
handed (some w) = 1

-- What a move from `p` to `q` keeps; `v` says that it is the end of a validation, `d` which worker it hands out.
pub record Kept (v : Bool) (d : Option ℕ) (p q : Pool) : Type 0 where
  pub generation : p.pool_generation ≤ q.pool_generation
  pub quarantine : is_quarantined p.health_state ≡ true → is_quarantined q.health_state ≡ true
  pub epoch :
      (p.health_epoch ≤ q.health_epoch)
      × (q.health_epoch ≡ p.health_epoch → q.health_state ≡ p.health_state)
  pub shut :
      v ≡ false
      → is_open q.health_state ≡ true
      → q.pool_generation ≡ p.pool_generation
      → is_open p.health_state ≡ true
  pub spare : p.speculative ≤ 1 → q.speculative ≤ 1
  pub spare_used :
      q.health_epoch ≡ p.health_epoch
      → is_degraded p.health_state ≡ true
      → handed d + q.speculative ≤ p.speculative
  pub closed : p.closing ≡ true → q.closing ≡ true
  pub hard : p.hard_recovery_epoch ≤ q.hard_recovery_epoch

kept :
    {v : Bool} {d : Option ℕ} {p q : Pool}
    → (p.pool_generation ≤ q.pool_generation)
      × ((is_quarantined p.health_state ≡ true → is_quarantined q.health_state ≡ true)
          × (((p.health_epoch ≤ q.health_epoch)
                × (q.health_epoch ≡ p.health_epoch → q.health_state ≡ p.health_state))
              × ((v ≡ false
                    → is_open q.health_state ≡ true
                    → q.pool_generation ≡ p.pool_generation
                    → is_open p.health_state ≡ true)
                  × ((p.speculative ≤ 1 → q.speculative ≤ 1)
                      × ((q.health_epoch ≡ p.health_epoch
                            → is_degraded p.health_state ≡ true
                            → handed d + q.speculative ≤ p.speculative)
                          × ((p.closing ≡ true → q.closing ≡ true)
                              × (p.hard_recovery_epoch ≤ q.hard_recovery_epoch)))))))
    → Kept v d p q
kept f = record {
  generation = f.0;
  quarantine = f.1.0;
  epoch = f.1.1.0;
  shut = f.1.1.1.0;
  spare = f.1.1.1.1.0;
  spare_used = f.1.1.1.1.1.0;
  closed = f.1.1.1.1.1.1.0;
  hard = f.1.1.1.1.1.1.1;
}

pub Kept-refl : {v : Bool} (p : Pool) → Kept v none p p
Kept-refl p = kept (ground arith)

Kept-ensure : {v : Bool} {d : Option ℕ} {p q : Pool} → Kept v d p q → Kept v d p (ensure_capacity q)
Kept-ensure {q = q} k =
    let a = Alike-ensure_capacity q in
    record {
      generation = rw a.generation k.generation;
      quarantine = rw a.health k.quarantine;
      epoch = rw a.health (rw a.epoch k.epoch);
      shut = rw a.health (rw a.generation k.shut);
      spare = rw a.spare k.spare;
      spare_used = rw a.spare (rw a.epoch k.spare_used);
      closed = rw a.closed k.closed;
      hard = rw a.hard k.hard;
    }

module _ (p : Pool) where
  pub Kept-begin_context :
      (n : ℕ) (t r : String) → Kept false none p (begin_context_fault_validation p n t r).0
  unfolding begin_context_fault_validation
  Kept-begin_context n t r = kept (ground arith)

  pub Kept-quarantine :
      (t r : String) (ws : List ℕ) → Kept false none p (quarantine_unreaped_context p t r ws).0
  unfolding quarantine_unreaped_context
  Kept-quarantine t r ws = kept (ground arith)

  pub Kept-contain :
      (t r : String) (ws : List ℕ) → Kept false none p (contain_hard_recovery_failure p t r ws).0
  unfolding contain_hard_recovery_failure
  Kept-contain t r ws = kept (ground arith)

  pub Kept-after_containment : (rs : List (ℕ × Bool)) → Kept false none p (after_containment p rs)
  unfolding after_containment
  Kept-after_containment rs = kept (ground arith)

  pub Kept-recover :
      (w n : ℕ) (t r : String) → Kept false none p (recover_from_device_fault p w n t r).0
  unfolding recover_from_device_fault
  Kept-recover w n t r = kept (ground arith)

  pub Kept-old_workers_reaped :
      (g : ℕ) (t : String) (rs : List (ℕ × Bool)) → Kept false none p (old_workers_reaped p g t rs)
  unfolding old_workers_reaped
  Kept-old_workers_reaped g t rs = kept (ground arith)

  pub Kept-finish_validation :
      (g : ℕ) (t e f : String) (b : Bool) → Kept true none p (finish_validation p g t e f b)
  unfolding finish_validation may_validate
  Kept-finish_validation g t e f b =
      if-elim (Kept true none p) (not (may_validate p g)) _ _ (λ h. Kept-refl p)
        λ h.
          if-elim (Kept true none p) (not b) _ _ (λ k. kept (ground arith))
            λ k. Kept-ensure (kept (ground arith))

  pub Kept-restart_worker : (w : ℕ) (v : Option ℕ) → Kept false none p (restart_worker p w v)
  unfolding restart_worker
  Kept-restart_worker w v = kept (ground arith)

  pub Kept-finish_restart :
      (w g : ℕ) (b : Bool) (v : Option ℕ) (c : Bool) (r t : String)
      → Kept false none p (finish_restart p w g b v c r t)
  unfolding finish_restart quarantine_unreaped_context
  Kept-finish_restart w g b v true r t =
      if-elim (Kept false none p) b _ _ (λ h. kept (ground arith))
        λ h. Kept-ensure (kept (ground arith))
  Kept-finish_restart w g b v false r t = kept (ground arith)

  pub Kept-mark_failed :
      (t : Thread) (b : Bool) (r f : String)
      → Settled p
      → has_thread t p.threads ≡ true
      → Kept false none p (mark_failed p t b r f)
  unfolding mark_failed
  Kept-mark_failed t b r f s h =
      kept (ground (arith, Below-has_thread (limit p) t p.threads s.below h))

  pub Kept-retry_capacity : (g : ℕ) → Kept false none p (retry_capacity p g)
  unfolding retry_capacity
  Kept-retry_capacity g =
      if-elim (Kept false none p) (not (is_current p g)) _ _ (λ h. kept (ground arith))
        λ h. Kept-ensure (kept (ground arith))

  -- A validation reopens the pool out of the degraded state only.
  Kept-reopen_if :
      (t : Thread) (r : Pool)
      → is_stale p t ≡ false
      → r.health_state ≡ p.health_state
      → r.health_epoch ≡ p.health_epoch
      → r.pool_generation ≡ p.pool_generation
      → r.speculative ≡ p.speculative
      → r.closing ≡ p.closing
      → r.hard_recovery_epoch ≡ p.hard_recovery_epoch
      → Kept false none p (reopen_if t.validates r)
  unfolding is_stale
  Kept-reopen_if t r h a b c d e f = kept (ground arith)

  pub Kept-register_worker : (t : Thread) (b : Bool) → Kept false none p (register_worker p t b)
  unfolding register_worker is_stale
  Kept-register_worker t b =
      if-elim (Kept false none p) (b || is_stale p t) _ _ (λ h. kept (ground arith))
        λ h.
          if-elim (Kept false none p) (ltb (length p.workers) p.pool_size) _ _
            (λ k.
              Kept-ensure (Kept-reopen_if t _ (ground (arith, h)) refl refl refl refl refl refl))
            λ k. Kept-ensure (kept (ground arith))

  -- The spare is used up by the hand-over.
  pub Kept-dispatch :
      (q : Pool) (ws : List ℕ) (b : Bool)
      → (b ≡ true → may_dispatch q ≡ true)
      → Kept false none p q
      → (q.health_epoch ≡ p.health_epoch → q.speculative ≤ p.speculative)
      → Kept false (taken (dispatch q ws b).1) p (dispatch q ws b).0
  unfolding dispatch
  Kept-dispatch q [] b m k h = k
  Kept-dispatch q (w ∷ rest) false m k h = k
  Kept-dispatch q (w ∷ rest) true m k h = Kept-ensure (
      kept (ground (arith, k.generation, k.quarantine, k.epoch, k.shut, k.spare, k.closed, k.hard)))

  pub Kept-get_idle_worker :
      (alive : ℕ → Bool)
      → Kept false (taken (get_idle_worker p alive).1) p (get_idle_worker p alive).0
  unfolding close_corrupt detach_dead
  Kept-get_idle_worker alive =
      get_idle_worker-cases (λ r. Kept false (taken r.1) p r.0) p alive (Kept-refl p)
        (kept (ground arith)) (kept (ground arith))
        λ b c h.
          Kept-dispatch _ _ b h (Kept-ensure (Kept-refl p))
            (ground (arith, (Alike-ensure_capacity p).spare))

  pub Kept-finish_reap : (n g : ℕ) → Kept false none p (finish_reap p n g)
  unfolding finish_reap
  Kept-finish_reap n g =
      let k =
        Kept-ensure {v = false} {d = none} {p = p}
          {q = record p { pending_retirements = p.pending_retirements - n }}
          (kept (ground arith)) in
      kept (
        k.generation,
        (k.quarantine, (k.epoch, (k.shut, (k.spare, (k.spare_used, (k.closed, k.hard)))))),
      )

  pub Kept-return_worker : (w : ℕ) (b : Bool) → Kept false none p (return_worker p w b)
  unfolding return_worker
  Kept-return_worker w b = Kept-ensure (kept (ground arith))

  pub Kept-begin_shutdown : Kept false none p (begin_shutdown p).0
  unfolding begin_shutdown
  Kept-begin_shutdown = kept (ground arith)

  pub Kept-end_shutdown :
      (b : Bool) (rs : List (ℕ × Bool)) → Kept false none p (end_shutdown p b rs).0
  unfolding end_shutdown
  Kept-end_shutdown b rs = kept (ground arith)

  pub Kept-late_reaped : (w : ℕ) (b : Bool) → Kept false none p (late_reaped p w b)
  Kept-late_reaped w b = kept (ground arith)

  pub Kept-finish_ticket : (g : ℕ) → Kept false none p (finish_ticket g p)
  Kept-finish_ticket g = kept (ground arith)
