-- ===== src/Pool/Distinct.antt =====
-- No worker is idle and busy at once, and every worker has its own identity.
use kernel_gym.Prelude.{
  ◌||◌, ℕ, suc, ◌+◌, ◌-◌, ◌≤◌, String, Bool, true, false, not, Option, List, [], ◌∷◌, ◌++◌, ◌≡◌,
  arith, nat_Eq, refl, if-elim, count, contains, count-pos_contains, ltb, length, count-lrem_one_le,
  count-append, count-contains-false, count-lrem_one_self,
}
use kernel_gym.Pool.State.{finish_ticket, Pool, Thread, ensure_capacity}
use kernel_gym.Pool.Faults.{begin_context_fault_validation}
use kernel_gym.Pool.Recovery.{
  quarantine_unreaped_context, contain_hard_recovery_failure, after_containment,
  recover_from_device_fault, old_workers_reaped, finish_validation, begin_shutdown, end_shutdown,
  may_validate, is_current,
}
use kernel_gym.Pool.Replacement.{
  restart_worker, finish_restart, mark_failed, retry_capacity, register_worker, late_reaped,
  is_stale, should_replenish,
}
use kernel_gym.Pool.Checkout.{
  dispatch, get_idle_worker, finish_reap, return_worker, close_corrupt, detach_dead, select,
  dead_workers,
}
use kernel_gym.Pool.Capacity.{Alike-ensure_capacity}
use kernel_gym.Pool.Asking.{get_idle_worker-cases}

pub record Distinct (p : Pool) : Type 0 where
  -- no worker stands twice in the lists of idle and of busy workers
  pub once : (w : ℕ) → count w p.idle_workers + count w p.busy_workers ≤ 1
  -- the next identity and those after it are not used
  pub fresh :
      (w : ℕ)
      → p.next_worker ≤ w
      → count w p.workers + (count w p.idle_workers + count w p.busy_workers) ≡ 0

-- A pool with fewer workers, or the same.
fewer :
    {p q : Pool}
    → Distinct p
    → ((w : ℕ)
        → (p.next_worker ≤ q.next_worker)
          × ((count w q.workers ≤ count w p.workers)
              × ((count w q.idle_workers ≤ count w p.idle_workers)
                  × (count w q.busy_workers ≤ count w p.busy_workers))))
    → Distinct q
fewer {p = p} {q = q} d f = record {
  once = λ w. ground (arith, d.once w, f w);
  fresh = λ w h. ground (arith, d.fresh w, f w);
}

Distinct-ensure : {q : Pool} → Distinct q → Distinct (ensure_capacity q)
Distinct-ensure {q = q} d =
    let a = Alike-ensure_capacity q in
    record {
      once = rw a.idle (rw a.busy d.once);
      fresh = rw a.members (rw a.idle (rw a.busy (rw a.next d.fresh)));
    }

count-select : (keep : ℕ → Bool) (w : ℕ) (ws : List ℕ) → count w (select keep ws) ≤ count w ws
unfolding select count
count-select keep w [] = ground arith
count-select keep w (v ∷ ws) = ground (arith, count-select keep w ws)

-- A new worker gets the next identity.
Distinct-admit :
    {p q : Pool}
    → Distinct p
    → q.workers ≡ p.workers ++ p.next_worker ∷ []
    → q.idle_workers ≡ p.idle_workers ++ p.next_worker ∷ []
    → q.busy_workers ≡ p.busy_workers
    → q.next_worker ≡ suc p.next_worker
    → Distinct q
unfolding count
Distinct-admit {p = p} {q = q} d a b c n = record {
  once = λ w. rw b (
      rw c (
        rw (count-append w p.idle_workers (p.next_worker ∷ []))
          (ground (arith, d.once w, d.fresh w))));
  fresh = λ w h. rw a (
      rw b (
        rw c (
          rw (count-append w p.idle_workers (p.next_worker ∷ []))
            (rw (count-append w p.workers (p.next_worker ∷ [])) (ground (arith, d.fresh w, n))))));
}

Distinct-dispatch :
    (q : Pool) (ws : List ℕ) (b : Bool)
    → q.idle_workers ≡ ws
    → Distinct q
    → Distinct (dispatch q ws b).0
unfolding dispatch count
Distinct-dispatch q [] b e d = d
Distinct-dispatch q (v ∷ rest) false e d = d
Distinct-dispatch q (v ∷ rest) true e d = Distinct-ensure record {
  once = λ w. rw (count-append w q.busy_workers (v ∷ [])) (ground (arith, d.once w, e));
  fresh = λ w h. rw (count-append w q.busy_workers (v ∷ [])) (ground (arith, d.fresh w, e));
}

module _ (p : Pool) (d : Distinct p) where
  pub Distinct-begin_context :
      (n : ℕ) (t r : String) → Distinct (begin_context_fault_validation p n t r).0
  unfolding begin_context_fault_validation count
  Distinct-begin_context n t r = fewer d λ w. ground arith

  pub Distinct-quarantine :
      (t r : String) (ws : List ℕ) → Distinct (quarantine_unreaped_context p t r ws).0
  unfolding quarantine_unreaped_context count
  Distinct-quarantine t r ws = fewer d λ w. ground arith

  pub Distinct-contain :
      (t r : String) (ws : List ℕ) → Distinct (contain_hard_recovery_failure p t r ws).0
  unfolding contain_hard_recovery_failure count
  Distinct-contain t r ws = fewer d λ w. ground arith

  pub Distinct-after_containment : (rs : List (ℕ × Bool)) → Distinct (after_containment p rs)
  unfolding after_containment count
  Distinct-after_containment rs = fewer d λ w. ground arith

  pub Distinct-recover : (v n : ℕ) (t r : String) → Distinct (recover_from_device_fault p v n t r).0
  unfolding recover_from_device_fault count
  Distinct-recover v n t r = fewer d λ w. ground arith

  pub Distinct-old_workers_reaped :
      (g : ℕ) (t : String) (rs : List (ℕ × Bool)) → Distinct (old_workers_reaped p g t rs)
  unfolding old_workers_reaped count
  Distinct-old_workers_reaped g t rs = fewer d λ w. ground arith

  pub Distinct-finish_validation :
      (g : ℕ) (t e f : String) (b : Bool) → Distinct (finish_validation p g t e f b)
  unfolding finish_validation may_validate count
  Distinct-finish_validation g t e f b =
      if-elim Distinct (not (may_validate p g)) _ _ (λ h. d)
        λ h.
          if-elim Distinct (not b) _ _ (λ k. fewer d λ w. ground arith)
            λ k. Distinct-ensure (Distinct-admit d refl refl refl refl)

  pub Distinct-restart_worker : (v : ℕ) (o : Option ℕ) → Distinct (restart_worker p v o)
  unfolding restart_worker should_replenish count
  Distinct-restart_worker v o = fewer d λ w. ground (
    arith,
    count-lrem_one_le v w p.workers,
    count-lrem_one_le v w p.idle_workers,
    count-lrem_one_le v w p.busy_workers,
  )

  pub Distinct-finish_restart :
      (v g : ℕ) (b : Bool) (o : Option ℕ) (c : Bool) (r t : String)
      → Distinct (finish_restart p v g b o c r t)
  unfolding finish_restart quarantine_unreaped_context count
  Distinct-finish_restart v g b o true r t =
      if-elim Distinct b _ _ (λ h. fewer d λ w. ground arith)
        λ h. Distinct-ensure (fewer d λ w. ground arith)
  Distinct-finish_restart v g b o false r t = fewer d λ w. ground arith

  pub Distinct-mark_failed :
      (t : Thread) (b : Bool) (r f : String) → Distinct (mark_failed p t b r f)
  unfolding mark_failed count
  Distinct-mark_failed t b r f = fewer d λ w. ground arith

  pub Distinct-retry_capacity : (g : ℕ) → Distinct (retry_capacity p g)
  unfolding retry_capacity count
  Distinct-retry_capacity g =
      if-elim Distinct (not (is_current p g)) _ _ (λ h. fewer d λ w. ground arith)
        λ h. Distinct-ensure (fewer d λ w. ground arith)

  pub Distinct-register_worker : (t : Thread) (b : Bool) → Distinct (register_worker p t b)
  unfolding register_worker is_stale count
  Distinct-register_worker t b =
      if-elim Distinct (b || is_stale p t) _ _ (λ h. fewer d λ w. ground arith)
        λ h.
          if-elim Distinct (ltb (length p.workers) p.pool_size) _ _
            (λ k.
              Distinct-ensure
                (Distinct-admit d (ground arith) (ground arith) (ground arith) (ground arith)))
            (λ k. Distinct-ensure (fewer d λ w. ground arith))

  pub Distinct-get_idle_worker : (alive : ℕ → Bool) → Distinct (get_idle_worker p alive).0
  unfolding close_corrupt detach_dead count
  Distinct-get_idle_worker alive =
      get_idle_worker-cases (λ r. Distinct r.0) p alive d (fewer d λ w. ground arith)
        (fewer d λ w. ground (
          arith,
          count-select (λ v. not (contains v (dead_workers p alive))) w p.workers,
          count-select (λ v. not (contains v (dead_workers p alive))) w p.idle_workers,
          count-select (λ v. not (contains v (dead_workers p alive))) w p.busy_workers,
        ))
        λ b c h. Distinct-dispatch _ _ b refl (Distinct-ensure d)

  pub Distinct-finish_reap : (n g : ℕ) → Distinct (finish_reap p n g)
  unfolding finish_reap
  Distinct-finish_reap n g =
      let e =
        Distinct-ensure {q = record p { pending_retirements = p.pending_retirements - n }}
          (record { once = d.once; fresh = d.fresh }) in
      record { once = e.once; fresh = e.fresh }

  pub Distinct-return_worker : (v : ℕ) (b : Bool) → Distinct (return_worker p v b)
  unfolding return_worker count
  Distinct-return_worker v b = Distinct-ensure record {
    once = λ w. ground (
      arith,
      d.once w,
      d.once v,
      count-pos_contains v p.workers,
      count-append w p.idle_workers (v ∷ []),
      count-lrem_one_le v w p.busy_workers,
      count-lrem_one_self v p.busy_workers,
      count-contains-false v p.idle_workers,
    );
    fresh = λ w h. ground (
      arith,
      d.fresh w,
      d.fresh v,
      count-pos_contains v p.workers,
      count-append w p.idle_workers (v ∷ []),
      count-lrem_one_le v w p.busy_workers,
    );
  }

  pub Distinct-begin_shutdown : Distinct (begin_shutdown p).0
  unfolding begin_shutdown count
  Distinct-begin_shutdown = fewer d λ w. ground arith

  pub Distinct-end_shutdown : (b : Bool) (rs : List (ℕ × Bool)) → Distinct (end_shutdown p b rs).0
  unfolding end_shutdown count
  Distinct-end_shutdown b rs = fewer d λ w. ground arith

  pub Distinct-late_reaped : (w : ℕ) (b : Bool) → Distinct (late_reaped p w b)
  Distinct-late_reaped w b = fewer d λ v. ground arith

  pub Distinct-finish_ticket : (g : ℕ) → Distinct (finish_ticket g p)
  Distinct-finish_ticket g = fewer d λ w. ground arith
