-- ===== src/Pool/Retained.antt =====
-- The handles of the worker processes whose exit is not proven (kernelgym/worker/subprocess_pool.py).
use kernel_gym.Prelude.{
  ℕ, String, ltb, length, Bool, true, false, ◌&&◌, ◌||◌, not, Option, List, [], ◌∷◌, ◌++◌, ◌≡◌,
  arith, refl, contains, map, lrem_all, nat_Eq, nat_eq, if-elim,
}
use kernel_gym.Pool.State.{
  Pool, Thread, retain, record_reap, record_reap_results, all_stopped, distinct_workers,
  tracked_workers, ensure_capacity,
}
use kernel_gym.Pool.Faults.{begin_context_fault_validation}
use kernel_gym.Pool.Recovery.{
  quarantine_unreaped_context, contain_hard_recovery_failure, after_containment,
  recover_from_device_fault, old_workers_reaped, finish_validation, may_validate, is_current,
  begin_shutdown, end_shutdown,
}
use kernel_gym.Pool.Replacement.{
  restart_worker, finish_restart, mark_failed, retry_capacity, register_worker, is_stale, reopen_if,
}
use kernel_gym.Pool.Checkout.{
  get_idle_worker, dispatch, finish_reap, return_worker, close_corrupt, detach_dead,
}
use kernel_gym.Pool.Asking.{get_idle_worker-cases}
use kernel_gym.Pool.Capacity.{Alike-ensure_capacity}
use kernel_gym.Pool.Moves.{
  System, Move, Run, no_moves, quiet, hands, context_fault, device_fault, older_drained,
  recovery_over, old_reaped, probed, unreaped, contained, containment_reaped, restarted,
  restart_done, thread_failed, delay_over, thread_ready, late_stopped, asked, dead_reaped, returned,
  shutdown_begun, shutdown_ended,
}

-- Whether a list of shutdown results proves the exit of a worker.
unfoldable pub proven : ℕ → List (ℕ × Bool) → Bool
proven w [] = false
proven w ((v, stopped) ∷ rest) = (nat_eq w v && stopped) || proven w rest

-- Whether a move brings the proof of a worker's exit.
abbrev pub proves : {s : System} {d : Option ℕ} {t : System} → ℕ → Move s d t → Bool
proves w (old_reaped s g t rs h) = proven w rs
proves w (containment_reaped s rs) = proven w rs
proves w (restart_done s v g b x c r t) = nat_eq w v && c
proves w (late_stopped s v b) = nat_eq w v && b
proves w (shutdown_ended s b rs) = proven w rs
proves w _ = false

-- No move of a run brings the proof of a worker's exit.
abbrev pub Unproven : {s : System} {ws : List ℕ} {t : System} → ℕ → Run s ws t → Type 0
Unproven w (no_moves s) = Unit {0}
Unproven w (quiet s t u ws m r) = (proves w m ≡ false) × Unproven w r
Unproven w (hands s t u v ws m r) = (proves w m ≡ false) × Unproven w r

abbrev Held : ℕ → Pool → Type 0
Held w p = contains w p.retained ≡ true

pub contains-lrem_all :
    (w v : ℕ) (xs : List ℕ) → nat_eq w v ≡ false → contains w (lrem_all v xs) ≡ contains w xs
unfolding contains lrem_all
contains-lrem_all w v [] h = refl
contains-lrem_all w v (x ∷ xs) h = ground (arith, contains-lrem_all w v xs)

contains-lrem_all_self : (w : ℕ) (xs : List ℕ) → contains w (lrem_all w xs) ≡ false
unfolding contains lrem_all
contains-lrem_all_self w [] = refl
contains-lrem_all_self w (x ∷ xs) = ground (arith, contains-lrem_all_self w xs)

-- Only the proof of a worker's exit releases its handle.
record_reap-keeps :
    (w v : ℕ) (stopped : Bool) (xs : List ℕ)
    → (nat_eq w v && stopped) ≡ false
    → contains w xs ≡ true
    → contains w (record_reap stopped v xs) ≡ true
unfolding record_reap contains
record_reap-keeps w v true xs h c = ground (arith, contains-lrem_all w v xs)
record_reap-keeps w v false xs h c = ground arith

record_reap_results-keeps :
    (w : ℕ) (rs : List (ℕ × Bool)) (xs : List ℕ)
    → proven w rs ≡ false
    → contains w xs ≡ true
    → contains w (record_reap_results rs xs) ≡ true
unfolding record_reap_results proven
record_reap_results-keeps w [] xs h c = c
record_reap_results-keeps w ((v, b) ∷ rs) xs h c =
    record_reap_results-keeps w rs (record_reap b v xs) (ground arith)
      (record_reap-keeps w v b xs (ground arith) c)

Held-ensure : (w : ℕ) (p : Pool) → Held w p → Held w (ensure_capacity p)
Held-ensure w p h = rw (Alike-ensure_capacity p).handles h

retain-keeps : (w v : ℕ) (xs : List ℕ) → contains w xs ≡ true → contains w (retain v xs) ≡ true
unfolding contains
retain-keeps w v xs h = ground arith

module _ (p : Pool) (w : ℕ) (h : Held w p) where
  Held-finish_restart :
      (v g : ℕ) (b : Bool) (x : Option ℕ) (c : Bool) (r t : String)
      → (nat_eq w v && c) ≡ false
      → Held w (finish_restart p v g b x c r t)
  unfolding finish_restart quarantine_unreaped_context
  Held-finish_restart v g b x true r t n =
      let k = record_reap-keeps w v true p.retained n h in
      if-elim (Held w) b _ _ (λ e. k) (λ e. Held-ensure w _ k)
  Held-finish_restart v g b x false r t n = record_reap-keeps w v false p.retained n h

  Held-finish_validation :
      (g : ℕ) (t e f : String) (b : Bool) → Held w (finish_validation p g t e f b)
  unfolding finish_validation may_validate
  Held-finish_validation g t e f b =
      if-elim (Held w) (not (may_validate p g)) _ _ (λ k. h)
        λ k. if-elim (Held w) (not b) _ _ (λ l. h) (λ l. Held-ensure w _ h)

  Held-retry_capacity : (g : ℕ) → Held w (retry_capacity p g)
  unfolding retry_capacity
  Held-retry_capacity g =
      if-elim (Held w) (not (is_current p g)) _ _ (λ k. h) (λ k. Held-ensure w _ h)

  Held-reopen_if : (b : Bool) (q : Pool) → q.retained ≡ p.retained → Held w (reopen_if b q)
  Held-reopen_if true q e = rw e h
  Held-reopen_if false q e = rw e h

  Held-register_worker : (t : Thread) (b : Bool) → Held w (register_worker p t b)
  unfolding register_worker is_stale
  Held-register_worker t b =
      if-elim (Held w) (b || is_stale p t) _ _ (λ k. retain-keeps w p.next_worker p.retained h)
        λ k.
          if-elim (Held w) (ltb (length p.workers) p.pool_size) _ _
            (λ l. Held-ensure w _ (Held-reopen_if t.validates _ refl))
            λ l. Held-ensure w _ (retain-keeps w p.next_worker p.retained h)

  Held-dispatch : (q : Pool) (ws : List ℕ) (b : Bool) → Held w q → Held w (dispatch q ws b).0
  unfolding dispatch
  Held-dispatch q [] b k = k
  Held-dispatch q (v ∷ rest) false k = k
  Held-dispatch q (v ∷ rest) true k = Held-ensure w _ k

  Held-get_idle_worker : (alive : ℕ → Bool) → Held w (get_idle_worker p alive).0
  unfolding close_corrupt detach_dead
  Held-get_idle_worker alive =
      get_idle_worker-cases (λ r. Held w r.0) p alive h h h
        λ b c k. Held-dispatch _ _ b (Held-ensure w p h)

  Held-return_worker : (v : ℕ) (b : Bool) → Held w (return_worker p v b)
  unfolding return_worker
  Held-return_worker v b = Held-ensure w _ h

  Held-finish_reap : (n g : ℕ) → Held w (finish_reap p n g)
  unfolding finish_reap
  Held-finish_reap n g = rw (Alike-ensure_capacity _).handles h

-- A move that does not bring the proof of a worker's exit keeps its handle.
Held-Move :
    {s : System} {d : Option ℕ} {t : System} (w : ℕ) (m : Move s d t)
    → proves w m ≡ false
    → Held w s.pool
    → Held w t.pool
unfolding begin_context_fault_validation recover_from_device_fault old_workers_reaped
    quarantine_unreaped_context contain_hard_recovery_failure after_containment restart_worker
    mark_failed begin_shutdown end_shutdown
Held-Move w (context_fault s n t r) e h = ground arith
Held-Move w (device_fault s v n t r) e h = ground arith
Held-Move w (old_reaped s g t rs k) e h =
    ground (arith, record_reap_results-keeps w rs s.pool.retained e h)
Held-Move w (probed s g t x f b k) e h = Held-finish_validation s.pool w h g t x f b
Held-Move w (unreaped s r t ws) e h = h
Held-Move w (contained s r t ws) e h = h
Held-Move w (containment_reaped s rs) e h = record_reap_results-keeps w rs s.pool.retained e h
Held-Move w (restarted s v x) e h = retain-keeps w v s.pool.retained h
Held-Move w (restart_done s v g b x c r t) e h = Held-finish_restart s.pool w h v g b x c r t e
Held-Move w (thread_failed s t b r f k) e h = ground arith
Held-Move w (delay_over s g) e h = Held-retry_capacity s.pool w h g
Held-Move w (thread_ready s t b k) e h = Held-register_worker s.pool w h t b
Held-Move w (late_stopped s v b) e h = record_reap-keeps w v b s.pool.retained e h
Held-Move w (asked s alive) e h = Held-get_idle_worker s.pool w h alive
Held-Move w (dead_reaped s n g) e h = Held-finish_reap s.pool w h n g
Held-Move w (returned s v b) e h = Held-return_worker s.pool w h v b
Held-Move w (shutdown_begun s) e h = h
Held-Move w (shutdown_ended s b rs) e h = record_reap_results-keeps w rs s.pool.retained e h
Held-Move w (older_drained s g x k) e h = h
Held-Move w (recovery_over s g x) e h = h

pub Held-Run :
    {s : System} {ws : List ℕ} {t : System} (w : ℕ) (r : Run s ws t)
    → Unproven w r
    → contains w s.pool.retained ≡ true
    → contains w t.pool.retained ≡ true
Held-Run w (no_moves s) e h = h
Held-Run w (quiet s t u ws m r) e h = Held-Run w r e.1 (Held-Move w m e.0 h)
Held-Run w (hands s t u v ws m r) e h = Held-Run w r e.1 (Held-Move w m e.0 h)

-- Results that all are proofs leave no handle of their workers.
pub record_reap_results-clears :
    (w : ℕ) (rs : List (ℕ × Bool)) (xs : List ℕ)
    → all_stopped rs ≡ true
    → (contains w (map (λ r. r.0) rs) || not (contains w xs)) ≡ true
    → contains w (record_reap_results rs xs) ≡ false
unfolding record_reap_results all_stopped contains record_reap
record_reap_results-clears w [] xs a h = ground arith
record_reap_results-clears w ((v, true) ∷ rs) xs a h =
    record_reap_results-clears w rs (lrem_all v xs) a
      (ground (arith, contains-lrem_all w v xs, contains-lrem_all_self w xs))
record_reap_results-clears w ((v, false) ∷ rs) xs a h = ground arith

pub proven-all :
    (w : ℕ) (rs : List (ℕ × Bool))
    → all_stopped rs ≡ true
    → contains w (map (λ r. r.0) rs) ≡ true
    → proven w rs ≡ true
unfolding all_stopped contains proven
proven-all w [] a h = ground arith
proven-all w ((v, b) ∷ rs) a h = ground (arith, proven-all w rs)

contains-append :
    (w : ℕ) (xs ys : List ℕ) → contains w (xs ++ ys) ≡ (contains w xs || contains w ys)
unfolding contains
contains-append w [] ys = refl
contains-append w (x ∷ xs) ys = ground (arith, contains-append w xs ys)

contains-distinct_workers :
    (w : ℕ) (seen xs : List ℕ)
    → contains w xs ≡ true
    → contains w seen ≡ false
    → contains w (distinct_workers seen xs) ≡ true
unfolding contains distinct_workers
contains-distinct_workers w seen [] h k = h
contains-distinct_workers w seen (x ∷ xs) h k =
    ground (arith, contains-distinct_workers w seen xs, contains-distinct_workers w (x ∷ seen) xs)

-- Every worker of any of the pool's lists is tracked.
pub contains-tracked_workers :
    (w : ℕ) (p : Pool) (extra : List ℕ)
    → (contains w p.workers
        || (contains w p.idle_workers || (contains w p.busy_workers || contains w p.retained)))
      ≡ true
    → contains w (tracked_workers p extra) ≡ true
unfolding tracked_workers contains
contains-tracked_workers w p extra h =
    contains-distinct_workers w [] _
      (ground (
        arith,
        contains-append w p.workers (p.idle_workers ++ (p.busy_workers ++ (p.retained ++ extra))),
        contains-append w p.idle_workers (p.busy_workers ++ (p.retained ++ extra)),
        contains-append w p.busy_workers (p.retained ++ extra),
        contains-append w p.retained extra,
      ))
      refl
