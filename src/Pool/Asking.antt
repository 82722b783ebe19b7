-- ===== src/Pool/Asking.antt =====
-- The ways in which `_get_idle_worker` ends (kernelgym/worker/subprocess_pool.py).
use kernel_gym.Prelude.{ℕ, Bool, true, false, not, ◌&&◌, ◌≡◌, arith, if-elim, []}
use kernel_gym.Pool.State.{Pool, tracked_workers, ensure_capacity}
use kernel_gym.Pool.Checkout.{
  Checkout, refused, is_blocked, is_nonempty, live_orphans, dead_busy, reaps, dead_workers,
  close_corrupt, detach_dead, dispatch, may_dispatch, get_idle_worker,
}

and_right : (a b : Bool) → (a && b) ≡ true → b ≡ true
and_right a b h = ground arith

-- What holds of every way to end holds of the whole: a refusal, the two ways to reap, and the dispatch.
pub get_idle_worker-cases :
    (P : Pool × Checkout → Type 0) (p : Pool) (alive : ℕ → Bool)
    → P (p, refused)
    → P (close_corrupt p, reaps (tracked_workers p []))
    → P (detach_dead p (dead_workers p alive), reaps (dead_workers p alive))
    → ((b : Bool)
        → p.closing ≡ false
        → (b ≡ true → may_dispatch (ensure_capacity p) ≡ true)
        → P (dispatch (ensure_capacity p) (ensure_capacity p).idle_workers b))
    → P (get_idle_worker p alive)
unfolding get_idle_worker
get_idle_worker-cases P p alive r c d h =
    if-elim P p.closing _ _ (λ u. r)
      λ u.
        if-elim P (is_blocked p.health_state) _ _ (λ v. r)
          λ v.
            if-elim P (is_nonempty (live_orphans p alive)) _ _ (λ w. c)
              λ w.
                if-elim P (is_nonempty (dead_workers p alive)) _ _ (λ x. d)
                  λ x. h _ u (
                    and_right (not (is_nonempty (dead_busy p alive)))
                      (may_dispatch (ensure_capacity p)))
