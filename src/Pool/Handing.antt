-- ===== src/Pool/Handing.antt =====
-- When a pool hands out a worker, and which one (_get_idle_worker of kernelgym/worker/subprocess_pool.py).
use kernel_gym.Prelude.{
  ℕ, ◌+◌, ◌≤◌, Bool, true, false, Option, some, List, [], ◌∷◌, ◌≡◌, arith, refl, sym, contains,
  count-pos_contains, length, nat_Eq, beq_refl,
}
use kernel_gym.Pool.State.{Pool, accepting_tasks, is_degraded, ensure_capacity}
use kernel_gym.Pool.Moves.{System, Move, Run, no_moves, quiet, hands, taken, asked}
use kernel_gym.Pool.Checkout.{may_dispatch, dispatch, get_idle_worker}
use kernel_gym.Pool.Capacity.{Alike-ensure_capacity}
use kernel_gym.Pool.Asking.{get_idle_worker-cases}
use kernel_gym.Pool.Runs.{Sound, Sound-Move, Sound-Run, Sound-start, start, Kept-Move}

-- The worker of a dispatch is idle, and the pool may dispatch.
dispatch-idle :
    (q : Pool) (ws : List ℕ) (b : Bool) (w : ℕ)
    → (b ≡ true → may_dispatch q ≡ true)
    → taken (dispatch q ws b).1 ≡ some w
    → (may_dispatch q ≡ true) × (contains w ws ≡ true)
unfolding dispatch contains
dispatch-idle q [] b w m h = ground arith
dispatch-idle q (v ∷ rest) false w m h = ground arith
dispatch-idle q (v ∷ rest) true w m h = (m refl, ground (arith, beq_refl w, h))

get_idle_worker-idle :
    (p : Pool) (alive : ℕ → Bool) (w : ℕ)
    → taken (get_idle_worker p alive).1 ≡ some w
    → (accepting_tasks p ≡ true) × (contains w p.idle_workers ≡ true)
unfolding accepting_tasks
get_idle_worker-idle p alive w =
    get_idle_worker-cases
      (λ r. taken r.1 ≡ some w → (accepting_tasks p ≡ true) × (contains w p.idle_workers ≡ true)) p
      alive (λ h. ground arith) (λ h. ground arith) (λ h. ground arith)
      λ b c m h.
        let a = Alike-ensure_capacity p in
        let k = dispatch-idle (ensure_capacity p) (ensure_capacity p).idle_workers b w m h in
        (ground (arith, c, k.0, a.health, a.spare), rw (sym a.idle) k.1)

pub Move-idle :
    {s : System} {d : Option ℕ} {t : System}
    → Move s d t
    → (w : ℕ) → d ≡ some w
    → (accepting_tasks s.pool ≡ true) × (contains w s.pool.idle_workers ≡ true)
Move-idle (asked s alive) w h = get_idle_worker-idle s.pool alive w h
Move-idle m w h = ground arith

-- A worker that is handed out is idle at the time, and is not handed out to another task as well: it is not
-- busy. The pool accepts tasks: it is not closing, and is healthy or has its spare. This holds after every run
-- of a new pool.
pub hands-idle :
    (size : ℕ) (ws : List ℕ) (s t : System) (w : ℕ)
    → Run (start size) ws s
    → Move s (some w) t
    → (accepting_tasks s.pool ≡ true)
      × ((contains w s.pool.idle_workers ≡ true) × (contains w s.pool.busy_workers ≡ false))
hands-idle size ws s t w r m =
    let i = Move-idle m w refl in
    (
      i.0,
      (
        i.1,
        ground (
          arith,
          i.1,
          (Sound-Run r (Sound-start size)).distinct.once w,
          count-pos_contains w s.pool.idle_workers,
          count-pos_contains w s.pool.busy_workers,
        ),
      ),
    )

-- The number of workers that a run hands out in one epoch of a degraded pool is covered by its spare.
spare-Run :
    {ws : List ℕ} {s t : System}
    → Run s ws t
    → Sound s
    → (s.pool.health_epoch ≤ t.pool.health_epoch)
      × (t.pool.health_epoch ≡ s.pool.health_epoch
          → is_degraded s.pool.health_state ≡ true
          → length ws + t.pool.speculative ≤ s.pool.speculative)
spare-Run (no_moves s) z = ground arith
spare-Run (quiet s t u ws m r) z =
    let k = (Kept-Move m z.in_order).1 in
    ground (arith, k.epoch, k.spare_used, spare-Run r (Sound-Move m z))
spare-Run (hands s t u w ws m r) z =
    let k = (Kept-Move m z.in_order).1 in
    ground (arith, k.epoch, k.spare_used, spare-Run r (Sound-Move m z))

-- While a context fault is checked, at most one task is dispatched: in a run that begins with a degraded pool
-- and stays in its epoch (until the check reopens, gates or quarantines the pool) one worker at most is handed
-- out. The pool is reached by any run of a new pool.
pub one_spare_dispatch :
    (size : ℕ) (ws vs : List ℕ) (s t : System)
    → Run (start size) ws s
    → is_degraded s.pool.health_state ≡ true
    → Run s vs t
    → t.pool.health_epoch ≡ s.pool.health_epoch
    → length vs ≤ 1
one_spare_dispatch size ws vs s t r h q e =
    let z = Sound-Run r (Sound-start size) in ground (arith, z.one_spare, spare-Run q z, h, e)
