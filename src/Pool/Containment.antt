-- ===== src/Pool/Containment.antt =====
-- What a quarantine, a gate and a shutdown rule out (kernelgym/worker/subprocess_pool.py).
use kernel_gym.Prelude.{ℕ, true, false, List, [], ◌≡◌, arith, refl, nat_Eq}
use kernel_gym.Pool.State.{accepting_tasks, is_quarantined}
use kernel_gym.Pool.Moves.{System, Run, no_moves, quiet, hands}
use kernel_gym.Pool.Handing.{Move-idle}
use kernel_gym.Pool.Runs.{Sound, Sound-Move, Sound-Run, Sound-start, start, Kept-Move}

quarantine-Run :
    {ws : List ℕ} {s t : System}
    → Run s ws t
    → Sound s
    → is_quarantined s.pool.health_state ≡ true
    → (is_quarantined t.pool.health_state ≡ true) × (ws ≡ [])
unfolding accepting_tasks
quarantine-Run (no_moves s) z h = (h, refl)
quarantine-Run (quiet s t u ws m r) z h =
    quarantine-Run r (Sound-Move m z) ((Kept-Move m z.in_order).1.quarantine h)
quarantine-Run (hands s t u w ws m r) z h = ground (arith, Move-idle m w refl)

-- A quarantine is final: after any run of a new pool that quarantines it, and any run from there, the pool is
-- quarantined, accepts no task, and none was handed a worker. No constructor or recovery that was on its
-- way reopens it.
pub quarantine_stays :
    (size : ℕ) (ws vs : List ℕ) (s t : System)
    → Run (start size) ws s
    → is_quarantined s.pool.health_state ≡ true
    → Run s vs t
    → (is_quarantined t.pool.health_state ≡ true) × ((accepting_tasks t.pool ≡ false) × (vs ≡ []))
unfolding accepting_tasks
quarantine_stays size ws vs s t r h q =
    let k = quarantine-Run q (Sound-Run r (Sound-start size)) h in (k.0, (ground (arith, k.0), k.1))

closed-Run :
    {ws : List ℕ} {s t : System}
    → Run s ws t
    → Sound s
    → s.pool.closing ≡ true
    → (t.pool.closing ≡ true) × (ws ≡ [])
unfolding accepting_tasks
closed-Run (no_moves s) z h = (h, refl)
closed-Run (quiet s t u ws m r) z h =
    closed-Run r (Sound-Move m z) ((Kept-Move m z.in_order).1.closed h)
closed-Run (hands s t u w ws m r) z h = ground (arith, Move-idle m w refl)

-- A pool that closes stays closed: after any run of a new pool that begins its shutdown, and any run from there, it is
-- closing, accepts no task, and none was handed a worker.
pub closing_stays :
    (size : ℕ) (ws vs : List ℕ) (s t : System)
    → Run (start size) ws s
    → s.pool.closing ≡ true
    → Run s vs t
    → (t.pool.closing ≡ true) × ((accepting_tasks t.pool ≡ false) × (vs ≡ []))
unfolding accepting_tasks
closing_stays size ws vs s t r h q =
    let k = closed-Run q (Sound-Run r (Sound-start size)) h in (k.0, (ground (arith, k.0), k.1))
