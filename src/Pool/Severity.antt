-- ===== src/Pool/Severity.antt =====
-- The strongest fault of several reports (_strongest_cuda_fault of kernelgym/worker/subprocess_pool.py).
use kernel_gym.Prelude.{◌≤◌, Option, none, some, List, [], ◌∷◌, ◌≡◌, ◌⊎◌, inr, arith}
use kernel_gym.Pool.Faults.{Severity, no_fault, rank, stronger, strongest_cuda_fault}

-- Whether a severity is among the reports.
abbrev pub Reported : Severity → List (Option Severity) → Type 0
Reported s [] = s ≡ no_fault
Reported s (r ∷ rs) = (r ≡ some s) ⊎ Reported s rs

abbrev pub Bounds : Severity → List (Option Severity) → Type 0
Bounds s [] = Unit {0}
Bounds s (none ∷ rs) = Bounds s rs
Bounds s (some r ∷ rs) = (rank r ≤ rank s) × Bounds s rs

Bounds-stronger :
    (r s : Severity) (rs : List (Option Severity)) → Bounds s rs → Bounds (stronger r s) rs
Bounds-stronger r s [] b = b
Bounds-stronger r s (none ∷ rs) b = Bounds-stronger r s rs b
Bounds-stronger r s (some x ∷ rs) b = (ground (arith, b.0), Bounds-stronger r s rs b.1)

-- The strongest fault bounds every report by rank, and is one of the reports, or `none` where there is none.
pub strongest_cuda_fault-max :
    (rs : List (Option Severity))
    → Bounds (strongest_cuda_fault rs) rs × Reported (strongest_cuda_fault rs) rs
unfolding strongest_cuda_fault
strongest_cuda_fault-max [] = ground arith
strongest_cuda_fault-max (none ∷ rs) = let k = strongest_cuda_fault-max rs in (k.0, inr k.1)
strongest_cuda_fault-max (some s ∷ rs) =
    let k = strongest_cuda_fault-max rs in
    ((ground arith, Bounds-stronger s (strongest_cuda_fault rs) rs k.0), ground (arith, k.1))
