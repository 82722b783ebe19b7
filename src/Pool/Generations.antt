-- ===== src/Pool/Generations.antt =====
-- Which constructors may still be admitted: the generations of the pool's threads and recoveries.
use kernel_gym.Prelude.{
  ℕ, suc, ◌≤◌, ◌<◌, Bool, true, List, [], ◌∷◌, ◌≡◌, arith, if◌then◌else◌, ◌||◌,
}
use kernel_gym.Pool.State.{Pool, Thread, Health, is_healthy, is_degraded, remove_thread}
use kernel_gym.Pool.Moves.{has_thread}

-- Whether the pool builds new workers.
abbrev pub is_open : Health → Bool
is_open h = is_healthy h || is_degraded h

abbrev pub limit : Pool → ℕ
limit p = if is_open p.health_state then suc p.pool_generation else p.pool_generation

-- Every thread is of a generation below `b`.
abbrev pub Below : ℕ → List Thread → Type 0
Below b [] = Unit {0}
Below b (t ∷ ts) = (t.generation < b) × Below b ts

pub Below-mono : (m n : ℕ) (ts : List Thread) → m ≤ n → Below m ts → Below n ts
Below-mono m n [] h b = b
Below-mono m n (t ∷ ts) h b = (ground (arith, b.0), Below-mono m n ts h b.1)

pub Below-remove_thread :
    (b : ℕ) (t : Thread) (ts : List Thread) → Below b ts → Below b (remove_thread t ts)
unfolding remove_thread
Below-remove_thread b t [] h = h
Below-remove_thread b t (u ∷ us) h = ground (arith, Below-remove_thread b t us h.1)

pub Below-has_thread :
    (b : ℕ) (t : Thread) (ts : List Thread) → Below b ts → has_thread t ts ≡ true → t.generation < b
unfolding has_thread
Below-has_thread b t [] h k = ground arith
Below-has_thread b t (u ∷ us) h k = ground (arith, Below-has_thread b t us h.1)
