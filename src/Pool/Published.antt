-- ===== src/Pool/Published.antt =====
-- Which results `execute_task` publishes (kernelgym/worker/subprocess_pool.py).
use kernel_gym.Prelude.{true, false, Option, ◌≡◌, ◌≢◌}
use kernel_gym.Pool.Faults.{Severity, no_fault, Signs}
use kernel_gym.Pool.Execute.{returned, Round, react, touches, result_severity}

-- The round that published `s`: its result had this severity, no weaker than what the child and the parent
-- reported, and a faulty worker was restarted or recovered without an unsafe end.
pub record Origin (r : Round) (s : Severity) : Type 0 where
  pub child : Option Severity
  pub signs : Signs
  pub result : r.outcome ≡ returned child signs
  pub severity : s ≡ result_severity child signs
  pub contained : s ≢ no_fault → touches (react r.outcome r.alive r.validation) ≡ true
  pub safe : touches (react r.outcome r.alive r.validation) ≡ true → r.unsafe ≡ false
