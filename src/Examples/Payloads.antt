-- ===== src/Examples/Payloads.antt =====
-- A task that fails once and then ends with a context fault.
use kernel_gym.Prelude.{ℕ, zero, suc, true, false, none, some, ◌≡◌, ◌≤◌, refl, length, arith}
use kernel_gym.Pool.Faults.{Severity, Signs, checks, stale_report}
use kernel_gym.Pool.Execute.{Round, failed, returned, found, clean, execute_task, is_retry}
use kernel_gym.Pool.Replay.{payload_stops}

abbrev plain_signs : Signs
plain_signs = record {
  ends_process = false;
  device_marker = false;
  context_marker = false;
  benign_marker = false;
  mentions_cuda = false;
  final_sync_failed = false;
  cuda = none;
}

abbrev crash_round : Round
crash_round = record {
  cancel_set = false;
  asked = found;
  outcome = failed false false plain_signs;
  alive = true;
  validation = stale_report;
  unsafe = false;
  cleanup = clean;
}

abbrev fault_round : Round
fault_round = record {
  cancel_set = false;
  asked = found;
  outcome = returned (some Severity.context_fault) plain_signs;
  alive = false;
  validation = checks 3;
  unsafe = false;
  cleanup = clean;
}

abbrev two_rounds : ℕ → Round
two_rounds zero = crash_round
two_rounds (suc n) = fault_round

-- The second run times out; what would follow it differs.
abbrev timeout_round : Round
timeout_round = record crash_round { outcome = failed true true plain_signs }

abbrev timed_rounds : ℕ → Round
timed_rounds zero = crash_round
timed_rounds (suc n) = timeout_round

abbrev other_rounds : ℕ → Round
other_rounds zero = crash_round
other_rounds (suc zero) = timeout_round
other_rounds (suc (suc n)) = fault_round

agree : (i : ℕ) → i ≤ 1 → other_rounds i ≡ timed_rounds i
agree zero h = refl
agree (suc zero) h = refl
agree (suc (suc i)) h = absurd (omega arith)

payload_stops_example :
    (execute_task 3 other_rounds ≡ execute_task 3 timed_rounds)
    × ((length (execute_task 3 timed_rounds).0 ≤ 2)
        × ((length (execute_task 3 timed_rounds).0 ≤ 4)
            × (is_retry (execute_task 3 timed_rounds).1 ≡ false)))
payload_stops_example = payload_stops 3 1 timed_rounds other_rounds (omega arith) refl agree
