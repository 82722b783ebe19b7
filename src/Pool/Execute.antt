-- ===== src/Pool/Execute.antt =====
-- How one task is run: `execute_task` of kernelgym/worker/subprocess_pool.py. What the pool and the worker
-- answer in a round is an argument.
use kernel_gym.Prelude.{
  ℕ, zero, suc, Bool, true, false, not, ◌&&◌, ◌||◌, Option, none, some, List, [], ◌∷◌,
  if◌then◌else◌,
}
use kernel_gym.Pool.Faults.{
  Severity, no_fault, context_fault, device_fault, Signs, classify_cuda_fault, strongest_cuda_fault,
  Validation, stale_report, already_checking, checks,
}

-- What `worker.execute_task` ends with.
pub data TaskOutcome : Type 0 where
  -- a result, with the child's severity and the signs of its error
  returned : Option Severity → Signs → TaskOutcome
  task_cancelled waiter_cancelled unexpected : TaskOutcome
  -- a RuntimeError or a TimeoutError: whether it is the latter, whether its text is a timeout's, and its signs
  failed : Bool → Bool → Signs → TaskOutcome

-- What happens to the worker before it is given back.
pub data Reaction : Type 0 where
  keeps recovers : Reaction
  restarts : Option ℕ → Reaction

pub data Failure : Type 0 where
  containment cancelled interrupted not_admitted timed_out device_stopped retries_spent
        cleanup_failed :
      Failure

pub data Next : Type 0 where
  publishes : Severity → Next
  raises : Failure → Next
  retries : Next

-- How `_return_worker` in the `finally` block ends: an ordinary error, a containment error, or another.
pub data Cleanup : Type 0 where
  clean cancel_requested fails fails_contained fails_hard : Cleanup

pub data Asked : Type 0 where
  found nothing refuses : Asked

pub record Round : Type 0 where
  pub cancel_set : Bool
  pub asked : Asked
  pub outcome : TaskOutcome
  -- whether the process is alive after it
  pub alive : Bool
  -- the answer of `_begin_context_fault_validation`
  pub validation : Validation
  -- the recovery or the restart raises, since the old process may be alive
  pub unsafe : Bool
  pub cleanup : Cleanup

abbrev on_context : Validation → Reaction
on_context stale_report = recovers
on_context already_checking = recovers
on_context (checks g) = restarts (some g)

-- `if_none` is the reaction where there is no fault.
abbrev by_severity : Severity → Validation → Reaction → Reaction
by_severity no_fault v if_none = if_none
by_severity context_fault v if_none = on_context v
by_severity device_fault v if_none = recovers

abbrev pub is_none : Severity → Bool
is_none no_fault = true
is_none _ = false

abbrev pub result_severity : Option Severity → Signs → Severity
result_severity child signs = strongest_cuda_fault (child ∷ some (classify_cuda_fault signs) ∷ [])

abbrev exception_severity : Bool → Bool → Signs → Severity
exception_severity is_timeout alive signs =
    let severity = classify_cuda_fault signs in
    if is_timeout || (is_none severity && not alive) then device_fault else severity

unfoldable pub react : TaskOutcome → Bool → Validation → Reaction
react (returned child signs) alive v =
    by_severity (result_severity child signs) v (if alive then keeps else restarts none)
react task_cancelled alive v = recovers
react waiter_cancelled alive v = recovers
react unexpected alive v = recovers
react (failed is_timeout timeout_text signs) alive v =
    by_severity (exception_severity is_timeout alive signs) v (restarts none)

abbrev after_failure : Bool → Reaction → Next
after_failure true reaction = raises timed_out
after_failure false recovers = raises device_stopped
after_failure false _ = retries

abbrev pub verdict : TaskOutcome → Reaction → Next
verdict (returned child signs) reaction = publishes (result_severity child signs)
verdict task_cancelled reaction = raises cancelled
verdict waiter_cancelled reaction = raises interrupted
verdict unexpected reaction = raises device_stopped
verdict (failed is_timeout timeout_text signs) reaction = after_failure timeout_text reaction

abbrev pub touches : Reaction → Bool
touches keeps = false
touches _ = true

unfoldable pub conclude : Round → Reaction → Next
conclude r reaction =
    if touches reaction && r.unsafe then raises containment else verdict r.outcome reaction

-- Whether an error is on its way when the `finally` block runs, rather than raised after the loop.
abbrev is_primary : Next → Bool
is_primary (raises containment) = true
is_primary (raises cancelled) = true
is_primary (raises interrupted) = true
is_primary _ = false

abbrev pub is_containment : Next → Bool
is_containment (raises containment) = true
is_containment _ = false

-- The `finally` block.
unfoldable pub close_round : Cleanup → Next → Next
close_round clean n = n
close_round cancel_requested n = if is_containment n then n else raises interrupted
close_round fails n = n
close_round fails_contained n = raises containment
close_round fails_hard n = if is_primary n then n else raises cleanup_failed

abbrev pub is_retry : Next → Bool
is_retry retries = true
is_retry _ = false

-- The end of a round that ran the task, in front of what follows a retry.
abbrev pub proceed : Reaction → Next → List Reaction × Next → List Reaction × Next
proceed reaction n later = if is_retry n then (reaction ∷ later.0, later.1) else (reaction ∷ [], n)

abbrev pub ask : Round → Asked → List Reaction × Next → List Reaction × Next
ask r refuses later = ([], raises not_admitted)
ask r nothing later = later
ask r found later =
    let reaction = react r.outcome r.alive r.validation in
    proceed reaction (close_round r.cleanup (conclude r reaction)) later

-- One round: the reactions to the runs of the task, and the end.
unfoldable pub play : Round → List Reaction × Next → List Reaction × Next
play r later = if r.cancel_set then ([], raises cancelled) else ask r r.asked later

unfoldable pub run_rounds : ℕ → ℕ → (ℕ → Round) → List Reaction × Next
run_rounds zero k rounds = ([], raises retries_spent)
run_rounds (suc n) k rounds = let later = run_rounds n (suc k) rounds in play (rounds k) later

unfoldable pub execute_task : ℕ → (ℕ → Round) → List Reaction × Next
execute_task max_retries rounds = run_rounds (suc max_retries) 0 rounds
