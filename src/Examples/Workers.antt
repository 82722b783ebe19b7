-- ===== src/Examples/Workers.antt =====
-- Runs of a pool of two workers on one GPU.
use kernel_gym.Prelude.{
  ℕ, Bool, true, false, none, some, List, [], ◌∷◌, ◌≡◌, ◌↔◌, ◌≤◌, refl, length, contains, ◌==◌,
  nat_Eq, Option, update, ◌+◌, arith,
}
use kernel_gym.Pool.State.{
  Pool, Thread, is_quarantined, accepting_tasks, ensure_capacity, top_up_times, all_stopped,
  distinct_workers, tracked_workers, older_active,
}
use kernel_gym.Pool.Faults.{begin_context_fault_validation, Severity}
use kernel_gym.Pool.Recovery.{
  contain_hard_recovery_failure, begin_shutdown, end_shutdown, recover_from_device_fault,
  old_workers_reaped, finish_validation, opens,
}
use kernel_gym.Pool.Replacement.{
  register_worker, late_reaped, is_stale, restart_worker, should_replenish,
}
use kernel_gym.Pool.Checkout.{get_idle_worker, dispatch, select}
use kernel_gym.Pool.Moves.{
  System, Move, Run, no_moves, quiet, hands, contained, asked, shutdown_begun, context_fault,
  restarted, has_thread, thread_ready, late_stopped, old_reaped, older_drained, probed, enter,
  next_phase, probing, over,
}
use kernel_gym.Pool.Capacity.{ensure_capacity-fills}
use kernel_gym.Pool.Handing.{hands-idle, one_spare_dispatch}
use kernel_gym.Pool.Containment.{quarantine_stays, closing_stays}
use kernel_gym.Pool.Retained.{proven, Unproven}
use kernel_gym.Pool.Late.{late_worker_is_turned_away, fault_reported_twice, shutdown_proves}
use kernel_gym.Pool.Runs.{start, new_pool, first_workers}

abbrev all_alive : ℕ → Bool
all_alive w = true

abbrev with_pool : System → Pool → System
with_pool s p = record s { pool = p }

abbrev new_system : System
new_system = start 2

abbrev contained_system : System
contained_system =
    with_pool new_system (contain_hard_recovery_failure new_system.pool "lost" "t1" []).0

abbrev asked_in_vain : System
asked_in_vain = with_pool contained_system (get_idle_worker contained_system.pool all_alive).0

contained-Run : Run new_system [] contained_system
contained-Run = quiet _ _ _ [] (contained new_system "lost" "t1" []) (no_moves contained_system)

vain-Run : Run contained_system [] asked_in_vain
unfolding contain_hard_recovery_failure get_idle_worker
vain-Run =
    quiet contained_system asked_in_vain asked_in_vain [] (asked contained_system all_alive)
      (no_moves asked_in_vain)

quarantine_stays_example :
    (is_quarantined asked_in_vain.pool.health_state ≡ true)
    × ((accepting_tasks asked_in_vain.pool ≡ false) × (◌≡◌ {A = List ℕ} [] []))
unfolding contain_hard_recovery_failure
quarantine_stays_example =
    quarantine_stays 2 [] [] contained_system asked_in_vain contained-Run refl vain-Run

abbrev closing_system : System
closing_system = with_pool new_system (begin_shutdown new_system.pool).0

closing-Run : Run new_system [] closing_system
closing-Run = quiet _ _ _ [] (shutdown_begun new_system) (no_moves closing_system)

closing_stays_example :
    (closing_system.pool.closing ≡ true)
    × ((accepting_tasks closing_system.pool ≡ false) × (◌≡◌ {A = List ℕ} [] []))
unfolding begin_shutdown
closing_stays_example =
    closing_stays 2 [] [] closing_system closing_system closing-Run refl (no_moves closing_system)

abbrev handed_system : System
handed_system = with_pool new_system (get_idle_worker new_system.pool all_alive).0

first_hand_over : Move new_system (some 0) handed_system
unfolding get_idle_worker dispatch first_workers select ensure_capacity top_up_times contains
    distinct_workers tracked_workers
first_hand_over = asked new_system all_alive

hands-idle_example :
    (accepting_tasks new_system.pool ≡ true)
    × ((contains 0 new_system.pool.idle_workers ≡ true)
        × (contains 0 new_system.pool.busy_workers ≡ false))
hands-idle_example =
    hands-idle 2 [] new_system handed_system 0 (no_moves new_system) first_hand_over

abbrev degraded_system : System
degraded_system =
    with_pool new_system (begin_context_fault_validation new_system.pool 0 "t1" "CUDA error").0

degraded-Run : Run new_system [] degraded_system
degraded-Run =
    quiet _ _ _ [] (context_fault new_system 0 "t1" "CUDA error") (no_moves degraded_system)

abbrev spent_system : System
spent_system = with_pool degraded_system (get_idle_worker degraded_system.pool all_alive).0

spare-Run : Run degraded_system (0 ∷ []) spent_system
unfolding begin_context_fault_validation get_idle_worker dispatch first_workers select
    ensure_capacity top_up_times contains distinct_workers tracked_workers
spare-Run =
    hands degraded_system spent_system spent_system 0 [] (asked degraded_system all_alive)
      (no_moves spent_system)

one_spare_dispatch_example : 1 ≤ 1
unfolding begin_context_fault_validation get_idle_worker dispatch first_workers select
    ensure_capacity top_up_times contains distinct_workers tracked_workers
one_spare_dispatch_example =
    one_spare_dispatch 2 [] (0 ∷ []) degraded_system spent_system degraded-Run refl spare-Run refl

-- A plain constructor is on its way when a context fault is reported; a validating one then reopens the pool.
abbrev late_thread : Thread
late_thread = record { generation = 0; validates = false }

abbrev fresh_thread : Thread
fresh_thread = record { generation = 1; validates = true }

abbrev replaced_system : System
replaced_system = with_pool new_system (restart_worker new_system.pool 0 none)

abbrev checking_system : System
checking_system =
    with_pool replaced_system
      (begin_context_fault_validation replaced_system.pool 0 "t1" "CUDA error").0

abbrev validating_system : System
validating_system = with_pool checking_system (restart_worker checking_system.pool 1 (some 1))

abbrev reopened_system : System
reopened_system =
    with_pool validating_system (register_worker validating_system.pool fresh_thread false)

replaced-Run : Run new_system [] replaced_system
replaced-Run = quiet _ _ _ [] (restarted new_system 0 none) (no_moves replaced_system)

reopened-Run : Run replaced_system [] reopened_system
unfolding begin_context_fault_validation restart_worker should_replenish has_thread
reopened-Run = quiet _ _ _ [] (context_fault replaced_system 0 "t1" "CUDA error") (
    quiet _ _ _ [] (restarted checking_system 1 (some 1)) (
      quiet _ _ _ [] (thread_ready validating_system fresh_thread false refl)
        (no_moves reopened_system)))

abbrev late_system : System
late_system = with_pool reopened_system (register_worker reopened_system.pool late_thread false)

-- Its shutdown does not prove its exit.
abbrev unproven_system : System
unproven_system = with_pool late_system (late_reaped late_system.pool 3 false)

abbrev unproven_run : Run late_system [] unproven_system
unproven_run = quiet _ _ _ [] (late_stopped late_system 3 false) (no_moves unproven_system)

unproven : Unproven reopened_system.pool.next_worker unproven_run
unfolding begin_context_fault_validation restart_worker should_replenish register_worker is_stale
    ensure_capacity top_up_times has_thread first_workers kernel_gym.Prelude.lrem_one
unproven = (refl, tt)

late_worker_is_turned_away_example :
    ((register_worker reopened_system.pool late_thread false).workers
      ≡ reopened_system.pool.workers)
    × (((register_worker reopened_system.pool late_thread false).idle_workers
          ≡ reopened_system.pool.idle_workers)
        × (contains reopened_system.pool.next_worker unproven_system.pool.retained ≡ true))
unfolding begin_context_fault_validation restart_worker should_replenish register_worker is_stale
    ensure_capacity top_up_times has_thread first_workers kernel_gym.Prelude.lrem_one
late_worker_is_turned_away_example =
    late_worker_is_turned_away 2 [] [] [] replaced_system reopened_system unproven_system
      late_thread false replaced-Run refl reopened-Run (omega arith) unproven_run unproven

-- Every worker is confirmed stopped.
abbrev exits : List (ℕ × Bool)
exits = (0, true) ∷ (1, true) ∷ []

shutdown_proves_example :
    ((end_shutdown closing_system.pool true exits).1 ≡ true
      → (◌≡◌ {A = Bool} true true)
        × ((proven 1 exits ≡ true)
            × ((contains 1 (end_shutdown closing_system.pool true exits).0.retained ≡ false)
                × (((end_shutdown closing_system.pool true exits).0.unsafe_reason == "") ≡ true))))
    × ((end_shutdown closing_system.pool true exits).1 ≡ false
        → ((end_shutdown closing_system.pool true exits).0.unsafe_reason == "") ≡ false)
unfolding begin_shutdown first_workers tracked_workers distinct_workers contains
shutdown_proves_example = shutdown_proves (new_pool 2) closing_system.pool true exits 1 refl refl

-- A device fault is recovered from: the old workers are gone, and a fresh one reopens the pool.
abbrev faulted_system : System
faulted_system = record {
  pool = (recover_from_device_fault new_system.pool 0 0 "t1" "Xid").0;
  phase = enter new_system.phase (recover_from_device_fault new_system.pool 0 0 "t1" "Xid").1;
}

abbrev cleared_system : System
cleared_system = record {
  pool = old_workers_reaped faulted_system.pool 1 "t1" exits;
  phase = update faulted_system.phase 1 (next_phase (all_stopped exits));
}

abbrev drained_system : System
drained_system = record cleared_system { phase = update cleared_system.phase 1 probing }

abbrev recovered_system : System
recovered_system = record {
  pool = finish_validation drained_system.pool 1 "t1" "" "" true;
  phase = update drained_system.phase 1 over;
}

opens_gate : (recover_from_device_fault new_system.pool 0 0 "t1" "Xid").1 ≡ opens 1 (0 ∷ 1 ∷ [])
unfolding recover_from_device_fault first_workers tracked_workers distinct_workers contains
opens_gate = refl

recovered-Run : Run faulted_system [] recovered_system
unfolding recover_from_device_fault old_workers_reaped all_stopped older_active
recovered-Run = quiet _ _ _ [] (old_reaped faulted_system 1 "t1" exits refl) (
    quiet _ _ _ [] (older_drained cleared_system 1 refl refl)
      (quiet _ _ _ [] (probed drained_system 1 "t1" "" "" true refl) (no_moves recovered_system)))

fault_reported_twice_example :
    ((recover_from_device_fault recovered_system.pool 1 0 "t2" "timeout").0 ≡ recovered_system.pool)
    × ((begin_context_fault_validation recovered_system.pool 0 "t2" "timeout").0
        ≡ recovered_system.pool)
fault_reported_twice_example =
    fault_reported_twice 2 [] [] (0 ∷ 1 ∷ []) new_system recovered_system 0 1 0 1 "t1" "t2" "Xid"
      "timeout" (no_moves new_system) opens_gate recovered-Run

abbrev short_pool : Pool
short_pool = record (new_pool 2) { workers = 1 ∷ []; idle_workers = 1 ∷ [] }

ensure_capacity-fills_example :
    let q = ensure_capacity short_pool in
    let after = length q.workers + (q.pending_replacements + q.pending_retirements) in
    (2 ≤ after) × ((1 ≤ 2 → after ≡ 2) × ((length q.threads ≡ 1) × (q.pending_replacements ≡ 1)))
ensure_capacity-fills_example = ensure_capacity-fills short_pool refl refl

abbrev reports : List (Option Severity)
reports = some Severity.context_fault ∷ none ∷ some Severity.device_fault ∷ []
