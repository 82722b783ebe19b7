-- ===== src/Pool/Replay.antt =====
-- What `execute_task` promises about the task's payload (kernelgym/worker/subprocess_pool.py).
use kernel_gym.Prelude.{
  ℕ, zero, suc, ◌+◌, ◌≤◌, ◌<◌, Bool, true, false, not, ◌&&◌, ◌||◌, List, [], ◌≡◌, ◌∙◌, ap, subst,
  arith, refl, length,
}
use kernel_gym.Pool.Faults.{Severity, device_fault, Validation, classify_cuda_fault}
use kernel_gym.Pool.Execute.{
  Reaction, Next, raises, timed_out, Round, Cleanup, TaskOutcome, returned, task_cancelled,
  waiter_cancelled, unexpected, failed, is_none, react, verdict, conclude, close_round, is_retry,
  Asked, found, nothing, refuses, play, run_rounds, execute_task,
}

abbrev is_device : Severity → Bool
is_device device_fault = true
is_device _ = false

-- What rules out another run of the payload: it returned, was cancelled or stopped by an unexpected exception, ended by a
-- TimeoutError or a timeout's text, left a dead process without a fault of its own, or its error is a device fault.
abbrev pub ends_for_good : TaskOutcome → Bool → Bool
ends_for_good (returned child signs) alive = true
ends_for_good task_cancelled alive = true
ends_for_good waiter_cancelled alive = true
ends_for_good unexpected alive = true
ends_for_good (failed is_timeout timeout_text signs) alive =
    (is_timeout || timeout_text)
    || (is_device (classify_cuda_fault signs) || (is_none (classify_cuda_fault signs) && not alive))

abbrev stops_asked : Asked → Bool → Bool
stops_asked refuses ended = true
stops_asked nothing ended = false
stops_asked found ended = ended

-- A round after which the task is over: it was cancelled before, the pool refuses it, or its run rules out another one.
abbrev pub stops : Round → Bool
stops r = r.cancel_set || stops_asked r.asked (ends_for_good r.outcome r.alive)

ended-verdict :
    (o : TaskOutcome) (alive : Bool) (v : Validation)
    → ends_for_good o alive ≡ true
    → is_retry (verdict o (react o alive v)) ≡ false
unfolding react
ended-verdict (returned child signs) alive v h = refl
ended-verdict task_cancelled alive v h = refl
ended-verdict waiter_cancelled alive v h = refl
ended-verdict unexpected alive v h = refl
ended-verdict (failed t x signs) alive v h = ground arith

close_round-stops :
    (c : Cleanup) (n : Next) → is_retry n ≡ false → is_retry (close_round c n) ≡ false
unfolding close_round
close_round-stops c n h = ground arith

conclude-stops :
    (r : Round)
    → ends_for_good r.outcome r.alive ≡ true
    → is_retry (close_round r.cleanup (conclude r (react r.outcome r.alive r.validation))) ≡ false
unfolding conclude
conclude-stops r h =
    close_round-stops r.cleanup _ (ground (arith, ended-verdict r.outcome r.alive r.validation h))

-- A round that stops does not look at what would follow.
play-stops :
    (r : Round) (later later' : List Reaction × Next)
    → stops r ≡ true
    → (play r later ≡ play r later') × (length (play r later).0 ≤ 1)
unfolding play
play-stops r later later' h = ground (arith, conclude-stops r)

length-play :
    (n : ℕ) (r : Round) (later : List Reaction × Next)
    → length later.0 ≤ n
    → length (play r later).0 ≤ suc n
unfolding play
length-play n r later h = ground arith

length-run_rounds : (n k : ℕ) (rounds : ℕ → Round) → length (run_rounds n k rounds).0 ≤ n
unfolding run_rounds
length-run_rounds zero k rounds = ground arith
length-run_rounds (suc n) k rounds = length-play n (rounds k) _ (length-run_rounds n (suc k) rounds)

never_retries-play :
    (r : Round) (later : List Reaction × Next)
    → is_retry later.1 ≡ false
    → is_retry (play r later).1 ≡ false
unfolding play
never_retries-play r later h = ground arith

never_retries : (n k : ℕ) (rounds : ℕ → Round) → is_retry (run_rounds n k rounds).1 ≡ false
unfolding run_rounds
never_retries zero k rounds = refl
never_retries (suc n) k rounds = never_retries-play (rounds k) _ (never_retries n (suc k) rounds)

same_at :
    (rounds rounds' : ℕ → Round) {i j : ℕ} → i ≡ j → rounds' i ≡ rounds i → rounds' j ≡ rounds j
same_at rounds rounds' h e = subst (λ x. rounds' x ≡ rounds x) h e

run_rounds-stops :
    (n k j : ℕ) (rounds rounds' : ℕ → Round)
    → j < n
    → stops (rounds (k + j)) ≡ true
    → ((i : ℕ) → i ≤ j → rounds' (k + i) ≡ rounds (k + i))
    → (run_rounds n k rounds' ≡ run_rounds n k rounds) × (length (run_rounds n k rounds).0 ≤ suc j)
unfolding run_rounds
run_rounds-stops zero k j rounds rounds' l h e = ground arith
run_rounds-stops (suc n) k zero rounds rounds' l h e =
    let p =
      play-stops (rounds k) (run_rounds n (suc k) rounds') (run_rounds n (suc k) rounds)
        (ground (arith, h)) in
    (
      ap (λ r. play r (run_rounds n (suc k) rounds'))
            (same_at rounds rounds' (ground arith) (e 0 (ground arith)))
          ∙ p.0,
      ground (arith, play-stops (rounds k) (run_rounds n (suc k) rounds) ([], raises timed_out)),
    )
run_rounds-stops (suc n) k (suc j) rounds rounds' l h e =
    let i =
      run_rounds-stops n (suc k) j rounds rounds' (ground arith) (ground (arith, h))
        λ i b. same_at rounds rounds' (ground arith) (e (suc i) (ground arith)) in
    (
      ap (λ r. play r (run_rounds n (suc k) rounds'))
            (same_at rounds rounds' (ground arith) (e 0 (ground arith)))
          ∙ ap (play (rounds k)) i.0,
      length-play (suc j) (rounds k) (run_rounds n (suc k) rounds) i.1,
    )

-- A task's payload is run `max_retries + 1` times at most, and never again after a round that stops: once the task was
-- cancelled, the pool refuses it, or a run returned, was cancelled, timed out, left a dead process without a fault,
-- was classified as a device fault or ended by an unexpected exception, no later round has any effect, and the
-- payload was run once per round until then at most. The rounds end with a result or an error.
pub payload_stops :
    (max_retries j : ℕ) (rounds rounds' : ℕ → Round)
    → j ≤ max_retries
    → stops (rounds j) ≡ true
    → ((i : ℕ) → i ≤ j → rounds' i ≡ rounds i)
    → (execute_task max_retries rounds' ≡ execute_task max_retries rounds)
      × ((length (execute_task max_retries rounds).0 ≤ suc j)
          × ((length (execute_task max_retries rounds).0 ≤ suc max_retries)
              × (is_retry (execute_task max_retries rounds).1 ≡ false)))
unfolding execute_task
payload_stops max_retries j rounds rounds' l h e =
    let s =
      run_rounds-stops (suc max_retries) 0 j rounds rounds' (ground arith)
        (subst (λ i. stops (rounds i) ≡ true) (ground arith) h)
        λ i b. same_at rounds rounds' (ground arith) (e i b) in
    (
      s.0,
      (
        s.1,
        (length-run_rounds (suc max_retries) 0 rounds, never_retries (suc max_retries) 0 rounds),
      ),
    )
