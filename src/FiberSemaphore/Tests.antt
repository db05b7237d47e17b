-- ===== src/FiberSemaphore/Tests.antt =====
-- A semaphore at concrete inputs. Waiters are numbers.
use helens.Prelude.{ℕ, ◌≡◌, refl, false, List, [], ◌∷◌}
use helens.FiberSemaphore.{new_semaphore, try_wait, wait, notify}
use helens.FiberSemaphore.Order.{Call, wait_by, notify_by, run, run_lem}

abbrev calls : List (Call ℕ)
calls = wait_by 5 ∷ wait_by 6 ∷ wait_by 7 ∷ notify_by ∷ []

-- Two go on and one is queued, after a notify; 7 is left.
run-calls :
    run calls ([], new_semaphore 1) ≡ (5 ∷ 6 ∷ [], record { concurrency = 0; waiters = 7 ∷ [] })
unfolding run new_semaphore wait notify
run-calls = refl

try_wait_empty : (try_wait {W = ℕ} (new_semaphore 0)).0 ≡ false
unfolding try_wait new_semaphore
try_wait_empty = refl

run_lem_example :
    run calls ([], new_semaphore 1) ≡ (5 ∷ 6 ∷ [], record { concurrency = 0; waiters = 7 ∷ [] })
run_lem_example = run_lem 1 calls
