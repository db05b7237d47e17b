-- ===== src/FiberSemaphore.antt =====
-- Helens/mutex.cc: `FiberSemaphore`. A fiber that finds no permit queues up and yields; `notify` gives
-- the permit to the first of the queue through its scheduler, or puts it back.
pub mod Order
mod Tests
use helens.Prelude.{
  ℕ, ◌+◌, ◌-◌, Bool, true, false, Option, none, some, List, [], ◌∷◌, ◌++◌, ltb, if◌then◌else◌,
}

-- `W` is what stands for a scheduler and a fiber.
pub record FiberSemaphore (W : Type 0) : Type 0 where
  pub concurrency : ℕ
  pub waiters : List W

module _ {W : Type 0} where
  unfoldable pub new_semaphore : ℕ → FiberSemaphore W
  new_semaphore initial_concurrency = record { concurrency = initial_concurrency; waiters = [] }

  unfoldable pub try_wait : FiberSemaphore W → Bool × FiberSemaphore W
  try_wait s =
      if ltb 0 s.concurrency
      then (true, record s { concurrency = s.concurrency - 1 })
      else (false, s)

  -- The first result says whether the caller goes on at once.
  unfoldable pub wait : W → FiberSemaphore W → Bool × FiberSemaphore W
  wait me s =
      if ltb 0 s.concurrency
      then (true, record s { concurrency = s.concurrency - 1 })
      else (false, record s { waiters = s.waiters ++ me ∷ [] })

  -- With the waiter that is scheduled.
  unfoldable pub notify : FiberSemaphore W → Option W × FiberSemaphore W
  notify s = elim (s.waiters) [
    | [] ↦ (none, record s { concurrency = s.concurrency + 1 })
    | next ∷ rest ↦ (some next, record s { waiters = rest })
  ]
