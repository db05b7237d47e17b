-- ===== src/IoManager/Tests.antt =====
-- An IOManager at concrete inputs. The call-backs are numbers.
use helens.Prelude.{
  ℕ, ◌≡◌, ◌≤◌, refl, Bool, true, false, Option, none, some, List, [], ◌∷◌, arith, inl, set, get_or,
}
use helens.Prelude.Family.{put}
use helens.Fiber.{FiberState}
use helens.Scheduler.{fiber, call, Scheduler, stopped}
use helens.Scheduler.Steps.{init}
use helens.Timer.{never}
use helens.Epoll.{read, write, ctl}
use helens.FdContext.{FdContext, Caller, trigger_event}
use helens.IoManager.{
  IoManager, add_event, add_to, del_event, cancel_all, cancel_event, cancel_from, context_resize,
  grow, trigger,
}
use helens.IoManager.Views.{View, nobody, contexts_from, watched_at, all_waiters, Shows}
use helens.IoManager.Steps.{Does, remove_waiter}
use helens.IoManager.Laws.{cancel_event_lem}
use helens.IoManager.Adding.{add_event_lem, add_waiter, with_place}
use helens.IoManager.Race.{only, add_event_race}
use helens.IoManager.Poll.{Report, handle_event, wait_time, wait_time_lem, io_stopping}
use helens.IoManager.Handling.{Handles, happened, wake, handle_event_lem, handle_stale_faults}

-- On descriptor 1 a fiber waits to read and a call-back to write; on 2 a fiber waits to read.
abbrev one : View ℕ
one = record { reader = some (0, fiber 5); writer = some (0, call 7) }

abbrev two : View ℕ
two = record { reader = some (0, fiber 6); writer = none }

abbrev table : List (View ℕ)
table = nobody ∷ one ∷ two ∷ nobody ∷ []

-- The manager that shows a table.
abbrev manager : List (View ℕ) → IoManager ℕ
manager vs = record {
  contexts = contexts_from 0 vs;
  pending = all_waiters vs;
  kernel = watched_at vs;
  scheduled = [];
}

manager-Shows : (vs : List (View ℕ)) → Shows (manager vs) vs
manager-Shows vs = record { contexts = refl; pending = refl; kernel = λ fd. refl }

abbrev contexts_after : Option (Bool × IoManager ℕ) → List (FdContext ℕ)
contexts_after none = []
contexts_after (some (b, m)) = m.contexts

-- The reader of descriptor 1 wakes up, and epoll goes on to watch for the writer.
cancel_one :
    cancel_event true 1 read (manager table)
    ≡ some (
      true,
      record {
        contexts = contexts_from 0 (nobody ∷ record one { reader = none } ∷ two ∷ nobody ∷ []);
        pending = 2;
        kernel = put (watched_at table) 1 (some (record { readable = false; writable = true }));
        scheduled = (0, fiber 5) ∷ [];
      },
    )
unfolding cancel_event cancel_from ctl trigger trigger_event
cancel_one = refl

cancel_event_lem_example :
    Does
      (manager table)
      (cancel_event true 1 read (manager table))
      (remove_waiter true true 1 read table)
cancel_event_lem_example = cancel_event_lem (manager-Shows table) 1 read true

abbrev me : Caller
me = record { scheduler = 3; fiber = 9 }

-- Descriptor 9 is beyond the table, which grows to 13 places.
add_nine :
    contexts_after (add_event true me 9 write none (manager table))
    ≡ contexts_from 0
        (set (with_place 9 table) 9 (record { reader = none; writer = some (3, fiber 9) }))
unfolding add_event add_to grow context_resize ctl
add_nine = refl

add_event_lem_example :
    Does
      (manager table)
      (add_event true me 9 write none (manager table))
      (add_waiter true 9 write (3, fiber 9) (with_place 9 table) (get_or table 9 nobody))
add_event_lem_example =
    add_event_lem (manager-Shows table) 9 true write me none (λ _. omega arith) refl

-- A caller has found no context for 6; another one adds an event of 9 first.
add_event_race_example :
    (s' : IoManager ℕ) × (add_event true me 9 read none (manager table) ≡ some (true, s'))
    × (del_event true 9 read (grow 6 s') ≡ (false, grow 6 s'))
    × (cancel_event true 9 read (grow 6 s') ≡ some (false, grow 6 s'))
    × (cancel_all true 9 (grow 6 s') ≡ some (false, grow 6 s'))
    × (1 ≤ (grow 6 s').pending)
    × ((grow 6 s').kernel 9 ≡ some (only read))
add_event_race_example =
    add_event_race (manager-Shows table) 6 9 read me none true (omega arith) (omega arith)
      (omega arith)

-- A closed connection: both tasks of descriptor 1 wake up.
abbrev hung_up : Report
hung_up = record { in_ = false; out = false; err = true }

handle_event_lem_example :
    Handles
      (manager table)
      (handle_event true 1 hung_up (manager table))
      (wake true 1 (happened hung_up one) one table)
handle_event_lem_example =
    handle_event_lem (manager-Shows table) 1 {v = one} refl true hung_up (λ _. refl, λ _. refl)

-- Descriptor 2 is reported as readable and writable, and nobody waits to write.
abbrev stale : Report
stale = record { in_ = true; out = true; err = false }

handle_stale_faults_example : handle_event true 2 stale (manager table) ≡ none
handle_stale_faults_example =
    handle_stale_faults (manager-Shows table) 2 {v = two} refl stale refl refl (inl (refl, refl))

wait_time_lem_example : wait_time 5000 ≡ some 3000
wait_time_lem_example = wait_time_lem 5000 (inl (omega arith))

-- A timer in 30 days.
wait_thirty_days : wait_time 2592000000 ≡ none
unfolding wait_time
wait_thirty_days = refl

abbrev stopped_scheduler : Scheduler ℕ
stopped_scheduler = record (init (λ f. record { state = FiberState.init; cb = none })) {
  auto_stop = true;
  stopping = true;
}

stopping_true : io_stopping never (manager (nobody ∷ [])) stopped_scheduler ≡ true
unfolding io_stopping stopped
stopping_true = refl
