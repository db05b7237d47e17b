-- ===== src/Scheduler/Tests.antt =====
-- Runs of the scheduler at concrete inputs. The call-backs are numbers.
use helens.Prelude.{
  ℕ, ◌+◌, ◌≡◌, ◌≤◌, ◌<◌, refl, Bool, true, false, Option, none, some, [], ◌∷◌, arith, ◌==◌,
}
use helens.Prelude.Family.{sum_below}
use helens.Prelude.Maybe.{Succeeds}
use helens.Fiber.{Fiber, FiberState, create, swap_in, yield_to_ready, yield_to_hold}
use helens.Scheduler.{
  Task, fiber, call, FiberAndThread, picked, running, settling, Scheduler, scan, schedule, pick,
  act, settle, stopped, idle_turn, enter_callback, enter_idle,
}
use helens.Scheduler.Steps.{
  did_pick, did_act, did_yield_ready, schedule_call, stop, Reach, start, later, init, busy_of,
  claims, holds_of, AllOrderly,
}
use helens.Scheduler.Scan.{FirstFit, scan_lem}
use helens.Scheduler.Safety.{running_once, no_assertion_fails, idle_ends, ready_kept}

abbrev no_fibers : ℕ → Fiber ℕ
no_fibers f = record { state = FiberState.init; cb = none }

abbrev in_exec_3 : ℕ → Fiber ℕ
in_exec_3 f = record {
  state = elim (f == 3) [ true ↦ FiberState.exec | false ↦ FiberState.hold ];
  cb = none;
}

abbrev entry : Task ℕ → Option ℕ → FiberAndThread ℕ
entry t thread = record { task = t; thread = thread }

-- An entry for thread 1 and a running fiber are passed over by thread 0.
scan_three :
    scan 0 in_exec_3 (entry (call 7) (some 1) ∷ entry (fiber 3) none ∷ entry (fiber 4) none ∷ [])
    ≡ (some (fiber 4), entry (call 7) (some 1) ∷ entry (fiber 3) none ∷ [], true)
unfolding scan
scan_three = refl

scan_lem_example :
    FirstFit 0 in_exec_3
      (entry (fiber 3) none ∷ entry (call 9) none ∷ [])
      (scan 0 in_exec_3 (entry (fiber 3) none ∷ entry (call 9) none ∷ []))
scan_lem_example = scan_lem 0 in_exec_3 (entry (fiber 3) none ∷ entry (call 9) none ∷ [])

-- Two threads; thread 0 picks a call-back, runs it, and the call-back yields as READY.
abbrev queued_state : Scheduler ℕ
queued_state = schedule (call 7) none (init no_fibers)

abbrev picked_state : Scheduler ℕ
picked_state = pick 0 queued_state

picked_Reach : Reach 2 no_fibers picked_state
unfolding schedule
picked_Reach = later (later start (schedule_call 7 none)) (did_pick 0 (omega arith) refl)

picked_AllOrderly : AllOrderly picked_Reach
unfolding picked_Reach
picked_AllOrderly = ((tt, tt), tt)

running_state :
    (s : Scheduler ℕ) × (r : Reach 2 no_fibers s) × AllOrderly r
    × ((s.threads 0).phase ≡ running 1 true)
    × (s.last_id ≡ 1)
    × ((s.heap 1).state ≡ FiberState.exec)
    × (s.fibers ≡ [])
unfolding act pick schedule scan enter_callback swap_in create
running_state = (
  _,
  later picked_Reach (did_act 0 (some (call 7)) (omega arith) refl refl),
  (picked_AllOrderly, tt),
  refl,
  refl,
  refl,
  refl,
)

running_once_example : ◌≡◌ {A = ℕ} 0 0
running_once_example =
    running_once running_state.1 running_state.2 0 0 1 true true (omega arith) (omega arith)
      running_state.3 running_state.3

no_assertion_fails_example :
    ((o : Option (Task ℕ))
      → (picked_state.threads 0).phase ≡ picked o
      → Succeeds (act 0 o picked_state))
    × ((f : ℕ) (b : Bool)
        → (picked_state.threads 0).phase ≡ running f b
        → Succeeds (yield_to_ready (picked_state.heap f))
          × Succeeds (yield_to_hold (picked_state.heap f)))
    × ((f : ℕ) (b : Bool)
        → (picked_state.threads 0).phase ≡ settling f b
        → Succeeds (settle 0 f b (picked_state.heap f).state picked_state))
no_assertion_fails_example = no_assertion_fails picked_Reach picked_AllOrderly 0 (omega arith)

-- The call-back yields as READY.
yielded_state :
    (s : Scheduler ℕ) × (r : Reach 2 no_fibers s) × AllOrderly r
    × ((s.heap 1).state ≡ FiberState.ready)
    × (s.last_id ≡ 1)
unfolding act pick schedule scan enter_callback swap_in create yield_to_ready running_state
yielded_state = (
  _,
  later running_state.1 (did_yield_ready 0 1 true (omega arith) refl refl),
  (running_state.2, refl),
  refl,
  refl,
)

ready_kept_example :
    1 ≤ claims 2 1 yielded_state.0 + sum_below (holds_of 1) 2 yielded_state.0.threads
ready_kept_example =
    ready_kept yielded_state.1 yielded_state.2 1 (omega arith) (rw (yielded_state.4) (omega arith))
      yielded_state.3

-- stop is called before there is work: the idle fiber ends.
idle_state :
    (s : Scheduler ℕ) × (r : Reach 2 no_fibers s) × AllOrderly r
    × (((idle_turn 0 s).threads 0).idle_state ≡ FiberState.term)
unfolding act pick schedule scan enter_idle idle_turn stopped
idle_state = (
  _,
  later (later (later start stop) (did_pick 0 (omega arith) refl))
      (did_act 0 none (omega arith) refl refl),
  (((tt, tt), tt), tt),
  refl,
)

idle_ends_example :
    (idle_state.0.auto_stop ≡ true)
    × (idle_state.0.stopping ≡ true)
    × (idle_state.0.fibers ≡ [])
    × ((j : ℕ) → j < 2 → busy_of (idle_state.0.threads j) ≡ 0)
idle_ends_example = idle_ends idle_state.1 idle_state.2 0 (omega arith) idle_state.3

-- Two entries for one fiber: both threads pick it, and the second one finds it running.
abbrev twice : Scheduler ℕ
twice = record (init in_exec_3) {
  last_id = 4;
  fibers = entry (fiber 4) none ∷ entry (fiber 4) none ∷ [];
}

abbrev after_act : Option (Scheduler ℕ) → Option (Scheduler ℕ)
after_act none = none
after_act (some s) = act 1 (some (fiber 4)) s

scheduled_twice_faults : after_act (act 0 (some (fiber 4)) (pick 1 (pick 0 twice))) ≡ none
unfolding act pick scan swap_in
scheduled_twice_faults = refl
