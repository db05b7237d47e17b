-- ===== src/Scheduler/Steps.antt =====
-- The steps of `n` threads in `Scheduler::run`, of the fibers that they run and of callers from
-- outside, interleaved in any order. The code leaves it to its callers when they schedule a fiber:
-- `Step` lets them do it at any time, and `Orderly` is the rule that they have to keep.
use helens.Prelude.{
  ℕ, ◌+◌, ◌≡◌, ◌≤◌, ◌<◌, Bool, true, false, ◌⊎◌, Option, none, some, List, [], ◌∷◌, ◌==◌,
  if◌then◌else◌,
}
use helens.Prelude.Family.{put, sum_below}
use helens.Fiber.{Fiber, FiberState, create, yield_to_ready, yield_to_hold, main_func}
use helens.Scheduler.{
  Task, fiber, call, FiberAndThread, Phase, picking, picked, running, swapped, settling, idling,
  Thread, Scheduler, at_phase, schedule, pick, act, leave, settle, idle_turn,
}

abbrev pub is_id : ℕ → Option ℕ → ℕ
is_id f none = 0
is_id f (some g) = if f == g then 1 else 0

-- A cb_fiber that is kept for the next call-back.
abbrev pub keeps : ℕ → Option ℕ → Option ℕ → ℕ
keeps f (some _) kept = 0
keeps f none kept = is_id f kept

module _ {Cb : Type 0} where
  abbrev pub is_task : ℕ → Task Cb → ℕ
  is_task f (fiber g) = if f == g then 1 else 0
  is_task f (call _) = 0

  -- How often the fiber stands in the queue.
  abbrev pub queued : ℕ → List (FiberAndThread Cb) → ℕ
  queued f [] = 0
  queued f (e ∷ es) = is_task f e.task + queued f es

  abbrev pub phase_picks : ℕ → Phase Cb → ℕ
  phase_picks f (picked (some t)) = is_task f t
  phase_picks f _ = 0

  -- A thread holds a fiber from swapIn until it has dealt with its state.
  abbrev pub phase_holds : ℕ → Phase Cb → ℕ
  phase_holds f (running g _) = if f == g then 1 else 0
  phase_holds f (swapped g _) = if f == g then 1 else 0
  phase_holds f (settling g _) = if f == g then 1 else 0
  phase_holds f _ = 0

  abbrev pub phase_callback : Phase Cb → Option ℕ
  phase_callback (running g true) = some g
  phase_callback (swapped g true) = some g
  phase_callback (settling g true) = some g
  phase_callback _ = none

  -- counted in m_activeThreadCount
  abbrev pub phase_busy : Phase Cb → ℕ
  phase_busy (picked (some _)) = 1
  phase_busy (running _ _) = 1
  phase_busy (swapped _ _) = 1
  phase_busy _ = 0

  abbrev pub picks_of : ℕ → Thread Cb → ℕ
  picks_of f t = phase_picks f t.phase

  abbrev pub holds_of : ℕ → Thread Cb → ℕ
  holds_of f t = phase_holds f t.phase

  abbrev pub keeps_of : ℕ → Thread Cb → ℕ
  keeps_of f t = keeps f (phase_callback t.phase) t.cb_fiber

  abbrev pub busy_of : Thread Cb → ℕ
  busy_of t = phase_busy t.phase

  abbrev pub claims : ℕ → ℕ → Scheduler Cb → ℕ
  claims n f s = queued f s.fibers + sum_below (picks_of f) n s.threads

  abbrev pub owners : ℕ → ℕ → Scheduler Cb → ℕ
  owners n f s = sum_below (holds_of f) n s.threads + sum_below (keeps_of f) n s.threads

  -- In no queue, and picked by no thread.
  abbrev pub Unclaimed : ℕ → ℕ → Scheduler Cb → Type 0
  Unclaimed n f s = claims n f s ≡ 0

  abbrev pub change_fiber : ℕ → ℕ → Bool → Fiber Cb → Scheduler Cb → Scheduler Cb
  change_fiber i f as_cb g s = at_phase i (swapped f as_cb) (record s { heap = put s.heap f g })

  pub data Step (n : ℕ) (s : Scheduler Cb) : Scheduler Cb → Type 0 where
    did_pick : (i : ℕ) → i < n → (s.threads i).phase ≡ picking → Step n s (pick i s)
    did_act :
        (i : ℕ) (o : Option (Task Cb)) {s' : Scheduler Cb}
        → i < n
        → (s.threads i).phase ≡ picked o
        → act i o s ≡ some s'
        → Step n s s'
    did_yield_ready :
        (i f : ℕ) (as_cb : Bool) {g : Fiber Cb}
        → i < n
        → (s.threads i).phase ≡ running f as_cb
        → yield_to_ready (s.heap f) ≡ some g
        → Step n s (change_fiber i f as_cb g s)
    did_yield_hold :
        (i f : ℕ) (as_cb : Bool) {g : Fiber Cb}
        → i < n
        → (s.threads i).phase ≡ running f as_cb
        → yield_to_hold (s.heap f) ≡ some g
        → Step n s (change_fiber i f as_cb g s)
    did_end :
        (i f : ℕ) (as_cb threw : Bool)
        → i < n
        → (s.threads i).phase ≡ running f as_cb
        → Step n s (change_fiber i f as_cb (main_func threw (s.heap f)) s)
    did_leave :
        (i f : ℕ) (as_cb : Bool)
        → i < n
        → (s.threads i).phase ≡ swapped f as_cb
        → Step n s (leave i f as_cb s)
    did_settle :
        (i f : ℕ) (as_cb : Bool) {s' : Scheduler Cb}
        → i < n
        → (s.threads i).phase ≡ settling f as_cb
        → settle i f as_cb (s.heap f).state s ≡ some s'
        → Step n s s'
    did_idle : (i : ℕ) → i < n → (s.threads i).phase ≡ idling → Step n s (idle_turn i s)
    schedule_fiber :
        (f : ℕ) (thread : Option ℕ) → 0 < f → f ≤ s.last_id → Step n s (schedule (fiber f) thread s)
    schedule_call : (cb : Cb) (thread : Option ℕ) → Step n s (schedule (call cb) thread s)
    new_fiber :
        (cb : Cb)
        → Step n s
            (record s { last_id = s.last_id + 1; heap = put s.heap (s.last_id + 1) (create cb) })
    stop : Step n s (record s { auto_stop = true; stopping = true })

  abbrev pub new_thread : Thread Cb
  new_thread = record { phase = picking; cb_fiber = none; idle_state = FiberState.init }

  -- The threads have just begun run; the heap has fibers at the ids from 1 to `last_id`.
  abbrev pub init : (ℕ → Fiber Cb) → Scheduler Cb
  init heap = record {
    heap = heap;
    last_id = 0;
    fibers = [];
    active = 0;
    idle = 0;
    auto_stop = false;
    stopping = false;
    tickles = 0;
    threads = λ _. new_thread;
  }

  pub data Reach (n : ℕ) (heap : ℕ → Fiber Cb) : Scheduler Cb → Type 0 where
    start : Reach n heap (init heap)
    later : {s s' : Scheduler Cb} → Reach n heap s → Step n s s' → Reach n heap s'

  -- The rule for a step: a fiber is scheduled only while it stands in no queue and no thread has
  -- picked it, and while no thread holds or keeps it or it runs; and a fiber that is scheduled while
  -- it runs neither yields as READY nor ends before a thread has taken it up again.
  abbrev pub Orderly : {n : ℕ} {s s' : Scheduler Cb} → Step n s s' → Type 0
  Orderly {n} {s} (did_yield_ready i f as_cb lt ph e) = Unclaimed n f s
  Orderly {n} {s} (did_end i f as_cb threw lt ph) = Unclaimed n f s
  Orderly {n} {s} (schedule_fiber f thread pos le) =
      Unclaimed n f s × ((owners n f s ≡ 0) ⊎ ((s.heap f).state ≡ FiberState.exec))
  Orderly (did_pick i lt ph) = Unit
  Orderly (did_act i o lt ph e) = Unit
  Orderly (did_yield_hold i f as_cb lt ph e) = Unit
  Orderly (did_leave i f as_cb lt ph) = Unit
  Orderly (did_settle i f as_cb lt ph e) = Unit
  Orderly (did_idle i lt ph) = Unit
  Orderly (schedule_call cb thread) = Unit
  Orderly (new_fiber cb) = Unit
  Orderly stop = Unit

  -- Every step up to a state has kept the rule.
  abbrev pub AllOrderly : {n : ℕ} {heap : ℕ → Fiber Cb} {s : Scheduler Cb} → Reach n heap s → Type 0
  AllOrderly start = Unit
  AllOrderly (later r st) = AllOrderly r × Orderly st
