-- ===== src/Scheduler.antt =====
-- Helens/scheduler.cc and scheduler.h: the queue of fibers and call-backs and the loop of run, one
-- access to shared state at a time. The fibers stand in `heap` under their ids; `threads` says where
-- each thread is in run. A thread's index is its id.
pub mod Steps
pub mod Scan
mod Share
mod Invariant
mod Moves
mod Switches
mod Returns
mod Settle
mod Reached
pub mod Safety
mod Tests
use helens.Prelude.{
  ℕ, suc, ◌+◌, ◌-◌, ◌≡◌, Bool, true, false, not, ◌&&◌, ◌||◌, Option, none, some, List, [], ◌∷◌,
  ◌++◌, ◌==◌, if◌then◌else◌,
}
use helens.Prelude.Family.{put}
use helens.Prelude.Maybe.{◌>>=◌}
use helens.Fiber.{Fiber, FiberState, is_exec, is_over, create, reset, swap_in}

-- What an entry of the queue runs. `scheduleNoLock` drops an empty pointer or function, so that one
-- of the two is there.
pub data Task (Cb : Type 0) : Type 0 where
  fiber : ℕ → Task Cb
  call : Cb → Task Cb

-- `thread` is `none` for -1.
pub record FiberAndThread (Cb : Type 0) : Type 0 where
  pub task : Task Cb
  pub thread : Option ℕ

-- Where a thread is in the loop of run. `as_cb` tells cb_fiber from ft.fiber.
pub data Phase (Cb : Type 0) : Type 0 where
  picking : Phase Cb
  picked : Option (Task Cb) → Phase Cb
  running : (f : ℕ) → (as_cb : Bool) → Phase Cb  -- from swapIn to swapOut
  swapped : (f : ℕ) → (as_cb : Bool) → Phase Cb  -- before `--m_activeThreadCount`
  settling : (f : ℕ) → (as_cb : Bool) → Phase Cb  -- before the tests of the state
  idling : Phase Cb
  over : Phase Cb

pub record Thread (Cb : Type 0) : Type 0 where
  pub phase : Phase Cb
  pub cb_fiber : Option ℕ
  pub idle_state : FiberState

pub record Scheduler (Cb : Type 0) : Type 0 where
  pub heap : ℕ → Fiber Cb
  pub last_id : ℕ  -- s_fiber_id
  pub fibers : List (FiberAndThread Cb)
  pub active : ℕ
  pub idle : ℕ
  pub auto_stop : Bool
  pub stopping : Bool
  pub tickles : ℕ  -- calls of tickle, which is virtual
  pub threads : ℕ → Thread Cb

module _ {Cb : Type 0} where
  abbrev pub is_empty : List (FiberAndThread Cb) → Bool
  is_empty [] = true
  is_empty (_ ∷ _) = false

  -- `it->thread != -1 && it->thread != GetThreadId()`
  abbrev pub elsewhere : ℕ → FiberAndThread Cb → Bool
  elsewhere own e = elim e.thread [ none ↦ false | some t ↦ not (t == own) ]

  -- `it->fiber && it->fiber->getState() == Fiber::EXEC`
  abbrev pub in_exec : (ℕ → Fiber Cb) → FiberAndThread Cb → Bool
  in_exec heap e = elim e.task [ fiber f ↦ is_exec (heap f).state | call _ ↦ false ]

  -- The entry that the loop stops at, the entries that it leaves, and tickle_me.
  unfoldable pub scan :
      ℕ
      → (ℕ → Fiber Cb)
      → List (FiberAndThread Cb)
      → Option (Task Cb) × List (FiberAndThread Cb) × Bool
  scan own heap [] = (none, [], false)
  scan own heap (e ∷ es) =
      let rest = scan own heap es in
      if elsewhere own e
      then (rest.0, e ∷ rest.1, true)
      else if in_exec heap e
      then (rest.0, e ∷ rest.1, rest.2)
      else (some e.task, es, not (is_empty es))

  abbrev pub at_phase : ℕ → Phase Cb → Scheduler Cb → Scheduler Cb
  at_phase i p s = record s { threads = put s.threads i (record (s.threads i) { phase = p }) }

  abbrev pub tickle_if : Bool → Scheduler Cb → Scheduler Cb
  tickle_if b s = record s { tickles = if b then s.tickles + 1 else s.tickles }

  unfoldable pub schedule : Task Cb → Option ℕ → Scheduler Cb → Scheduler Cb
  schedule t thread s =
      tickle_if (is_empty s.fibers)
        (record s { fibers = s.fibers ++ record { task = t; thread = thread } ∷ [] })

  -- The loop of the schedule that takes a range: the entries, and need_tickle.
  unfoldable pub schedule_loop :
      List (Task Cb) → List (FiberAndThread Cb) → Bool → List (FiberAndThread Cb) × Bool
  schedule_loop [] es need = (es, need)
  schedule_loop (t ∷ ts) es need =
      schedule_loop ts (es ++ record { task = t; thread = none } ∷ []) (is_empty es || need)

  unfoldable pub schedule_all : List (Task Cb) → Scheduler Cb → Scheduler Cb
  schedule_all ts s =
      let r = schedule_loop ts s.fibers false in tickle_if r.1 (record s { fibers = r.0 })

  abbrev pub is_some : Option (Task Cb) → Bool
  is_some none = false
  is_some (some _) = true

  -- The part of run under the lock, and the tickle behind it.
  unfoldable pub pick : ℕ → Scheduler Cb → Scheduler Cb
  pick i s =
      let found = scan i s.heap s.fibers in
      tickle_if found.2 (
        at_phase i (picked found.0) (record s {
          fibers = found.1;
          active = if is_some found.0 then s.active + 1 else s.active;
        }))

  -- What run does with a call-back: the thread's cb_fiber is reset, or a new fiber made for it.
  unfoldable pub enter_callback : ℕ → Cb → Option ℕ → Scheduler Cb → Option (Scheduler Cb)
  enter_callback i cb (some f) s = do
    fresh ← reset (some cb) (s.heap f)
    entered ← swap_in fresh
    some (at_phase i (running f true) (record s { heap = put s.heap f entered }))
  enter_callback i cb none s = do
    let f = s.last_id + 1
    entered ← swap_in (create cb)
    some (record s {
      heap = put s.heap f entered;
      last_id = f;
      threads =
          put s.threads i (record (s.threads i) { phase = running f true; cb_fiber = some f });
    })

  -- Nothing was picked: run goes to the idle fiber, or ends.
  unfoldable pub enter_idle : ℕ → FiberState → Scheduler Cb → Option (Scheduler Cb)
  enter_idle i FiberState.term s = some (at_phase i over s)
  enter_idle i FiberState.exec s = none
  enter_idle i _ s = some (record s {
    idle = s.idle + 1;
    threads =
        put s.threads i (record (s.threads i) { phase = idling; idle_state = FiberState.exec });
  })

  -- From the choice of an entry to the switch into a fiber.
  unfoldable pub act : ℕ → Option (Task Cb) → Scheduler Cb → Option (Scheduler Cb)
  act i none s = enter_idle i (s.threads i).idle_state s
  act i (some (fiber f)) s = elim (is_over (s.heap f).state) [
    | true ↦ some (at_phase i picking (record s { active = s.active - 1 }))
    | false ↦ do
      entered ← swap_in (s.heap f)
      some (at_phase i (running f false) (record s { heap = put s.heap f entered }))
  ]
  act i (some (call cb)) s = enter_callback i cb (s.threads i).cb_fiber s

  -- The fiber `f` has been switched out: `--m_activeThreadCount`.
  unfoldable pub leave : ℕ → ℕ → Bool → Scheduler Cb → Scheduler Cb
  leave i f as_cb s = at_phase i (settling f as_cb) (record s { active = s.active - 1 })

  abbrev pub drop_cb_fiber : ℕ → Scheduler Cb → Scheduler Cb
  drop_cb_fiber i s = record s {
    threads = put s.threads i (record (s.threads i) { phase = picking; cb_fiber = none });
  }

  abbrev pub hold_fiber : ℕ → Scheduler Cb → Scheduler Cb
  hold_fiber f s = record s { heap = put s.heap f (record (s.heap f) { state = FiberState.hold }) }

  unfoldable pub reset_cb_fiber : ℕ → ℕ → Scheduler Cb → Option (Scheduler Cb)
  reset_cb_fiber i f s = do
    emptied ← reset none (s.heap f)
    some (at_phase i picking (record s { heap = put s.heap f emptied }))

  -- What run does with ft.fiber by its state, and with cb_fiber.
  unfoldable pub settle : ℕ → ℕ → Bool → FiberState → Scheduler Cb → Option (Scheduler Cb)
  settle i f false FiberState.ready s = some (at_phase i picking (schedule (fiber f) none s))
  settle i f false FiberState.term s = some (at_phase i picking s)
  settle i f false FiberState.except s = some (at_phase i picking s)
  settle i f false _ s = some (at_phase i picking (hold_fiber f s))
  settle i f true FiberState.ready s = some (drop_cb_fiber i (schedule (fiber f) none s))
  settle i f true FiberState.term s = reset_cb_fiber i f s
  settle i f true FiberState.except s = reset_cb_fiber i f s
  settle i f true _ s = some (drop_cb_fiber i (hold_fiber f s))

  unfoldable pub stopped : Scheduler Cb → Bool
  stopped s = s.auto_stop && s.stopping && is_empty s.fibers && (s.active == 0)

  -- One turn of the idle fiber: idle tests stopping, and yields or returns.
  unfoldable pub idle_turn : ℕ → Scheduler Cb → Scheduler Cb
  idle_turn i s =
      let state = if stopped s then FiberState.term else FiberState.hold in
      record s {
        idle = s.idle - 1;
        threads = put s.threads i (record (s.threads i) { phase = picking; idle_state = state });
      }
