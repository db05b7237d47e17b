-- ===== src/IoManager.antt =====
-- Helens/iomanager.cc and iomanager.h: who waits for which event of which file descriptor. epoll is
-- the kernel's: `Kernel` has the descriptors that it watches, ctl what epoll_ctl does to them, and `ok`
-- tells whether the call fails for another reason (memory, a closed descriptor).
pub mod Views
pub mod Steps
pub mod Laws
pub mod Adding
pub mod Race
pub mod Poll
pub mod Reported
pub mod Handling
pub mod Ending
mod Tests
use helens.Prelude.{
  ℕ, zero, suc, ◌+◌, ◌-◌, ◌*◌, ◌/◌, ◌≡◌, Bool, true, false, not, ◌&&◌, ◌||◌, Option, none, some,
  List, [], ◌∷◌, ◌++◌, ◌==◌, if◌then◌else◌, ltb, leb, length, get_elem?, set, take,
}
use helens.Prelude.Family.{put}
use helens.Prelude.Maybe.{◌>>=◌}
use helens.Epoll.{
  Event, read, write, Events, no_events, has, with_event, without, any, CtlOp, add, mod_, del,
  Kernel, ctl,
}
use helens.FdContext.{
  EventContext, FdContext, Caller, null, new_context, get_context, put_context, fire, trigger_event,
  all_null, arm,
}
use helens.Scheduler.{Task, fiber, call}

pub record IoManager (Cb : Type 0) : Type 0 where
  pub contexts : List (FdContext Cb)
  pub pending : ℕ
  pub kernel : Kernel
  pub scheduled : List (ℕ × Task Cb)  -- what has been given to which scheduler

module _ {Cb : Type 0} where
  pub new_contexts : ℕ → ℕ → List (FdContext Cb)
  new_contexts from zero = []
  new_contexts from (suc n) = new_context from ∷ new_contexts (from + 1) n

  -- std::vector's resize, and a new context in each place that is empty.
  unfoldable pub context_resize : ℕ → List (FdContext Cb) → List (FdContext Cb)
  unfolding new_contexts
  context_resize size cs =
      if leb size (length cs)
      then take size cs
      else cs ++ new_contexts (length cs) (size - length cs)

  -- Where addEvent has found no context under the read lock: `contextResize(fd * 1.5)`.
  unfoldable pub grow : ℕ → IoManager Cb → IoManager Cb
  grow fd s = record s { contexts = context_resize (fd * 3 / 2) s.contexts }

  abbrev pub set_context : ℕ → FdContext Cb → IoManager Cb → IoManager Cb
  set_context fd c s = record s { contexts = set s.contexts fd c }

  -- addEvent once it has the context: 0 is `true`, -1 is `false`.
  unfoldable pub add_to :
      Bool
      → Caller
      → ℕ
      → Event
      → Option Cb
      → FdContext Cb
      → IoManager Cb
      → Option (Bool × IoManager Cb)
  add_to ok me fd ev cb c s = elim (has ev c.events) [
    | true ↦ none
    | false ↦
        elim (ctl ok (if any c.events then mod_ else add) fd (with_event ev c.events) s.kernel) [
          | none ↦ some (false, s)
          | some k ↦ elim (all_null (get_context ev c)) [
            | false ↦ none
            | true ↦
                let c' =
                  put_context ev (arm me cb) (record c { events = with_event ev c.events }) in
                some (true, set_context fd c' (record s { pending = s.pending + 1; kernel = k }))
          ]
        ]
  ]

  unfoldable pub add_event :
      Bool → Caller → ℕ → Event → Option Cb → IoManager Cb → Option (Bool × IoManager Cb)
  add_event ok me fd ev cb s =
      let s' = if ltb fd (length s.contexts) then s else grow fd s in
      do c ← get_elem? s'.contexts fd; add_to ok me fd ev cb c s'

  -- delEvent, cancelEvent and cancelAll without a context return false.
  unfoldable pub del_from : Bool → ℕ → Event → FdContext Cb → IoManager Cb → Bool × IoManager Cb
  del_from ok fd ev c s = elim (has ev c.events) [
    | false ↦ (false, s)
    | true ↦
        let left = without ev c.events in
        elim (ctl ok (if any left then mod_ else del) fd left s.kernel) [
          | none ↦ (false, s)
          | some k ↦
              let c' = put_context ev null (record c { events = left }) in
              (true, set_context fd c' (record s { pending = s.pending - 1; kernel = k }))
        ]
  ]

  unfoldable pub del_event : Bool → ℕ → Event → IoManager Cb → Bool × IoManager Cb
  del_event ok fd ev s = elim (get_elem? s.contexts fd) [
    | none ↦ (false, s)
    | some c ↦ del_from ok fd ev c s
  ]

  -- triggerEvent, and `--m_pendingEventCount`.
  unfoldable pub trigger : ℕ → Event → IoManager Cb → Option (IoManager Cb)
  trigger fd ev s = do
    c ← get_elem? s.contexts fd
    fired ← trigger_event ev c
    some (
        set_context fd fired.1
          (record s { pending = s.pending - 1; scheduled = s.scheduled ++ fired.0 }))

  unfoldable pub cancel_from :
      Bool → ℕ → Event → FdContext Cb → IoManager Cb → Option (Bool × IoManager Cb)
  cancel_from ok fd ev c s = elim (has ev c.events) [
    | false ↦ some (false, s)
    | true ↦
        let left = without ev c.events in
        elim (ctl ok (if any left then mod_ else del) fd left s.kernel) [
          | none ↦ some (false, s)
          | some k ↦ do s' ← trigger fd ev (record s { kernel = k }); some (true, s')
        ]
  ]

  unfoldable pub cancel_event : Bool → ℕ → Event → IoManager Cb → Option (Bool × IoManager Cb)
  cancel_event ok fd ev s = elim (get_elem? s.contexts fd) [
    | none ↦ some (false, s)
    | some c ↦ cancel_from ok fd ev c s
  ]

  abbrev pub trigger_if : Bool → ℕ → Event → IoManager Cb → Option (IoManager Cb)
  trigger_if true fd ev s = trigger fd ev s
  trigger_if false fd ev s = some s

  -- Both triggers of cancelAll and of idle, where the bits say so.
  unfoldable pub trigger_all : ℕ → Events → IoManager Cb → Option (IoManager Cb)
  trigger_all fd e s = do s' ← trigger_if e.readable fd read s; trigger_if e.writable fd write s'

  -- The assertion at the end of cancelAll.
  abbrev pub none_left : ℕ → IoManager Cb → Bool
  none_left fd s = elim (get_elem? s.contexts fd) [ none ↦ false | some c ↦ not (any c.events) ]

  unfoldable pub cancel_all_from :
      Bool → ℕ → FdContext Cb → IoManager Cb → Option (Bool × IoManager Cb)
  cancel_all_from ok fd c s = elim (any c.events) [
    | false ↦ some (false, s)
    | true ↦ elim (ctl ok del fd no_events s.kernel) [
      | none ↦ some (false, s)
      | some k ↦ do
        s' ← trigger_all fd c.events (record s { kernel = k })
        elim (none_left fd s') [ true ↦ some (true, s') | false ↦ none ]
    ]
  ]

  unfoldable pub cancel_all : Bool → ℕ → IoManager Cb → Option (Bool × IoManager Cb)
  cancel_all ok fd s = elim (get_elem? s.contexts fd) [
    | none ↦ some (false, s)
    | some c ↦ cancel_all_from ok fd c s
  ]
