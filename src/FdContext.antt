-- ===== src/FdContext.antt =====
-- `IOManager::FdContext` of Helens/iomanager.cc: who waits for the events of a file descriptor.
use helens.Prelude.{ℕ, Bool, true, false, Option, none, some, List, [], ◌∷◌}
use helens.Prelude.Maybe.{◌>>=◌}
use helens.Scheduler.{Task, fiber, call}
use helens.Epoll.{Event, read, write, Events, no_events, has, without}

-- `fiber` and `cb` are `none` where the pointer or the function is empty.
pub record EventContext (Cb : Type 0) : Type 0 where
  pub scheduler : Option ℕ
  pub fiber : Option ℕ
  pub cb : Option Cb

pub record FdContext (Cb : Type 0) : Type 0 where
  pub read : EventContext Cb
  pub write : EventContext Cb
  pub fd : ℕ
  pub events : Events

-- A thread's scheduler and fiber.
pub record Caller : Type 0 where
  pub scheduler : ℕ
  pub fiber : ℕ

module _ {Cb : Type 0} where
  abbrev pub null : EventContext Cb
  null = record { scheduler = none; fiber = none; cb = none }

  abbrev pub new_context : ℕ → FdContext Cb
  new_context fd = record { read = null; write = null; fd = fd; events = no_events }

  abbrev pub get_context : Event → FdContext Cb → EventContext Cb
  get_context read c = c.read
  get_context write c = c.write

  abbrev pub put_context : Event → EventContext Cb → FdContext Cb → FdContext Cb
  put_context read x c = record c { read = x }
  put_context write x c = record c { write = x }

  -- What is scheduled, and the context afterwards: the pointer that schedule is given is emptied.
  abbrev pub fire : ℕ → EventContext Cb → List (ℕ × Task Cb) × EventContext Cb
  fire s x = elim x.cb [
    | some cb ↦ ((s, call cb) ∷ [], record x { cb = none; scheduler = none })
    | none ↦ (
      elim x.fiber [ some f ↦ (s, fiber f) ∷ [] | none ↦ [] ],
      record x { fiber = none; scheduler = none },
    )
  ]

  -- `none` from here on is an assertion that fails, or a call through a null pointer.
  unfoldable pub trigger_event : Event → FdContext Cb → Option (List (ℕ × Task Cb) × FdContext Cb)
  trigger_event ev c = elim (has ev c.events) [
    | false ↦ none
    | true ↦ do
      s ← (get_context ev c).scheduler
      let fired = fire s (get_context ev c)
      some (fired.0, put_context ev fired.1 (record c { events = without ev c.events }))
  ]

  abbrev pub all_null : EventContext Cb → Bool
  all_null x = elim x.scheduler [
    | some _ ↦ false
    | none ↦ elim x.fiber [ some _ ↦ false | none ↦ elim x.cb [ some _ ↦ false | none ↦ true ] ]
  ]

  abbrev pub arm : Caller → Option Cb → EventContext Cb
  arm me (some cb) = record { scheduler = some me.scheduler; fiber = none; cb = some cb }
  arm me none = record { scheduler = some me.scheduler; fiber = some me.fiber; cb = none }
