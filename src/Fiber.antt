-- ===== src/Fiber.antt =====
-- Helens/fiber.cc and fiber.h: the states of a fiber and how its operations change them. A context
-- switch itself is the platform's: what runs between two switches is a step of Scheduler.antt.
use helens.Prelude.{Bool, true, false, Option, none, some}

pub data FiberState : Type 0 where
  init : FiberState
  hold : FiberState
  exec : FiberState
  term : FiberState
  ready : FiberState
  except : FiberState

-- `Cb` is the type of what std::function<void()> holds; `none` is an empty function.
pub record Fiber (Cb : Type 0) : Type 0 where
  pub state : FiberState
  pub cb : Option Cb

abbrev pub is_exec : FiberState → Bool
is_exec FiberState.exec = true
is_exec _ = false

-- `TERM || EXCEPT || INIT`, on which reset and the destructor insist
abbrev pub is_restable : FiberState → Bool
is_restable FiberState.term = true
is_restable FiberState.except = true
is_restable FiberState.init = true
is_restable _ = false

-- `TERM || EXCEPT`, in which the scheduler does not run a fiber
abbrev pub is_over : FiberState → Bool
is_over FiberState.term = true
is_over FiberState.except = true
is_over _ = false

module _ {Cb : Type 0} where
  unfoldable pub create : Cb → Fiber Cb
  create cb = record { state = FiberState.init; cb = some cb }

  -- `none` from here on is an assertion that fails.
  unfoldable pub reset : Option Cb → Fiber Cb → Option (Fiber Cb)
  reset cb f = elim (is_restable f.state) [
    | true ↦ some (record { state = FiberState.init; cb = cb })
    | false ↦ none
  ]

  unfoldable pub swap_in : Fiber Cb → Option (Fiber Cb)
  swap_in f = elim (is_exec f.state) [
    | true ↦ none
    | false ↦ some (record f { state = FiberState.exec })
  ]

  -- Up to the call of swapOut.
  unfoldable pub yield_to_ready : Fiber Cb → Option (Fiber Cb)
  yield_to_ready f = elim (is_exec f.state) [
    | true ↦ some (record f { state = FiberState.ready })
    | false ↦ none
  ]

  -- The state is left to the scheduler.
  unfoldable pub yield_to_hold : Fiber Cb → Option (Fiber Cb)
  yield_to_hold f = elim (is_exec f.state) [ true ↦ some f | false ↦ none ]

  -- MainFunc once its call-back has returned, or has thrown.
  unfoldable pub main_func : (threw : Bool) → Fiber Cb → Fiber Cb
  main_func true f = record f { state = FiberState.except }
  main_func false f = record { state = FiberState.term; cb = none }
