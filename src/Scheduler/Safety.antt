-- ===== src/Scheduler/Safety.antt =====
-- The states that the threads of the scheduler, its fibers and callers can reach by steps that keep
-- the rule `Orderly`.
use helens.Prelude.{
  ℕ, ◌+◌, ◌≡◌, ◌≢◌, ◌≤◌, ◌<◌, refl, Bool, true, false, inl, inr, Option, none, some, List, [], ◌∷◌,
  ◌-◌, arith, ℕ_discrete, Bool-cases,
}
use helens.Prelude.Family.{sum_below, add-le-sum_below, le-sum_below}
use helens.Prelude.Maybe.{Succeeds, >>=-Succeeds}
use helens.Fiber.{
  Fiber, FiberState, is_over, is_restable, reset, swap_in, create, yield_to_ready, yield_to_hold,
}
use helens.Scheduler.{
  at_phase, FiberAndThread, Task, fiber, call, picking, picked, running, settling, Scheduler, act,
  settle, enter_idle, enter_callback, reset_cb_fiber, idle_turn, stopped, is_empty,
}
use helens.Scheduler.Steps.{picks_of, holds_of, busy_of, claims, Reach, AllOrderly}
use helens.Scheduler.Invariant.{IsValid}
use helens.Scheduler.Switches.{reset-state}
use helens.Scheduler.Reached.{Reach-IsValid}

module _ {Cb : Type 0} where
  is_empty→[] : (es : List (FiberAndThread Cb)) → is_empty es ≡ true → es ≡ []
  is_empty→[] [] e = refl
  is_empty→[] (x ∷ es) e = cc

  swap_in_total : (f : Fiber Cb) → f.state ≢ FiberState.exec → Succeeds (swap_in f)
  unfolding swap_in
  swap_in_total f ne = (record f { state = FiberState.exec }, ground arith)

  reset_total : (cb : Option Cb) (f : Fiber Cb) → is_restable f.state ≡ true → Succeeds (reset cb f)
  unfolding reset
  reset_total cb f h = (record { state = FiberState.init; cb = cb }, ground arith)

  yields_total :
      (f : Fiber Cb)
      → f.state ≡ FiberState.exec
      → Succeeds (yield_to_ready f) × Succeeds (yield_to_hold f)
  unfolding yield_to_ready yield_to_hold
  yields_total f e = ((record f { state = FiberState.ready }, ground arith), (f, ground arith))

  enter_idle_total :
      (i : ℕ) (st : FiberState) (s : Scheduler Cb)
      → st ≢ FiberState.exec
      → Succeeds (enter_idle i st s)
  unfolding enter_idle
  enter_idle_total i FiberState.exec s ne = absurd (ne refl)
  enter_idle_total i FiberState.init s ne = (_, refl)
  enter_idle_total i FiberState.hold s ne = (_, refl)
  enter_idle_total i FiberState.ready s ne = (_, refl)
  enter_idle_total i FiberState.term s ne = (_, refl)
  enter_idle_total i FiberState.except s ne = (_, refl)

  enter_callback_total :
      (i : ℕ) (cb : Cb) (kept : Option ℕ) (s : Scheduler Cb)
      → ((f : ℕ) → kept ≡ some f → (s.heap f).state ≡ FiberState.init)
      → Succeeds (enter_callback i cb kept s)
  unfolding enter_callback create
  enter_callback_total i cb none s h =
      >>=-Succeeds (swap_in (create cb)) _ (swap_in_total (create cb) (λ x. cc)) (λ g e. (_, refl))
  enter_callback_total i cb (some f) s h =
      >>=-Succeeds (reset (some cb) (s.heap f)) _
        (reset_total (some cb) (s.heap f) (ground (arith, h f refl)))
        (λ fresh e.
          >>=-Succeeds (swap_in fresh) _
            (swap_in_total fresh (λ x. ground (arith, reset-state (some cb) (s.heap f) e)))
            (λ g e. (_, refl)))

  settle_as :
      (i f : ℕ) (b : Bool) (st : FiberState) (s : Scheduler Cb)
      → (s.heap f).state ≡ st
      → Succeeds (settle i f b st s)
  unfolding settle reset_cb_fiber
  settle_as i f false FiberState.init s e = (_, refl)
  settle_as i f false FiberState.hold s e = (_, refl)
  settle_as i f false FiberState.exec s e = (_, refl)
  settle_as i f false FiberState.ready s e = (_, refl)
  settle_as i f false FiberState.term s e = (_, refl)
  settle_as i f false FiberState.except s e = (_, refl)
  settle_as i f true FiberState.init s e = (_, refl)
  settle_as i f true FiberState.hold s e = (_, refl)
  settle_as i f true FiberState.exec s e = (_, refl)
  settle_as i f true FiberState.ready s e = (_, refl)
  settle_as i f true FiberState.term s e =
      >>=-Succeeds (reset none (s.heap f)) _ (reset_total none (s.heap f) (rw e)) (λ g e. (_, refl))
  settle_as i f true FiberState.except s e =
      >>=-Succeeds (reset none (s.heap f)) _ (reset_total none (s.heap f) (rw e)) (λ g e. (_, refl))

  act_fiber_total :
      (i f : ℕ) (s : Scheduler Cb)
      → (s.heap f).state ≢ FiberState.exec
      → Succeeds (act i (some (fiber f)) s)
  unfolding act
  act_fiber_total i f s ne = elim (Bool-cases (is_over (s.heap f).state)) [
    | inl done ↦ (at_phase i picking (record s { active = s.active - 1 }), rw (done, act))
    | inr live ↦
        rw (live, act)
          (>>=-Succeeds (swap_in (s.heap f)) _ (swap_in_total (s.heap f) ne) (λ g e. (_, refl)))
  ]

module _ {Cb : Type 0} {n : ℕ} {heap : ℕ → Fiber Cb} {s : Scheduler Cb} (r : Reach n heap s)
    (orderly : AllOrderly r) where
  -- In every state that is reached by orderly steps a fiber runs on one thread at most. (Orderly: a
  -- fiber is scheduled only while it is not scheduled and, unless it runs, no thread holds or keeps
  -- it; and one that is scheduled while it runs neither yields as READY nor ends before a thread has
  -- taken it up.)
  pub running_once :
      (i j f : ℕ) (b c : Bool)
      → i < n
      → j < n
      → (s.threads i).phase ≡ running f b
      → (s.threads j).phase ≡ running f c
      → i ≡ j
  running_once i j f b c lt lt' p q = elim (ℕ_discrete i j) [
    | yes e ↦ e
    | no ne ↦
        let valid = Reach-IsValid r orderly in
        absurd (
          ground (
            arith,
            (valid.fibers_valid f).owned,
            add-le-sum_below (holds_of f) n s.threads i j lt lt' ne,
          ))
  ]

  -- In every state that is reached by orderly steps m_activeThreadCount is the number of the threads that have picked an
  -- entry and have not been switched back yet.
  pub active_lem : s.active ≡ sum_below busy_of n s.threads
  active_lem = (Reach-IsValid r orderly).counted

  -- In every state that is reached by orderly steps no assertion of run, Fiber::swapIn, Fiber::reset
  -- or of the two yields fails, whatever a thread has picked. (Orderly: a fiber is scheduled only
  -- while it is not scheduled and, unless it runs, no thread holds or keeps it; and one that is
  -- scheduled while it runs neither yields as READY nor ends before a thread has taken it up.)
  pub no_assertion_fails :
      (i : ℕ)
      → i < n
      → ((o : Option (Task Cb)) → (s.threads i).phase ≡ picked o → Succeeds (act i o s))
        × ((f : ℕ) (b : Bool)
            → (s.threads i).phase ≡ running f b
            → Succeeds (yield_to_ready (s.heap f)) × Succeeds (yield_to_hold (s.heap f)))
        × ((f : ℕ) (b : Bool)
            → (s.threads i).phase ≡ settling f b
            → Succeeds (settle i f b (s.heap f).state s))
  unfolding act
  no_assertion_fails i lt = (
    λ o ph. act_total o ph,
    λ f b ph. yields_total (s.heap f) ((valid.threads_valid i lt).in_exec f b ph),
    λ f b ph. settle_as i f b (s.heap f).state s refl,
  )
    where
      valid : IsValid n s
      valid = Reach-IsValid r orderly

      not_exec :
          (f : ℕ)
          → (s.threads i).phase ≡ picked (some (fiber f))
          → (s.heap f).state ≢ FiberState.exec
      not_exec f ph e = ground (
        arith,
        le-sum_below (picks_of f) n s.threads i lt,
        (valid.fibers_valid f).owned,
        (valid.fibers_valid f).known,
        (valid.fibers_valid f).held,
      )

      act_total : (o : Option (Task Cb)) → (s.threads i).phase ≡ picked o → Succeeds (act i o s)
      act_total none ph =
          enter_idle_total i (s.threads i).idle_state s
            (λ e. ground (arith, (valid.threads_valid i lt).resting))
      act_total (some (fiber f)) ph = act_fiber_total i f s (not_exec f ph)
      act_total (some (call cb)) ph =
          enter_callback_total i cb (s.threads i).cb_fiber s
            (λ f e. (valid.threads_valid i lt).kept f (ground arith))

  stopped_lem :
      stopped s ≡ true
      → (s.auto_stop ≡ true) × (s.stopping ≡ true) × (s.fibers ≡ []) × (s.active ≡ 0)
  unfolding stopped
  stopped_lem e = (ground arith, ground arith, is_empty→[] s.fibers (ground arith), ground arith)

  -- In every state that is reached by orderly steps, if the idle fiber of a thread ends, stop has been called, the queue is
  -- empty, and no thread has picked an entry that it has not been switched back from.
  pub idle_ends :
      (i : ℕ)
      → i < n
      → ((idle_turn i s).threads i).idle_state ≡ FiberState.term
      → (s.auto_stop ≡ true)
        × (s.stopping ≡ true)
        × (s.fibers ≡ [])
        × ((j : ℕ) → j < n → busy_of (s.threads j) ≡ 0)
  unfolding idle_turn
  idle_ends i lt e =
      let (a, b, c, d) = stopped_lem (ground arith) in
      let valid = Reach-IsValid r orderly in
      (a, b, c, λ j lt'. omega (arith, d, valid.counted, le-sum_below busy_of n s.threads j lt'))

  -- In every state that is reached by orderly steps a fiber in the state READY is not lost: it stands in the queue, or a thread
  -- has picked it, or the thread that it has run on has still to deal with it.
  pub ready_kept :
      (f : ℕ)
      → 0 < f
      → f ≤ s.last_id
      → (s.heap f).state ≡ FiberState.ready
      → 1 ≤ claims n f s + sum_below (holds_of f) n s.threads
  ready_kept f pos le e = ((Reach-IsValid r orderly).fibers_valid f).waits pos le e
