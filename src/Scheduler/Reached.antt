-- ===== src/Scheduler/Reached.antt =====
-- The invariant over the steps that keep the rule.
use helens.Prelude.{
  ℕ, ◌+◌, ◌≡◌, ◌≢◌, ◌≤◌, ◌<◌, refl, sym, subst, Bool, true, false, ◌⊎◌, inl, inr, Option, some,
  arith, ◌∙◌, ℕ_discrete,
}
use helens.Prelude.Family.{put, sum_below-const_zero, le-sum_below}
use helens.Fiber.{Fiber, FiberState, create, yield_to_ready, yield_to_hold, main_func}
use helens.Scheduler.{fiber, call, Scheduler, schedule}
use helens.Scheduler.Share
use helens.Scheduler.Steps.{
  picks_of, holds_of, keeps_of, busy_of, owners, Unclaimed, Step, Orderly, AllOrderly, did_pick,
  did_act, did_yield_ready, did_yield_hold, did_end, did_leave, did_settle, did_idle,
  schedule_fiber, schedule_call, new_fiber, stop, Reach, start, later, init, new_thread,
}
use helens.Scheduler.Invariant.{FiberValid, IsValid}
use helens.Scheduler.Moves.{pick-IsValid, leave-IsValid, idle_turn-IsValid}
use helens.Scheduler.Switches.{act-IsValid, put_state, put_state_other}
use helens.Scheduler.Returns.{change-IsValid, queued-append}
use helens.Scheduler.Settle.{settle-IsValid}

module _ {Cb : Type 0} (f : Fiber Cb) where
  yield_to_ready-state : {g : Fiber Cb} → yield_to_ready f ≡ some g → g.state ≢ FiberState.exec
  unfolding yield_to_ready
  yield_to_ready-state e x = ground arith

  yield_to_hold-state : {g : Fiber Cb} → yield_to_hold f ≡ some g → g.state ≡ f.state
  unfolding yield_to_hold
  yield_to_hold-state e = ground arith

module _ {Cb : Type 0} where
  main_func-state : (threw : Bool) (f : Fiber Cb) → (main_func threw f).state ≢ FiberState.exec
  unfolding main_func
  main_func-state true f e = cc
  main_func-state false f e = cc

module _ {Cb : Type 0} {n : ℕ} where
  schedule_fiber-IsValid :
      (f : ℕ) (thread : Option ℕ) (s : Scheduler Cb)
      → IsValid n s
      → 0 < f
      → f ≤ s.last_id
      → Unclaimed n f s
      → (owners n f s ≡ 0) ⊎ ((s.heap f).state ≡ FiberState.exec)
      → IsValid n (schedule (fiber f) thread s)
  unfolding schedule
  schedule_fiber-IsValid f thread s v pos le free own = record {
    counted = v.counted;
    fibers_valid = λ g. elim (ℕ_discrete g f) [
      | yes same ↦
          subst (λ h. FiberValid n h (schedule (fiber f) thread s)) (sym same)
            (Share.scheduled (v.fibers_valid f) pos le free own
              (ground (arith, queued-append f s.fibers (fiber f) thread)) refl refl refl)
      | no ne ↦
          Share.unchanged (v.fibers_valid g)
            (ground (arith, queued-append g s.fibers (fiber f) thread)) refl refl refl
    ];
    threads_valid = v.threads_valid;
  }

  schedule_call-IsValid :
      (cb : Cb) (thread : Option ℕ) (s : Scheduler Cb)
      → IsValid n s
      → IsValid n (schedule (call cb) thread s)
  unfolding schedule
  schedule_call-IsValid cb thread s v = record {
    counted = v.counted;
    fibers_valid = λ g.
        Share.unchanged (v.fibers_valid g)
          (ground (arith, queued-append g s.fibers (call cb) thread)) refl refl refl;
    threads_valid = v.threads_valid;
  }

  -- No thread holds or keeps the id that comes next.
  not_new :
      (i f : ℕ) (s : Scheduler Cb)
      → IsValid n s
      → i < n
      → 1 ≤ holds_of f (s.threads i) + keeps_of f (s.threads i)
      → f ≢ s.last_id + 1
  not_new i f s v lt own e = absurd (
      omega (
        arith,
        (v.fibers_valid f).known (
            omega (
              arith,
              le-sum_below (holds_of f) n s.threads i lt,
              le-sum_below (keeps_of f) n s.threads i lt,
            )),
      ))

  new_fiber-IsValid :
      (cb : Cb) (s : Scheduler Cb)
      → IsValid n s
      → IsValid n
          (record s { last_id = s.last_id + 1; heap = put s.heap (s.last_id + 1) (create cb) })
  unfolding create
  new_fiber-IsValid cb s v = record {
    counted = v.counted;
    fibers_valid = λ g. elim (ℕ_discrete g (s.last_id + 1)) [
      | yes same ↦
          Share.at_state (rw same (put_state s.heap (s.last_id + 1) (create cb) refl))
            (Share.created (v.fibers_valid g) same refl refl refl refl)
      | no ne ↦
          Share.at_state (put_state_other s.heap (s.last_id + 1) (create cb) g ne)
            (Share.grown (v.fibers_valid g) ne)
    ];
    threads_valid = λ i lt. record {
      in_exec = λ f b e.
          put_state_other s.heap (s.last_id + 1) (create cb) f (not_new i f s v lt (ground arith))
          ∙ (v.threads_valid i lt).in_exec f b e;
      linked = (v.threads_valid i lt).linked;
      kept = λ f k.
          put_state_other s.heap (s.last_id + 1) (create cb) f (not_new i f s v lt (omega arith))
          ∙ (v.threads_valid i lt).kept f k;
      resting = (v.threads_valid i lt).resting;
    };
  }

  stop-IsValid :
      (s : Scheduler Cb) → IsValid n s → IsValid n (record s { auto_stop = true; stopping = true })
  stop-IsValid s v = record {
    counted = v.counted;
    fibers_valid = v.fibers_valid;
    threads_valid = v.threads_valid;
  }

  Step-IsValid :
      {s s' : Scheduler Cb} → IsValid n s → (st : Step n s s') → Orderly st → IsValid n s'
  Step-IsValid v (did_pick i lt ph) k = pick-IsValid lt v ph
  Step-IsValid v (did_act i o lt ph e) k = act-IsValid lt v o ph e
  Step-IsValid {s} v (did_yield_ready i f b {g} lt ph e) free =
      change-IsValid lt v f b g ph (inr (yield_to_ready-state (s.heap f) e, free))
  Step-IsValid {s} v (did_yield_hold i f b {g} lt ph e) k =
      change-IsValid lt v f b g ph (inl (yield_to_hold-state (s.heap f) e))
  Step-IsValid {s} v (did_end i f b threw lt ph) free =
      change-IsValid lt v f b (main_func threw (s.heap f)) ph
        (inr (main_func-state threw (s.heap f), free))
  Step-IsValid v (did_leave i f b lt ph) k = leave-IsValid lt v f b ph
  Step-IsValid v (did_settle i f b lt ph e) k = settle-IsValid lt v f b ph e
  Step-IsValid v (did_idle i lt ph) k = idle_turn-IsValid lt v ph
  Step-IsValid {s} v (schedule_fiber f thread pos le) (free, own) =
      schedule_fiber-IsValid f thread s v pos le free own
  Step-IsValid {s} v (schedule_call cb thread) k = schedule_call-IsValid cb thread s v
  Step-IsValid {s} v (new_fiber cb) k = new_fiber-IsValid cb s v
  Step-IsValid {s} v stop k = stop-IsValid s v

  init-IsValid : (heap : ℕ → Fiber Cb) → IsValid n (init heap)
  init-IsValid heap = record {
    counted = sym (sum_below-const_zero busy_of n new_thread refl);
    fibers_valid = λ f. ground (
      arith,
      sum_below-const_zero (picks_of {Cb = Cb} f) n new_thread refl,
      sum_below-const_zero (holds_of {Cb = Cb} f) n new_thread refl,
      sum_below-const_zero (keeps_of {Cb = Cb} f) n new_thread refl,
    );
    threads_valid = λ i lt. record {
      in_exec = λ f b e. cc;
      linked = λ f e. cc;
      kept = λ f k. absurd (omega (arith, k));
      resting = λ e. cc;
    };
  }

  pub Reach-IsValid :
      {heap : ℕ → Fiber Cb} {s : Scheduler Cb} (r : Reach n heap s) → AllOrderly r → IsValid n s
  Reach-IsValid {heap} start k = init-IsValid heap
  Reach-IsValid (later r st) (all, k) = Step-IsValid (Reach-IsValid r all) st k
