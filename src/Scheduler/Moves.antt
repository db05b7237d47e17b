-- ===== src/Scheduler/Moves.antt =====
-- Each step of a thread in run keeps the invariant.
use helens.Prelude.{ℕ, ◌+◌, ◌≡◌, ◌≢◌, ◌<◌, refl, subst, Bool, inl, Option, none, some, arith}
use helens.Prelude.Family.{put}
use mathlib.Core.Option.{some-injective}
use helens.Fiber.{FiberState}
use helens.Scheduler.{
  Task, fiber, call, Phase, picking, picked, running, swapped, settling, idling, over, Scheduler,
  at_phase, pick, leave, idle_turn, scan, enter_idle,
}
use helens.Scheduler.Share
use helens.Scheduler.Steps.{phase_callback}
use helens.Scheduler.Invariant.{
  FiberValid, ThreadValid, IsValid, Counts, counts, Change-IsValid, Quiet-IsValid,
  ThreadValid-phase, busy-le-active,
}
use helens.Scheduler.Scan.{queued-scan, scan-not_exec}

module _ {Cb : Type 0} {n i : ℕ} {s : Scheduler Cb} (lt : i < n) (v : IsValid n s) where
  pub quiet_phase :
      (p : Phase Cb)
      → ((f : ℕ) (b : Bool) → p ≢ running f b)
      → phase_callback p ≡ phase_callback (s.threads i).phase
      → (s.threads i).phase ≢ idling
      → ThreadValid s.heap (record (s.threads i) { phase = p })
  quiet_phase p not_running same awake =
      ThreadValid-phase p (v.threads_valid i lt) (λ f b e. absurd (not_running f b e)) same awake
        (λ g e. refl)

  pub same_result : {x s' : Scheduler Cb} → some x ≡ some s' → IsValid n x → IsValid n s'
  same_result e w = subst (λ t. IsValid n t) (some-injective _ _ e) w

  pick_as :
      (t : Option (Task Cb))
      → (scan i s.heap s.fibers).0 ≡ t
      → (s.threads i).phase ≡ picking
      → IsValid n (pick i s)
  unfolding pick
  pick_as none e ph =
      Quiet-IsValid {t' = record (s.threads i) { phase = picked none }} lt v (rw e) (record {
        active = rw (e, ph);
        last_id = refl;
        state = λ g. refl;
        queue = λ g. ground (arith, queued-scan i s.heap g s.fibers);
        picks = λ g. rw ph;
        holds = λ g. rw ph;
        keeps = λ g. rw ph;
        mine = quiet_phase (picked none) (λ f b e. cc) (rw ph) (λ q. cc);
      })
  pick_as (some (call cb)) e ph =
      Quiet-IsValid {t' = record (s.threads i) { phase = picked (some (call cb)) }} lt v (rw e)
        (record {
          active = rw (e, ph) (omega arith);
          last_id = refl;
          state = λ g. refl;
          queue = λ g. ground (arith, queued-scan i s.heap g s.fibers);
          picks = λ g. rw ph;
          holds = λ g. rw ph;
          keeps = λ g. rw ph;
          mine = quiet_phase (picked (some (call cb))) (λ f b e. cc) (rw ph) (λ q. cc);
        })
  pick_as (some (fiber f)) e ph =
      Change-IsValid {f = f} {t' = record (s.threads i) { phase = picked (some (fiber f)) }} lt v
        (rw e)
        (record {
          active = rw (e, ph) (omega arith);
          older = omega arith;
          younger = λ g ne h. h;
          state = λ g ne. refl;
          queue = λ g ne. ground (arith, queued-scan i s.heap g s.fibers);
          picks = λ g ne. rw ph (ground arith);
          holds = λ g ne. rw ph;
          keeps = λ g ne. rw ph;
          mine = quiet_phase (picked (some (fiber f))) (λ f b e. cc) (rw ph) (λ q. cc);
          alone = inl refl;
        })
        (rw e (
          Share.took old (scan-not_exec i s.heap f s.fibers e)
            (ground (arith, queued-scan i s.heap f s.fibers)) (ground (arith, c.picks))
            (ground (arith, c.holds)) (ground (arith, c.keeps))))
    where
      c : Counts n f i s.threads (record (s.threads i) { phase = picked (some (fiber f)) })
      c = counts n f i s.threads _ lt

      old : FiberValid n f s
      old = v.fibers_valid f

  pub leave-IsValid :
      (f : ℕ) (b : Bool) → (s.threads i).phase ≡ swapped f b → IsValid n (leave i f b s)
  unfolding leave
  leave-IsValid f b ph =
      Quiet-IsValid {t' = record (s.threads i) { phase = settling f b }} lt v refl (record {
        active = ground (arith, busy-le-active lt v);
        last_id = refl;
        state = λ g. refl;
        queue = λ g. refl;
        picks = λ g. ground arith;
        holds = λ g. ground arith;
        keeps = λ g. ground arith;
        mine = quiet_phase (settling f b) (λ f b e. cc) (ground arith) (λ q. cc);
      })

  pub pick-IsValid : (s.threads i).phase ≡ picking → IsValid n (pick i s)
  pick-IsValid ph = pick_as _ refl ph

  -- Into the idle fiber, which is in no state that matters to the others.
  go_idle :
      (s.threads i).phase ≡ picked none
      → IsValid n (record s {
        idle = s.idle + 1;
        threads =
            put s.threads i (record (s.threads i) { phase = idling; idle_state = FiberState.exec });
      })
  go_idle ph =
      Quiet-IsValid {t' = record (s.threads i) { phase = idling; idle_state = FiberState.exec }} lt
        v refl
        (record {
          active = rw ph;
          last_id = refl;
          state = λ g. refl;
          queue = λ g. refl;
          picks = λ g. rw ph;
          holds = λ g. rw ph;
          keeps = λ g. rw ph;
          mine = record {
            in_exec = λ f b e. cc;
            linked = λ f e. cc;
            kept = λ g e. (v.threads_valid i lt).kept g (rw ph e);
            resting = λ e. refl;
          };
        })

  go_over : (s.threads i).phase ≡ picked none → IsValid n (at_phase i over s)
  go_over ph = Quiet-IsValid {t' = record (s.threads i) { phase = over }} lt v refl (record {
    active = rw ph;
    last_id = refl;
    state = λ g. refl;
    queue = λ g. refl;
    picks = λ g. rw ph;
    holds = λ g. rw ph;
    keeps = λ g. rw ph;
    mine = quiet_phase over (λ f b e. cc) (rw ph) (λ q. cc);
  })

  pub enter_idle-IsValid :
      (st : FiberState) {s' : Scheduler Cb}
      → (s.threads i).phase ≡ picked none
      → enter_idle i st s ≡ some s'
      → IsValid n s'
  unfolding enter_idle
  enter_idle-IsValid FiberState.term ph e = same_result e (go_over ph)
  enter_idle-IsValid FiberState.exec ph e = cc
  enter_idle-IsValid FiberState.init ph e = same_result e (go_idle ph)
  enter_idle-IsValid FiberState.hold ph e = same_result e (go_idle ph)
  enter_idle-IsValid FiberState.ready ph e = same_result e (go_idle ph)
  enter_idle-IsValid FiberState.except ph e = same_result e (go_idle ph)

  pub idle_turn-IsValid : (s.threads i).phase ≡ idling → IsValid n (idle_turn i s)
  unfolding idle_turn
  idle_turn-IsValid ph = Quiet-IsValid lt v refl (record {
    active = rw ph;
    last_id = refl;
    state = λ g. refl;
    queue = λ g. refl;
    picks = λ g. rw ph;
    holds = λ g. rw ph;
    keeps = λ g. rw ph;
    mine = record {
      in_exec = λ f b e. cc;
      linked = λ f e. cc;
      kept = λ g e. (v.threads_valid i lt).kept g (rw ph e);
      resting = λ e. ground arith;
    };
  })
