-- ===== src/Scheduler/Switches.antt =====
-- The steps of a thread that switch into a fiber and out of it keep the invariant.
use helens.Prelude.{
  ℕ, ◌+◌, ◌-◌, ◌≡◌, ◌≢◌, ◌<◌, refl, sym, true, false, inl, inr, Option, none, some, arith,
  Bool-cases, ◌∙◌,
}
use helens.Prelude.Family.{put}
use helens.Prelude.Maybe.{>>=-eq-some}
use helens.Fiber.{Fiber, FiberState, is_over, swap_in, reset, create}
use helens.Scheduler.{
  Task, fiber, call, picking, picked, running, Thread, Scheduler, at_phase, act, enter_callback,
}
use helens.Scheduler.Share
use helens.Scheduler.Steps.{keeps_of, owners}
use helens.Scheduler.Invariant.{
  IsValid, Counts, counts, Change-IsValid, ThreadValid-phase, busy-le-active,
}
use helens.Scheduler.Moves.{same_result, quiet_phase, enter_idle-IsValid}

is_over-not_exec : (st : FiberState) → is_over st ≡ true → st ≢ FiberState.exec
is_over-not_exec st h e = ground arith

is_over-not_ready : (st : FiberState) → is_over st ≡ true → st ≢ FiberState.ready
is_over-not_ready st h e = ground arith

module _ {Cb : Type 0} where
  swap_in-state : (f : Fiber Cb) {g : Fiber Cb} → swap_in f ≡ some g → g.state ≡ FiberState.exec
  unfolding swap_in
  swap_in-state f e = ground arith

  -- The state at a place of the heap that is written.
  pub put_state :
      (heap : ℕ → Fiber Cb) (f : ℕ) (g : Fiber Cb) {st : FiberState}
      → g.state ≡ st
      → (put heap f g f).state ≡ st
  put_state heap f g e = ground arith

  pub put_state_other :
      (heap : ℕ → Fiber Cb) (f : ℕ) (g : Fiber Cb) (h : ℕ)
      → h ≢ f
      → (put heap f g h).state ≡ (heap h).state
  put_state_other heap f g h ne = ground arith

  pub ne_of_kept : (f h : ℕ) (t : Thread Cb) → keeps_of f t ≡ 0 → keeps_of h t ≡ 1 → h ≢ f
  ne_of_kept f h t e k same = absurd (omega (arith, e, rw same at k))

  pub reset-state :
      (cb : Option Cb) (f : Fiber Cb) {g : Fiber Cb}
      → reset cb f ≡ some g
      → g.state ≡ FiberState.init
  unfolding reset
  reset-state cb f e = ground arith

module _ {Cb : Type 0} {n i : ℕ} {s : Scheduler Cb} (lt : i < n) (v : IsValid n s) where
  drop-IsValid :
      (f : ℕ)
      → (s.threads i).phase ≡ picked (some (fiber f))
      → is_over (s.heap f).state ≡ true
      → IsValid n (at_phase i picking (record s { active = s.active - 1 }))
  drop-IsValid f ph done =
      Change-IsValid {f = f} lt v refl
        (record {
          active = ground (arith, busy-le-active lt v);
          older = omega arith;
          younger = λ g ne h. h;
          state = λ g ne. refl;
          queue = λ g ne. refl;
          picks = λ g ne. rw ph (ground arith);
          holds = λ g ne. rw ph;
          keeps = λ g ne. rw ph;
          mine = quiet_phase lt v picking (λ f b e. cc) (rw ph) (λ q. cc);
          alone = inl refl;
        })
        (Share.dropped (v.fibers_valid f) (is_over-not_exec _ done) (is_over-not_ready _ done) refl
          (ground (arith, c.picks)) (ground (arith, c.holds)) (ground (arith, c.keeps)))
    where
      c : Counts n f i s.threads (record (s.threads i) { phase = picking })
      c = counts n f i s.threads _ lt

  -- What a thread that has picked a fiber holds and keeps is another one.
  not_kept :
      (f : ℕ)
      → (s.threads i).phase ≡ picked (some (fiber f))
      → (owners n f s ≡ 0) × (keeps_of f (s.threads i) ≡ 0)
  not_kept f ph =
      let c = counts n f i s.threads (s.threads i) lt in
      let old = v.fibers_valid f in
      (ground (arith, c.picks_le, old.owned), ground (arith, c.picks_le, c.keeps_le, old.owned))

  run-IsValid :
      (f : ℕ) (g : Fiber Cb)
      → (s.threads i).phase ≡ picked (some (fiber f))
      → g.state ≡ FiberState.exec
      → IsValid n (at_phase i (running f false) (record s { heap = put s.heap f g }))
  run-IsValid f g ph ex =
      Change-IsValid {f = f} lt v refl
        (record {
          active = ground arith;
          older = omega arith;
          younger = λ g ne h. h;
          state = λ h ne. put_state_other s.heap f g h ne;
          queue = λ h ne. refl;
          picks = λ h ne. rw ph (ground arith);
          holds = λ h ne. rw ph (ground arith);
          keeps = λ h ne. rw ph;
          mine =
              ThreadValid-phase (running f false) (v.threads_valid i lt) (λ h b e. ground arith)
                (rw ph) (λ q. cc)
                (λ h k.
                  put_state_other s.heap f g h (ne_of_kept f h (s.threads i) (not_kept f ph).1 k));
          alone = inr ((not_kept f ph).0 ∙ sym (ground (arith, (not_kept f ph).1)));
        })
        (Share.at_state (put_state s.heap f g ex) (
          Share.entered (v.fibers_valid f) refl (ground (arith, c.picks)) (ground (arith, c.holds))
            (ground (arith, c.keeps))))
    where
      c : Counts n f i s.threads (record (s.threads i) { phase = running f false })
      c = counts n f i s.threads _ lt

  act_fiber-IsValid :
      (f : ℕ) {s' : Scheduler Cb}
      → (s.threads i).phase ≡ picked (some (fiber f))
      → act i (some (fiber f)) s ≡ some s'
      → IsValid n s'
  unfolding act
  act_fiber-IsValid f ph e = elim (Bool-cases (is_over (s.heap f).state)) [
    | inl done ↦ same_result lt v (rw (done, act) at e) (drop-IsValid f ph done)
    | inr live ↦
        let (g, entered, e') = >>=-eq-some (swap_in (s.heap f)) _ (rw (live, act) at e) in
        same_result lt v e' (run-IsValid f g ph (swap_in-state (s.heap f) entered))
  ]

  -- A call-back enters the fiber that the thread has kept for it.
  run_kept-IsValid :
      (f : ℕ) (g : Fiber Cb) (cb : Cb)
      → (s.threads i).phase ≡ picked (some (call cb))
      → (s.threads i).cb_fiber ≡ some f
      → g.state ≡ FiberState.exec
      → IsValid n (at_phase i (running f true) (record s { heap = put s.heap f g }))
  run_kept-IsValid f g cb ph kf ex =
      Change-IsValid {f = f} lt v refl
        (record {
          active = ground arith;
          older = omega arith;
          younger = λ g ne h. h;
          state = λ h ne. put_state_other s.heap f g h ne;
          queue = λ h ne. refl;
          picks = λ h ne. rw ph;
          holds = λ h ne. rw ph (ground arith);
          keeps = λ h ne. rw (ph, kf) (ground arith);
          mine = record {
            in_exec = λ h b e. ground arith;
            linked = λ h e. ground arith;
            kept = λ h e. cc;
            resting = λ e. ground (arith, (v.threads_valid i lt).resting);
          };
          alone = inr (ground (arith, c.keeps_le, (v.fibers_valid f).owned));
        })
        (Share.at_state (put_state s.heap f g ex) (
          Share.entered_kept (v.fibers_valid f) refl (ground (arith, c.picks))
            (ground (arith, c.holds)) (ground (arith, c.keeps))))
    where
      c : Counts n f i s.threads (record (s.threads i) { phase = running f true })
      c = counts n f i s.threads _ lt

  run_new-IsValid :
      (f : ℕ) (g : Fiber Cb) (cb : Cb)
      → f ≡ s.last_id + 1
      → (s.threads i).phase ≡ picked (some (call cb))
      → (s.threads i).cb_fiber ≡ none
      → g.state ≡ FiberState.exec
      → IsValid n (record s {
        heap = put s.heap f g;
        last_id = f;
        threads =
            put s.threads i (record (s.threads i) { phase = running f true; cb_fiber = some f });
      })
  run_new-IsValid f g cb new ph kf ex =
      Change-IsValid {f = f} lt v refl
        (record {
          active = ground arith;
          older = omega arith;
          younger = λ g ne h. omega arith;
          state = λ h ne. put_state_other s.heap f g h ne;
          queue = λ h ne. refl;
          picks = λ h ne. rw ph;
          holds = λ h ne. rw ph (ground arith);
          keeps = λ h ne. rw (ph, kf) (ground arith);
          mine = record {
            in_exec = λ h b e. ground arith;
            linked = λ h e. ground arith;
            kept = λ h e. cc;
            resting = λ e. ground (arith, (v.threads_valid i lt).resting);
          };
          alone = inr (ground (arith, c.holds_le, c.keeps_le, (v.fibers_valid f).known));
        })
        (Share.at_state (put_state s.heap f g ex) (
          Share.entered_new (v.fibers_valid f) new refl (ground (arith, c.picks))
            (ground (arith, c.holds)) (ground (arith, c.keeps))))
    where
      c :
          Counts n f i s.threads
            (record (s.threads i) { phase = running f true; cb_fiber = some f })
      c = counts n f i s.threads _ lt

  enter_callback-IsValid :
      (kept : Option ℕ) (cb : Cb) {s' : Scheduler Cb}
      → (s.threads i).phase ≡ picked (some (call cb))
      → (s.threads i).cb_fiber ≡ kept
      → enter_callback i cb kept s ≡ some s'
      → IsValid n s'
  unfolding enter_callback
  enter_callback-IsValid (some f) cb ph kf e =
      let (fresh, _, e') = >>=-eq-some (reset (some cb) (s.heap f)) _ e in
      let (g, entered, e'') = >>=-eq-some (swap_in fresh) _ e' in
      same_result lt v e'' (run_kept-IsValid f g cb ph kf (swap_in-state fresh entered))
  enter_callback-IsValid none cb ph kf e =
      let (g, entered, e') = >>=-eq-some (swap_in (create cb)) _ e in
      same_result lt v e'
        (run_new-IsValid (s.last_id + 1) g cb refl ph kf (swap_in-state (create cb) entered))

  pub act-IsValid :
      (o : Option (Task Cb)) {s' : Scheduler Cb}
      → (s.threads i).phase ≡ picked o
      → act i o s ≡ some s'
      → IsValid n s'
  unfolding act
  act-IsValid none ph e = enter_idle-IsValid lt v (s.threads i).idle_state ph e
  act-IsValid (some (fiber f)) ph e = act_fiber-IsValid f ph e
  act-IsValid (some (call cb)) ph e = enter_callback-IsValid (s.threads i).cb_fiber cb ph refl e
