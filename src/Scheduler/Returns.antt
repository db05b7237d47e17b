-- ===== src/Scheduler/Returns.antt =====
-- The steps of a fiber that leaves its thread, and of the thread that deals with its state, keep the
-- invariant.
use helens.Prelude.{
  ℕ, ◌+◌, ◌≡◌, ◌≢◌, ◌<◌, refl, sym, Bool, ◌⊎◌, inl, inr, Option, some, List, [], ◌∷◌, ◌++◌, arith,
  ◌∙◌, ℕ_discrete,
}
use helens.Prelude.Family.{put}
use helens.Fiber.{Fiber, FiberState}
use helens.Scheduler.{Task, FiberAndThread, picking, running, swapped, settling, Thread, Scheduler}
use helens.Scheduler.Share
use helens.Scheduler.Steps.{
  queued, holds_of, keeps_of, owners, Unclaimed, change_fiber, phase_callback, is_task,
}
use helens.Scheduler.Invariant.{
  FiberValid, IsValid, Counts, counts, Change-IsValid, ThreadValid-phase,
}
use helens.Scheduler.Switches.{put_state, put_state_other, ne_of_kept}

module _ {Cb : Type 0} {n i : ℕ} {s : Scheduler Cb} (lt : i < n) (v : IsValid n s) where
  -- A thread that holds a fiber is alone with it, and keeps another one.
  pub only_holder :
      (f : ℕ)
      → holds_of f (s.threads i) ≡ 1
      → (owners n f s ≡ holds_of f (s.threads i) + keeps_of f (s.threads i))
        × (keeps_of f (s.threads i) ≡ 0)
  only_holder f h =
      let c = counts n f i s.threads (s.threads i) lt in
      let old = v.fibers_valid f in
      (
        omega (arith, h, c.holds_le, c.keeps_le, old.owned),
        omega (arith, h, c.holds_le, c.keeps_le, old.owned),
      )

  holds_self : (f : ℕ) (b : Bool) → (s.threads i).phase ≡ running f b → holds_of f (s.threads i) ≡ 1
  holds_self f b ph = ground arith

  pub change-IsValid :
      (f : ℕ) (b : Bool) (g : Fiber Cb)
      → (s.threads i).phase ≡ running f b
      → (g.state ≡ (s.heap f).state) ⊎ ((g.state ≢ FiberState.exec) × Unclaimed n f s)
      → IsValid n (change_fiber i f b g s)
  change-IsValid f b g ph how =
      Change-IsValid {f = f} lt v refl
        (record {
          active = rw ph;
          older = omega arith;
          younger = λ g ne h. h;
          state = λ h ne. put_state_other s.heap f g h ne;
          queue = λ h ne. refl;
          picks = λ h ne. rw ph;
          holds = λ h ne. rw ph;
          keeps = λ h ne. ground arith;
          mine =
              ThreadValid-phase (swapped f b) (v.threads_valid i lt) (λ h b e. cc) (ground arith)
                (λ q. cc)
                (λ h k.
                  put_state_other s.heap f g h
                    (ne_of_kept f h (s.threads i) (only_holder f (holds_self f b ph)).1 k));
          alone = inr (only_holder f (holds_self f b ph)).0;
        })
        (Share.at_state (put_state s.heap f g refl) (elim how [
          | inl same ↦ Share.at_state same (
              Share.unchanged (v.fibers_valid f) refl (ground (arith, c.picks))
                (ground (arith, c.holds)) (ground (arith, c.keeps)))
          | inr new ↦
              Share.yielded (v.fibers_valid f) g.state (ground (arith, c.holds_le)) new.1 new.0 refl
                (ground (arith, c.picks)) (ground (arith, c.holds)) (ground (arith, c.keeps))
        ]))
    where
      c : Counts n f i s.threads (record (s.threads i) { phase = swapped f b })
      c = counts n f i s.threads _ lt

module _ {Cb : Type 0} where
  pub queued-append :
      (g : ℕ) (es : List (FiberAndThread Cb)) (t : Task Cb) (thread : Option ℕ)
      → queued g (es ++ record { task = t; thread = thread } ∷ []) ≡ queued g es + is_task g t
  queued-append g [] t thread = omega arith
  queued-append g (e ∷ es) t thread = omega (arith, queued-append g es t thread)

-- A thread that is done with the fiber `f` goes on as `t'`.
pub record Release {Cb : Type 0} (n i f : ℕ) (b : Bool) (s s' : Scheduler Cb) (t' : Thread Cb)
    : Type 0 where
  pub before : (s.threads i).phase ≡ settling f b
  pub after : t'.phase ≡ picking
  pub idle_state : t'.idle_state ≡ (s.threads i).idle_state
  pub active : s'.active ≡ s.active
  pub last_id : s'.last_id ≡ s.last_id
  pub state : (g : ℕ) → g ≢ f → (s'.heap g).state ≡ (s.heap g).state
  pub queue : (g : ℕ) → g ≢ f → queued g s'.fibers ≡ queued g s.fibers
  pub keeps : (g : ℕ) → g ≢ f → keeps_of g t' ≡ keeps_of g (s.threads i)
  pub kept : keeps_of f t' ≡ 1 → (s'.heap f).state ≡ FiberState.init

module _ {Cb : Type 0} {n i : ℕ} {s : Scheduler Cb} (lt : i < n) (v : IsValid n s) where
  pub release-IsValid :
      {f : ℕ} {b : Bool} {s' : Scheduler Cb} {t' : Thread Cb}
      → Release n i f b s s' t'
      → s'.threads ≡ put s.threads i t'
      → FiberValid n f s'
      → IsValid n s'
  release-IsValid {f} {b} {s'} {t'} r e here =
      Change-IsValid {f = f} lt v e
        (record {
          active = ground (arith, r.before, r.after, r.active);
          older = omega (arith, r.last_id);
          younger = λ g ne h. omega (arith, r.last_id);
          state = r.state;
          queue = r.queue;
          picks = λ g ne. rw (r.before, r.after);
          holds = λ g ne. rw (r.before, r.after) (ground arith);
          keeps = r.keeps;
          mine = record {
            in_exec = λ g b e. cc (r.after);
            linked = λ g e. absurd_callback g e;
            kept = λ g k. elim (ℕ_discrete g f) [
              | yes same ↦ rw same (r.kept (rw same at k))
              | no ne ↦ r.state g ne ∙ (v.threads_valid i lt).kept g (sym (r.keeps g ne) ∙ k)
            ];
            resting = λ e. ground (arith, (v.threads_valid i lt).resting);
          };
          alone = inr (only_holder lt v f (ground (arith, r.before))).0;
        })
        here
    where
      absurd_callback : (g : ℕ) → phase_callback t'.phase ≡ some g → t'.cb_fiber ≡ some g
      absurd_callback g e = cc (r.after)
