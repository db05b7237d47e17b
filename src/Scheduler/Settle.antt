-- ===== src/Scheduler/Settle.antt =====
-- What `Scheduler::run` does with a fiber by the state that it has left it in keeps the invariant.
use helens.Prelude.{
  ℕ, ◌+◌, ◌≡◌, ◌≢◌, ◌<◌, refl, Bool, true, false, none, some, [], ◌∷◌, ◌++◌, arith,
}
use helens.Prelude.Family.{put, sum_below}
use helens.Prelude.Maybe.{>>=-eq-some}
use helens.Fiber.{FiberState, reset}
use helens.Scheduler.{fiber, picking, settling, Thread, Scheduler, schedule, settle, reset_cb_fiber}
use helens.Scheduler.Share
use helens.Scheduler.Steps.{picks_of, holds_of, keeps_of}
use helens.Scheduler.Invariant.{IsValid, Counts, counts}
use helens.Scheduler.Moves.{same_result}
use helens.Scheduler.Returns.{release-IsValid, queued-append, only_holder}
use helens.Scheduler.Switches.{put_state, put_state_other, reset-state}

module _ {Cb : Type 0} {n i : ℕ} {s : Scheduler Cb} (lt : i < n) (v : IsValid n s) where
  module _ {f : ℕ} {b : Bool} (ph : (s.threads i).phase ≡ settling f b) where
    no_keep : keeps_of f (s.threads i) ≡ 0
    no_keep = (only_holder lt v f (ground (arith, ph))).1

    -- The thread that goes on as `t'` keeps what it has kept.
    module _ (t' : Thread Cb) (after : t'.phase ≡ picking)
        (idle_state : t'.idle_state ≡ (s.threads i).idle_state)
        (keeps : (g : ℕ) → keeps_of g t' ≡ keeps_of g (s.threads i)) where
      c : Counts n f i s.threads t'
      c = counts n f i s.threads t' lt

      picks_stay :
          sum_below (picks_of f) n (put s.threads i t') ≡ sum_below (picks_of f) n s.threads
      picks_stay = ground (arith, c.picks, ph)

      holds_fall :
          sum_below (holds_of f) n (put s.threads i t') + 1 ≡ sum_below (holds_of f) n s.threads
      holds_fall = ground (arith, c.holds, ph)

      keeps_stay :
          sum_below (keeps_of f) n (put s.threads i t') ≡ sum_below (keeps_of f) n s.threads
      keeps_stay = ground (arith, c.keeps, no_keep, keeps f)

      ended-IsValid :
          (s.heap f).state ≢ FiberState.exec
          → (s.heap f).state ≢ FiberState.ready
          → IsValid n (record s { threads = put s.threads i t' })
      ended-IsValid ne nr =
          release-IsValid lt v
            (record {
              before = ph;
              after = after;
              idle_state = idle_state;
              active = refl;
              last_id = refl;
              state = λ g _. refl;
              queue = λ g _. refl;
              keeps = λ g _. keeps g;
              kept = λ k. absurd (omega (arith, k, keeps f, no_keep));
            })
            refl (Share.released (v.fibers_valid f) _ ne nr refl picks_stay holds_fall keeps_stay)

      held-IsValid : IsValid n (record s {
        heap = put s.heap f (record (s.heap f) { state = FiberState.hold });
        threads = put s.threads i t';
      })
      held-IsValid =
          release-IsValid lt v
            (record {
              before = ph;
              after = after;
              idle_state = idle_state;
              active = refl;
              last_id = refl;
              state = λ g ne. put_state_other s.heap f _ g ne;
              queue = λ g _. refl;
              keeps = λ g _. keeps g;
              kept = λ k. absurd (omega (arith, k, keeps f, no_keep));
            })
            refl
            (Share.at_state (put_state s.heap f _ refl) (
              Share.released (v.fibers_valid f) FiberState.hold (λ e. cc) (λ e. cc) refl picks_stay
                holds_fall keeps_stay))

      ready-IsValid :
          (k : ℕ)
          → (s.heap f).state ≡ FiberState.ready
          → IsValid n (record s {
            fibers = s.fibers ++ record { task = fiber f; thread = none } ∷ [];
            tickles = k;
            threads = put s.threads i t';
          })
      ready-IsValid k e =
          release-IsValid lt v
            (record {
              before = ph;
              after = after;
              idle_state = idle_state;
              active = refl;
              last_id = refl;
              state = λ g _. refl;
              queue = λ g ne. ground (arith, queued-append g s.fibers (fiber f) none);
              keeps = λ g _. keeps g;
              kept = λ k. absurd (omega (arith, k, keeps f, no_keep));
            })
            refl
            (Share.requeued (v.fibers_valid f) (λ x. cc)
              (ground (arith, queued-append f s.fibers (fiber f) none)) picks_stay holds_fall
              keeps_stay)

  module _ {f : ℕ} (ph : (s.threads i).phase ≡ settling f true) where
    -- The call-back fiber has ended, and is kept for the next call-back.
    reset_cb_fiber-IsValid :
        {s' : Scheduler Cb}
        → (s.heap f).state ≢ FiberState.exec
        → reset_cb_fiber i f s ≡ some s'
        → IsValid n s'
    unfolding reset_cb_fiber
    reset_cb_fiber-IsValid ne e =
        let (g, was_reset, e') = >>=-eq-some (reset none (s.heap f)) _ e in
        let own = (v.threads_valid i lt).linked f (rw ph) in
        let c = counts n f i s.threads (record (s.threads i) { phase = picking }) lt in
        same_result lt v e' (
          release-IsValid lt v
            (record {
              before = ph;
              after = refl;
              idle_state = refl;
              active = refl;
              last_id = refl;
              state = λ h ne. put_state_other s.heap f g h ne;
              queue = λ g _. refl;
              keeps = λ g ne. rw (ph, own) (ground arith);
              kept = λ k. put_state s.heap f g (reset-state none (s.heap f) was_reset);
            })
            refl
            (Share.at_state (put_state s.heap f g (reset-state none (s.heap f) was_reset)) (
              Share.kept (v.fibers_valid f) ne refl (ground (arith, c.picks))
                (ground (arith, c.holds)) (ground (arith, c.keeps)))))

  settle_fiber :
      (f : ℕ) (st : FiberState) {s' : Scheduler Cb}
      → (s.threads i).phase ≡ settling f false
      → (s.heap f).state ≡ st
      → settle i f false st s ≡ some s'
      → IsValid n s'
  unfolding settle schedule
  settle_fiber f FiberState.ready ph st e =
      same_result lt v e (ready-IsValid ph _ refl refl (λ g. rw ph) _ st)
  settle_fiber f FiberState.term ph st e =
      same_result lt v e (ended-IsValid ph _ refl refl (λ g. rw ph) (λ x. cc) (λ x. cc))
  settle_fiber f FiberState.except ph st e =
      same_result lt v e (ended-IsValid ph _ refl refl (λ g. rw ph) (λ x. cc) (λ x. cc))
  settle_fiber f FiberState.init ph st e =
      same_result lt v e (held-IsValid ph _ refl refl (λ g. rw ph))
  settle_fiber f FiberState.hold ph st e =
      same_result lt v e (held-IsValid ph _ refl refl (λ g. rw ph))
  settle_fiber f FiberState.exec ph st e =
      same_result lt v e (held-IsValid ph _ refl refl (λ g. rw ph))

  settle_callback :
      (f : ℕ) (st : FiberState) {s' : Scheduler Cb}
      → (s.threads i).phase ≡ settling f true
      → (s.heap f).state ≡ st
      → settle i f true st s ≡ some s'
      → IsValid n s'
  unfolding settle schedule
  settle_callback f FiberState.ready ph st e =
      same_result lt v e (ready-IsValid ph _ refl refl (λ g. rw ph) _ st)
  settle_callback f FiberState.term ph st e = reset_cb_fiber-IsValid ph (λ x. cc) e
  settle_callback f FiberState.except ph st e = reset_cb_fiber-IsValid ph (λ x. cc) e
  settle_callback f FiberState.init ph st e =
      same_result lt v e (held-IsValid ph _ refl refl (λ g. rw ph))
  settle_callback f FiberState.hold ph st e =
      same_result lt v e (held-IsValid ph _ refl refl (λ g. rw ph))
  settle_callback f FiberState.exec ph st e =
      same_result lt v e (held-IsValid ph _ refl refl (λ g. rw ph))

  pub settle-IsValid :
      (f : ℕ) (b : Bool) {s' : Scheduler Cb}
      → (s.threads i).phase ≡ settling f b
      → settle i f b (s.heap f).state s ≡ some s'
      → IsValid n s'
  settle-IsValid f false ph e = settle_fiber f (s.heap f).state ph refl e
  settle-IsValid f true ph e = settle_callback f (s.heap f).state ph refl e
