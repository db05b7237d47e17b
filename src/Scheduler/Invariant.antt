-- ===== src/Scheduler/Invariant.antt =====
-- What every step of the scheduler keeps: who may hold a fiber, and what m_activeThreadCount counts.
use helens.Prelude.{
  ℕ, ◌+◌, ◌≡◌, ◌≢◌, ◌≤◌, ◌<◌, sym, ◌∙◌, subst, Bool, ◌⊎◌, inl, inr, some, arith, ℕ_discrete,
}
use helens.Prelude.Family.{put, sum_below, sum_below-put, le-sum_below, add-le-sum_below}
use helens.Fiber.{Fiber, FiberState}
use helens.Scheduler.{Phase, idling, running, Thread, Scheduler}
use helens.Scheduler.Share.{Share}
use helens.Scheduler.Steps.{queued, picks_of, holds_of, keeps_of, busy_of, phase_callback, owners}

module _ {Cb : Type 0} where
  abbrev pub FiberValid : ℕ → ℕ → Scheduler Cb → Type 0
  FiberValid n f s =
      Share f s.last_id (queued f s.fibers) (sum_below (picks_of f) n s.threads)
        (sum_below (holds_of f) n s.threads) (sum_below (keeps_of f) n s.threads) (s.heap f).state

  -- What a thread knows of the fibers that it holds or keeps.
  pub record ThreadValid (heap : ℕ → Fiber Cb) (t : Thread Cb) : Type 0 where
    pub in_exec : (f : ℕ) (b : Bool) → t.phase ≡ running f b → (heap f).state ≡ FiberState.exec
    pub linked : (f : ℕ) → phase_callback t.phase ≡ some f → t.cb_fiber ≡ some f
    pub kept : (f : ℕ) → keeps_of f t ≡ 1 → (heap f).state ≡ FiberState.init
    pub resting : t.idle_state ≡ FiberState.exec → t.phase ≡ idling

  pub record IsValid (n : ℕ) (s : Scheduler Cb) : Type 0 where
    pub counted : s.active ≡ sum_below busy_of n s.threads
    pub fibers_valid : (f : ℕ) → FiberValid n f s
    pub threads_valid : (i : ℕ) → i < n → ThreadValid s.heap (s.threads i)

  -- The sums once thread `i` has become `t'`.
  pub record Counts (n f i : ℕ) (threads : ℕ → Thread Cb) (t' : Thread Cb) : Type 0 where
    pub picks :
        sum_below (picks_of f) n (put threads i t') + picks_of f (threads i)
        ≡ sum_below (picks_of f) n threads + picks_of f t'
    pub holds :
        sum_below (holds_of f) n (put threads i t') + holds_of f (threads i)
        ≡ sum_below (holds_of f) n threads + holds_of f t'
    pub keeps :
        sum_below (keeps_of f) n (put threads i t') + keeps_of f (threads i)
        ≡ sum_below (keeps_of f) n threads + keeps_of f t'
    pub picks_le : picks_of f (threads i) ≤ sum_below (picks_of f) n threads
    pub holds_le : holds_of f (threads i) ≤ sum_below (holds_of f) n threads
    pub keeps_le : keeps_of f (threads i) ≤ sum_below (keeps_of f) n threads

  pub counts :
      (n f i : ℕ) (threads : ℕ → Thread Cb) (t' : Thread Cb) → i < n → Counts n f i threads t'
  counts n f i threads t' h = record {
    picks = sum_below-put (picks_of f) n threads i t' h;
    holds = sum_below-put (holds_of f) n threads i t' h;
    keeps = sum_below-put (keeps_of f) n threads i t' h;
    picks_le = le-sum_below (picks_of f) n threads i h;
    holds_le = le-sum_below (holds_of f) n threads i h;
    keeps_le = le-sum_below (keeps_of f) n threads i h;
  }

  -- Thread `i` goes on as `t'`, and of the fibers only `f` may change.
  pub record Change (n i f : ℕ) (s s' : Scheduler Cb) (t' : Thread Cb) : Type 0 where
    pub active : s'.active + busy_of (s.threads i) ≡ s.active + busy_of t'
    pub older : s.last_id ≤ s'.last_id
    pub younger : (g : ℕ) → g ≢ f → g ≤ s'.last_id → g ≤ s.last_id
    pub state : (g : ℕ) → g ≢ f → (s'.heap g).state ≡ (s.heap g).state
    pub queue : (g : ℕ) → g ≢ f → queued g s'.fibers ≡ queued g s.fibers
    pub picks : (g : ℕ) → g ≢ f → picks_of g t' ≡ picks_of g (s.threads i)
    pub holds : (g : ℕ) → g ≢ f → holds_of g t' ≡ holds_of g (s.threads i)
    pub keeps : (g : ℕ) → g ≢ f → keeps_of g t' ≡ keeps_of g (s.threads i)
    pub mine : ThreadValid s'.heap t'
    pub alone :
        ((s'.heap f).state ≡ (s.heap f).state)
        ⊎ (owners n f s ≡ holds_of f (s.threads i) + keeps_of f (s.threads i))

  -- The sums of another fiber stay.
  record Stays (n g i : ℕ) (threads : ℕ → Thread Cb) (t' : Thread Cb) : Type 0 where
    pub picks : sum_below (picks_of g) n (put threads i t') ≡ sum_below (picks_of g) n threads
    pub holds : sum_below (holds_of g) n (put threads i t') ≡ sum_below (holds_of g) n threads
    pub keeps : sum_below (keeps_of g) n (put threads i t') ≡ sum_below (keeps_of g) n threads

  stays :
      (n g i : ℕ) (threads : ℕ → Thread Cb) (t' : Thread Cb)
      → i < n
      → picks_of g t' ≡ picks_of g (threads i)
      → holds_of g t' ≡ holds_of g (threads i)
      → keeps_of g t' ≡ keeps_of g (threads i)
      → Stays n g i threads t'
  stays n g i threads t' lt p h k =
      let c = counts n g i threads t' lt in
      record {
        picks = omega (arith, c.picks);
        holds = omega (arith, c.holds);
        keeps = omega (arith, c.keeps);
      }

  others_out :
      (n i f j : ℕ) (s : Scheduler Cb)
      → i < n
      → j < n
      → i ≢ j
      → owners n f s ≡ holds_of f (s.threads i) + keeps_of f (s.threads i)
      → holds_of f (s.threads j) + keeps_of f (s.threads j) ≡ 0
  others_out n i f j s lt lt' ne e = omega (
    arith,
    add-le-sum_below (holds_of f) n s.threads i j lt lt' ne,
    add-le-sum_below (keeps_of f) n s.threads i j lt lt' ne,
  )

  module _ {n i f : ℕ} {s s' : Scheduler Cb} {t' : Thread Cb} (lt : i < n) (v : IsValid n s) where
    FiberValid-other :
        s'.threads ≡ put s.threads i t' → Change n i f s s' t' → (g : ℕ) → g ≢ f → FiberValid n g s'
    FiberValid-other e c g ne =
        let k = stays n g i s.threads t' lt (c.picks g ne) (c.holds g ne) (c.keeps g ne) in
        let old = v.fibers_valid g in
        record {
          claimed = rw (e, k.picks, c.queue g ne) old.claimed;
          owned = rw (e, k.picks, k.holds, k.keeps) old.owned;
          both = rw (e, k.picks, k.holds, k.keeps, c.queue g ne, c.state g ne) old.both;
          held = λ pos le ex.
              rw (e, k.holds) (old.held pos (c.younger g ne le) (sym (c.state g ne) ∙ ex));
          waits =
              rw (e, k.picks, k.holds, c.queue g ne, c.state g ne)
                (λ pos le rd. old.waits pos (c.younger g ne le) rd);
          known =
              rw (e, k.picks, k.holds, k.keeps, c.queue g ne)
                (λ h. ((old.known h).0, omega (arith, (old.known h).1, c.older)));
        }

    -- What thread `j` holds or keeps has not changed.
    state-other :
        Change n i f s s' t'
        → (j : ℕ) → j < n
        → i ≢ j
        → (g : ℕ) → 1 ≤ holds_of g (s.threads j) + keeps_of g (s.threads j)
        → (s'.heap g).state ≡ (s.heap g).state
    state-other c j lt' ne g own = elim (ℕ_discrete g f) [
      | no other ↦ c.state g other
      | yes same ↦ elim c.alone [
        | inl e ↦ rw same e
        | inr e ↦ absurd (omega (arith, others_out n i f j s lt lt' ne e, rw same at own))
      ]
    ]

    ThreadValid-other :
        Change n i f s s' t' → (j : ℕ) → j < n → i ≢ j → ThreadValid s'.heap (s.threads j)
    ThreadValid-other c j lt' ne = record {
      in_exec =
          λ g b e. state-other c j lt' ne g (ground arith) ∙ (v.threads_valid j lt').in_exec g b e;
      linked = (v.threads_valid j lt').linked;
      kept = λ g e. state-other c j lt' ne g (omega arith) ∙ (v.threads_valid j lt').kept g e;
      resting = (v.threads_valid j lt').resting;
    }

    pub Change-IsValid :
        s'.threads ≡ put s.threads i t' → Change n i f s s' t' → FiberValid n f s' → IsValid n s'
    Change-IsValid e c here = record {
      counted =
          rw e (omega (arith, v.counted, sum_below-put busy_of n s.threads i t' lt, c.active));
      fibers_valid = λ g. elim (ℕ_discrete g f) [
        | yes same ↦ subst (λ h. FiberValid n h s') (sym same) here
        | no ne ↦ FiberValid-other e c g ne
      ];
      threads_valid = λ j lt'. elim (ℕ_discrete i j) [
        | yes same ↦ subst (λ t. ThreadValid s'.heap t) (sym (at_self j same)) c.mine
        | no ne ↦
            subst (λ t. ThreadValid s'.heap t) (sym (at_other j ne)) (ThreadValid-other c j lt' ne)
      ];
    }
      where
        at_self : (j : ℕ) → i ≡ j → s'.threads j ≡ t'
        at_self j same = rw e (ground arith)

        at_other : (j : ℕ) → i ≢ j → s'.threads j ≡ s.threads j
        at_other j ne = rw e (ground arith)

  -- Thread `i` goes on as `t'`, and no fiber changes.
  pub record Quiet (n i : ℕ) (s s' : Scheduler Cb) (t' : Thread Cb) : Type 0 where
    pub active : s'.active + busy_of (s.threads i) ≡ s.active + busy_of t'
    pub last_id : s'.last_id ≡ s.last_id
    pub state : (g : ℕ) → (s'.heap g).state ≡ (s.heap g).state
    pub queue : (g : ℕ) → queued g s'.fibers ≡ queued g s.fibers
    pub picks : (g : ℕ) → picks_of g t' ≡ picks_of g (s.threads i)
    pub holds : (g : ℕ) → holds_of g t' ≡ holds_of g (s.threads i)
    pub keeps : (g : ℕ) → keeps_of g t' ≡ keeps_of g (s.threads i)
    pub mine : ThreadValid s'.heap t'

  module _ {n i : ℕ} {s s' : Scheduler Cb} {t' : Thread Cb} (lt : i < n) (v : IsValid n s) where
    Quiet-Change : Quiet n i s s' t' → (f : ℕ) → Change n i f s s' t'
    Quiet-Change q f = record {
      active = q.active;
      older = omega (arith, q.last_id);
      younger = λ g _ le. omega (arith, q.last_id);
      state = λ g _. q.state g;
      queue = λ g _. q.queue g;
      picks = λ g _. q.picks g;
      holds = λ g _. q.holds g;
      keeps = λ g _. q.keeps g;
      mine = q.mine;
      alone = inl (q.state f);
    }

    pub Quiet-IsValid : s'.threads ≡ put s.threads i t' → Quiet n i s s' t' → IsValid n s'
    Quiet-IsValid e q =
        Change-IsValid lt v e (Quiet-Change q 0)
          (FiberValid-other lt v e (Quiet-Change q 1) 0 (omega arith))

  -- A thread that is not in its idle fiber goes on in another phase, with the same call-back fiber.
  pub ThreadValid-phase :
      {heap heap' : ℕ → Fiber Cb} {t : Thread Cb} (p : Phase Cb)
      → ThreadValid heap t
      → ((f : ℕ) (b : Bool) → p ≡ running f b → (heap' f).state ≡ FiberState.exec)
      → phase_callback p ≡ phase_callback t.phase
      → t.phase ≢ idling
      → ((g : ℕ) → keeps_of g t ≡ 1 → (heap' g).state ≡ (heap g).state)
      → ThreadValid heap' (record t { phase = p })
  ThreadValid-phase p v runs same awake state = record {
    in_exec = runs;
    linked = λ f e. v.linked f (sym same ∙ e);
    kept = λ g e. state g (rw same at e) ∙ v.kept g (rw same at e);
    resting = λ e. absurd (awake (v.resting e));
  }

  pub busy-le-active :
      {n i : ℕ} {s : Scheduler Cb} → i < n → IsValid n s → busy_of (s.threads i) ≤ s.active
  busy-le-active {n} {i} {s} lt v = omega (arith, v.counted, le-sum_below busy_of n s.threads i lt)
