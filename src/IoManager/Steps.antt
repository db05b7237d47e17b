-- ===== src/IoManager/Steps.antt =====
-- The parts of the operations of an IOManager on contexts that show a table of waiters.
use helens.Prelude.{
  ℕ, ◌+◌, ◌-◌, ◌≡◌, ◌≤◌, refl, sym, ap, ◌∙◌, Bool, true, false, Option, none, some, append-nil,
  List, [], ◌∷◌, ◌++◌, arith, get_elem?, set, if◌then◌else◌, Option-cases, inl, inr,
}
use helens.Prelude.Family.{put}
use helens.Scheduler.{Task, fiber, call}
use helens.Epoll.{
  Event, read, write, Events, has, with_event, without, any, CtlOp, add, mod_, del, Kernel, ctl,
}
use helens.FdContext.{null, put_context, trigger_event}
use helens.IoManager.{IoManager, cancel_from, trigger}
use helens.IoManager.Views.{
  Waiter, View, nobody, waiter, put_waiter, events_of, context_of, watched, watched_in, Shows,
  context_at, Shows-set, waiters, all_waiters-set,
}

pub ctl_failed : (op : CtlOp) (fd : ℕ) (e : Events) (k : Kernel) → ctl false op fd e k ≡ none
unfolding ctl
ctl_failed op fd e k = refl

module _ {Cb : Type 0} where
  pub trigger_event_lem :
      (ev : Event) (fd s : ℕ) (t : Task Cb) (v : View Cb)
      → waiter ev v ≡ some (s, t)
      → trigger_event ev (context_of fd v)
        ≡ some ((s, t) ∷ [], context_of fd (put_waiter ev none v))
  unfolding trigger_event
  trigger_event_lem read fd s (fiber f) v e = ground arith
  trigger_event_lem read fd s (call cb) v e = ground arith
  trigger_event_lem write fd s (fiber f) v e = ground arith
  trigger_event_lem write fd s (call cb) v e = ground arith

  -- The call of epoll_ctl when a waiter goes.
  pub ctl_remove :
      (ev : Event) (fd : ℕ) (v : View Cb) (k : Kernel) {w : Waiter Cb}
      → waiter ev v ≡ some w
      → k fd ≡ watched v
      → ctl true
          (if any (without ev (events_of v)) then mod_ else del)
          fd
          (without ev (events_of v))
          k
        ≡ some (put k fd (watched (put_waiter ev none v)))
  unfolding ctl
  ctl_remove read fd v k e h = elim (Option-cases v.writer) [
    | inl gone ↦ ground arith
    | inr (w, there) ↦ ground arith
  ]
  ctl_remove write fd v k e h = elim (Option-cases v.reader) [
    | inl gone ↦ ground arith
    | inr (w, there) ↦ ground arith
  ]

  -- The call of epoll_ctl when a waiter comes.
  pub ctl-add :
      (ev : Event) (fd : ℕ) (v : View Cb) (k : Kernel) (w : Waiter Cb)
      → waiter ev v ≡ none
      → k fd ≡ watched v
      → ctl true (if any (events_of v) then mod_ else add) fd (with_event ev (events_of v)) k
        ≡ some (put k fd (watched (put_waiter ev (some w) v)))
  unfolding ctl
  ctl-add read fd v k w e h = elim (Option-cases v.writer) [
    | inl gone ↦ ground arith
    | inr (w, there) ↦ ground arith
  ]
  ctl-add write fd v k w e h = elim (Option-cases v.reader) [
    | inl gone ↦ ground arith
    | inr (w, there) ↦ ground arith
  ]

  pub clear_context :
      (ev : Event) (fd : ℕ) (v : View Cb)
      → put_context ev null (record (context_of fd v) { events = without ev (events_of v) })
        ≡ context_of fd (put_waiter ev none v)
  clear_context read fd v = refl
  clear_context write fd v = refl

  pub has-waiter :
      (ev : Event) (v : View Cb) {w : Waiter Cb}
      → waiter ev v ≡ some w
      → has ev (events_of v) ≡ true
  has-waiter read v e = rw e
  has-waiter write v e = rw e

  pub has_no_waiter : (ev : Event) (v : View Cb) → waiter ev v ≡ none → has ev (events_of v) ≡ false
  has_no_waiter read v e = rw e
  has_no_waiter write v e = rw e

  pub waiters-remove :
      (ev : Event) (v : View Cb) {w : Waiter Cb}
      → waiter ev v ≡ some w
      → waiters v ≡ waiters (put_waiter ev none v) + 1
  waiters-remove read v e = ground arith
  waiters-remove write v e = ground arith

  pub waiters-add :
      (ev : Event) (v : View Cb) (w : Waiter Cb)
      → waiter ev v ≡ none
      → waiters (put_waiter ev (some w) v) ≡ waiters v + 1
  waiters-add read v w e = ground arith
  waiters-add write v w e = ground arith

-- The operations on the table of those who wait: the result, the table afterwards, and who is woken.
module _ {Cb : Type 0} where
  abbrev pub remove_one :
      Bool
      → Bool
      → ℕ
      → Event
      → List (View Cb)
      → View Cb
      → Option (Waiter Cb)
      → Bool × List (View Cb) × List (Waiter Cb)
  remove_one ok wakes fd ev vs v none = (false, vs, [])
  remove_one false wakes fd ev vs v (some w) = (false, vs, [])
  remove_one true wakes fd ev vs v (some w) =
      (true, set vs fd (put_waiter ev none v), if wakes then w ∷ [] else [])

  abbrev pub remove_at :
      Bool
      → Bool
      → ℕ
      → Event
      → List (View Cb)
      → Option (View Cb)
      → Bool × List (View Cb) × List (Waiter Cb)
  remove_at ok wakes fd ev vs none = (false, vs, [])
  remove_at ok wakes fd ev vs (some v) = remove_one ok wakes fd ev vs v (waiter ev v)

  -- `ok` says whether epoll_ctl succeeds, `wakes` whether the task is scheduled.
  abbrev pub remove_waiter :
      Bool → Bool → ℕ → Event → List (View Cb) → Bool × List (View Cb) × List (Waiter Cb)
  remove_waiter ok wakes fd ev vs = remove_at ok wakes fd ev vs (get_elem? vs fd)

  -- A result of the code that does to the table what `effect` says.
  abbrev pub Does :
      IoManager Cb
      → Option (Bool × IoManager Cb)
      → Bool × List (View Cb) × List (Waiter Cb)
      → Type 0
  Does s r effect =
      (s' : IoManager Cb) × (r ≡ some (effect.0, s'))
      × Shows s' effect.1
      × (s'.scheduled ≡ s.scheduled ++ effect.2)

module _ {Cb : Type 0} {s : IoManager Cb} {vs : List (View Cb)} (shows : Shows s vs) (fd : ℕ) where
  pub nothing_done : Does s (some (false, s)) (false, vs, [])
  nothing_done = (s, refl, shows, sym (append-nil s.scheduled))

  pub kernel_at : {v : View Cb} → get_elem? vs fd ≡ some v → s.kernel fd ≡ watched v
  kernel_at e = shows.kernel fd ∙ ap watched_in e

  module _ (ev : Event) {v : View Cb} {w : Waiter Cb} (at : get_elem? vs fd ≡ some v)
      (e : waiter ev v ≡ some w) where
    abbrev pub left : View Cb
    left = put_waiter ev none v

    -- `scheduled` is what has gone back to the schedulers.
    abbrev pub removed : List (Waiter Cb) → IoManager Cb
    removed scheduled = record {
      contexts = set s.contexts fd (context_of fd left);
      pending = s.pending - 1;
      kernel = put s.kernel fd (watched left);
      scheduled = scheduled;
    }

    pub waiters-le-pending : waiters v ≤ s.pending
    waiters-le-pending = omega (arith, shows.pending, all_waiters-set vs fd v nobody at)

    pub removed-Shows : (scheduled : List (Waiter Cb)) → Shows (removed scheduled) (set vs fd left)
    removed-Shows scheduled =
        Shows-set shows fd left at refl (omega (arith, waiters-remove ev v e, waiters-le-pending))
          (ground arith) (λ g ne. ground arith)

    pub cancel_from_lem :
        cancel_from true fd ev (context_of fd v) s ≡ some (true, removed (s.scheduled ++ w ∷ []))
    unfolding cancel_from trigger
    cancel_from_lem = rw (
      has-waiter ev v e,
      cancel_from,
      ctl_remove ev fd v s.kernel e (kernel_at at),
      context_at shows fd at,
      trigger_event_lem ev fd w.0 w.1 v e,
    )
