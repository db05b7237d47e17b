-- ===== src/IoManager/Adding.antt =====
-- addEvent: the table of contexts that grows, and the task that waits from then on.
use helens.Prelude.{
  ℕ, zero, suc, ◌+◌, ◌-◌, ◌≡◌, ◌≤◌, ◌<◌, refl, sym, ap, ◌∙◌, Bool, true, false, Option, none, some,
  append-nil, List, [], ◌∷◌, ◌++◌, arith, get_elem?, get_or, replicate, ltb, leb, ◌*◌, ◌/◌, set,
  length, if◌then◌else◌, Bool-cases, inl, inr,
}
use helens.Prelude.Family.{put}
use helens.Prelude.Maybe.{◌>>=◌}
use helens.Scheduler.{Task, fiber, call}
use helens.Epoll.{Event, read, write, with_event}
use helens.FdContext.{Caller, new_context, get_context, put_context, all_null, arm}
use helens.IoManager.{IoManager, add_event, add_to, context_resize, grow, new_contexts, set_context}
use helens.IoManager.Views.{
  Waiter, View, nobody, waiter, put_waiter, events_of, context_of, watched, watched_at, all_waiters,
  contexts_from, length-contexts_from, Shows, context_at, Shows-set,
}
use helens.IoManager.Steps.{
  ctl-add, ctl_failed, has-waiter, has_no_waiter, waiters-add, Does, nothing_done, kernel_at,
}

abbrev pub task_of : {Cb : Type 0} → Caller → Option Cb → Task Cb
task_of me (some cb) = call cb
task_of me none = fiber me.fiber

module _ {Cb : Type 0} where
  -- The effect on the table where nobody waits for the event.
  abbrev pub add_waiter :
      Bool
      → ℕ
      → Event
      → Waiter Cb
      → List (View Cb)
      → View Cb
      → Bool × List (View Cb) × List (Waiter Cb)
  add_waiter true fd ev w vs v = (true, set vs fd (put_waiter ev (some w) v), [])
  add_waiter false fd ev w vs v = (false, vs, [])

  arm_context :
      (ev : Event) (fd : ℕ) (v : View Cb) (me : Caller) (cb : Option Cb)
      → put_context ev
          (arm me cb)
          (record (context_of fd v) { events = with_event ev (events_of v) })
        ≡ context_of fd (put_waiter ev (some (me.scheduler, task_of me cb)) v)
  arm_context read fd v me none = refl
  arm_context read fd v me (some cb) = refl
  arm_context write fd v me none = refl
  arm_context write fd v me (some cb) = refl

  all_null_lem :
      (ev : Event) (fd : ℕ) (v : View Cb)
      → waiter ev v ≡ none
      → all_null (get_context ev (context_of fd v)) ≡ true
  all_null_lem read fd v e = rw e
  all_null_lem write fd v e = rw e

module _ {Cb : Type 0} {s : IoManager Cb} {vs : List (View Cb)} (shows : Shows s vs) (fd : ℕ)
    (ev : Event) (me : Caller) (cb : Option Cb) {v : View Cb} (at : get_elem? vs fd ≡ some v) where
  abbrev joined : View Cb
  joined = put_waiter ev (some (me.scheduler, task_of me cb)) v

  abbrev added : IoManager Cb
  added = record {
    contexts = set s.contexts fd (context_of fd joined);
    pending = s.pending + 1;
    kernel = put s.kernel fd (watched joined);
    scheduled = s.scheduled;
  }

  added-Shows : waiter ev v ≡ none → Shows added (set vs fd joined)
  added-Shows free =
      Shows-set shows fd joined at refl
        (omega (arith, waiters-add ev v (me.scheduler, task_of me cb) free)) (ground arith)
        (λ g ne. ground arith)

  add_to_lem :
      (ok : Bool)
      → waiter ev v ≡ none
      → Does s
          (add_to ok me fd ev cb (context_of fd v) s)
          (add_waiter ok fd ev (me.scheduler, task_of me cb) vs v)
  unfolding add_to
  add_to_lem false free = rw (has_no_waiter ev v free, add_to, ctl_failed) (nothing_done shows fd)
  add_to_lem true free =
      rw
        (
          has_no_waiter ev v free,
          add_to,
          ctl-add ev fd v s.kernel (me.scheduler, task_of me cb) free (kernel_at shows fd at),
          all_null_lem ev fd v free,
        )
        (
          added,
          ap
              (λ c. some (
                true,
                set_context fd c (record s {
                  pending = s.pending + 1;
                  kernel = put s.kernel fd (watched joined);
                }),
              ))
              (arm_context ev fd v me cb),
          added-Shows free,
          sym (append-nil s.scheduled),
        )

  add_to_twice :
      {w : Waiter Cb}
      → (ok : Bool) → waiter ev v ≡ some w
      → add_to ok me fd ev cb (context_of fd v) s ≡ none
  unfolding add_to
  add_to_twice ok e = rw (has-waiter ev v e, add_to)

module _ {Cb : Type 0} where
  contexts_from-replicate :
      (from n : ℕ) → contexts_from {Cb = Cb} from (replicate n nobody) ≡ new_contexts from n
  unfolding new_contexts
  contexts_from-replicate from zero = refl
  contexts_from-replicate from (suc n) =
      ap (λ l. new_context from ∷ l) (contexts_from-replicate (from + 1) n)

  contexts_from-append :
      (from n : ℕ) (vs : List (View Cb))
      → contexts_from from (vs ++ replicate n nobody)
        ≡ contexts_from from vs ++ new_contexts (from + length vs) n
  contexts_from-append from n [] =
      contexts_from-replicate from n ∙ ap (λ k. new_contexts k n) (omega arith)
  contexts_from-append from n (v ∷ vs) =
      ap (λ l. context_of from v ∷ l)
        (contexts_from-append (from + 1) n vs
          ∙ ap (λ k. contexts_from (from + 1) vs ++ new_contexts k n) (omega arith))

  get-replicate : (n i : ℕ) → i < n → get_elem? (replicate n (nobody {Cb = Cb})) i ≡ some nobody
  get-replicate zero i h = elim h [ ]
  get-replicate (suc n) zero h = refl
  get-replicate (suc n) (suc i) h = get-replicate n i (omega arith)

  get-append :
      (vs : List (View Cb)) (n i : ℕ)
      → i < length vs + n
      → get_elem? (vs ++ replicate n nobody) i ≡ some (get_or vs i nobody)
  get-append [] n i h = get-replicate n i (omega arith)
  get-append (v ∷ vs) n zero h = refl
  get-append (v ∷ vs) n (suc i) h = get-append vs n i (omega arith)

  get_or_lem :
      (vs : List (View Cb)) (i : ℕ) → i < length vs → get_elem? vs i ≡ some (get_or vs i nobody)
  get_or_lem [] i h = elim h [ ]
  get_or_lem (v ∷ vs) zero h = refl
  get_or_lem (v ∷ vs) (suc i) h = get_or_lem vs i (omega arith)

  -- The descriptors that are new are not watched.
  watched-append :
      (vs : List (View Cb)) (n i : ℕ) → watched_at (vs ++ replicate n nobody) i ≡ watched_at vs i
  watched-append [] zero i = refl
  watched-append [] (suc n) zero = refl
  watched-append [] (suc n) (suc i) = watched-append [] n i
  watched-append (v ∷ vs) n zero = refl
  watched-append (v ∷ vs) n (suc i) = watched-append vs n i

  all_waiters-append :
      (vs : List (View Cb)) (n : ℕ) → all_waiters (vs ++ replicate n nobody) ≡ all_waiters vs
  all_waiters-append [] zero = refl
  all_waiters-append [] (suc n) = omega (arith, all_waiters-append [] n)
  all_waiters-append (v ∷ vs) n = omega (arith, all_waiters-append vs n)

  -- The table once it has a place for the descriptor.
  abbrev pub with_place : ℕ → List (View Cb) → List (View Cb)
  with_place fd vs =
      if ltb fd (length vs) then vs else vs ++ replicate (fd * 3 / 2 - length vs) nobody

module _ {Cb : Type 0} {s : IoManager Cb} {vs : List (View Cb)} (shows : Shows s vs) (fd : ℕ) where
  grow-Shows :
      2 ≤ fd → length vs ≤ fd → Shows (grow fd s) (vs ++ replicate (fd * 3 / 2 - length vs) nobody)
  unfolding grow context_resize
  grow-Shows h le = record {
    contexts =
        rw (shows.contexts, length-contexts_from 0 vs, not_leb)
          (sym (
            contexts_from-append 0 (fd * 3 / 2 - length vs) vs
            ∙ ap (λ k. contexts_from 0 vs ++ new_contexts k (fd * 3 / 2 - length vs))
                (omega arith)));
    pending = shows.pending ∙ sym (all_waiters-append vs _);
    kernel = λ g. shows.kernel g ∙ sym (watched-append vs _ g);
  }
    where
      not_leb : leb (fd * 3 / 2) (length vs) ≡ false
      not_leb = ground arith

  same_length : length s.contexts ≡ length vs
  same_length = ap length shows.contexts ∙ length-contexts_from 0 vs

  abbrev placed : IoManager Cb
  placed = if ltb fd (length s.contexts) then s else grow fd s

  with_place-Shows : (length vs ≤ fd → 2 ≤ fd) → Shows placed (with_place fd vs)
  with_place-Shows h = elim (Bool-cases (ltb fd (length vs))) [
    | inl fits ↦ rw (same_length, fits) shows
    | inr full ↦ rw (same_length, full) (grow-Shows (h (ground arith)) (ground arith))
  ]

  placed-scheduled : placed.scheduled ≡ s.scheduled
  unfolding grow
  placed-scheduled = ground arith

  pub get-with_place :
      (length vs ≤ fd → 2 ≤ fd) → get_elem? (with_place fd vs) fd ≡ some (get_or vs fd nobody)
  get-with_place h = elim (Bool-cases (ltb fd (length vs))) [
    | inl fits ↦ rw fits (get_or_lem vs fd (ground arith))
    | inr full ↦
        let big = h (ground arith) in
        let le : length vs ≤ fd = ground arith in
        rw full (get-append vs (fd * 3 / 2 - length vs) fd (omega arith))
  ]

  -- On a manager that shows a table, addEvent for an event that no task waits for returns 0 exactly if
  -- epoll_ctl succeeds, and then the caller's call-back, or the caller's fiber where there is none, waits
  -- for the event at the caller's scheduler; else it returns -1. The table has grown to have a place for
  -- the descriptor, no other entry changes, and nothing is scheduled. (Descriptors 0 and 1 have a place
  -- from the start.)
  pub add_event_lem :
      (ok : Bool) (ev : Event) (me : Caller) (cb : Option Cb)
      → (length vs ≤ fd → 2 ≤ fd)
      → waiter ev (get_or vs fd nobody) ≡ none
      → Does s (add_event ok me fd ev cb s) (
          add_waiter ok fd ev
            (me.scheduler, task_of me cb)
            (with_place fd vs)
            (get_or vs fd nobody))
  unfolding add_event
  add_event_lem ok ev me cb h free =
      let place = with_place-Shows h in
      let at = get-with_place h in
      let (s', e, shown, sched) = add_to_lem place fd ev me cb at ok free in
      (
        s',
        ap (λ o. o >>= λ c. add_to ok me fd ev cb c placed) (context_at place fd at) ∙ e,
        shown,
        sched
            ∙ ap
                (λ l.
                  l
                  ++ (add_waiter ok fd ev (me.scheduler, task_of me cb) (with_place fd vs)
                      (get_or vs fd nobody)).2)
                placed-scheduled,
      )

  -- A second task for an event that one waits for fails the assertion of addEvent.
  pub add_event_again :
      (ok : Bool) (ev : Event) (me : Caller) (cb : Option Cb) {w : Waiter Cb}
      → (length vs ≤ fd → 2 ≤ fd)
      → waiter ev (get_or vs fd nobody) ≡ some w
      → add_event ok me fd ev cb s ≡ none
  unfolding add_event
  add_event_again ok ev me cb h taken =
      let place = with_place-Shows h in
      let at = get-with_place h in
      ap (λ o. o >>= λ c. add_to ok me fd ev cb c placed) (context_at place fd at)
      ∙ add_to_twice place fd ev me cb at ok taken
