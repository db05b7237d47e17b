-- ===== src/IoManager/Ending.antt =====
-- cancelAll, and when `IOManager::stopping` says that the manager may end.
use helens.Prelude.{
  ℕ, ◌≡◌, refl, sym, subst, ap, ◌∙◌, Bool, true, false, not, ◌&&◌, Option, none, some, List, [],
  arith, get_elem?, get_elem?-set_self, set, Bool-cases, inl, inr,
}
use helens.Prelude.Family.{put}
use helens.Prelude.Family.{put}
use helens.Epoll.{no_events, any, del, ctl}
use helens.IoManager.{IoManager, cancel_all, cancel_all_from, none_left}
use helens.IoManager.Views.{
  Waiter, View, nobody, is_there, events_of, context_of, watched, Shows, context_at, waiters,
  all_waiters-set,
}
use helens.IoManager.Steps.{ctl_failed, Does, nothing_done, kernel_at}
use helens.IoManager.Reported.{left_view, woken, Waited, trigger_bits, length-get_elem?}
use helens.IoManager.Handling.{woken_state, woken-Shows, and_true, and_false}
use helens.IoManager.Poll.{io_stopping}
use helens.Scheduler.{Scheduler, stopped}
use helens.Timer.{never}

module _ {Cb : Type 0} where
  -- All who wait for events of the descriptor wake up, the reader first.
  abbrev pub wake_all :
      Bool → ℕ → View Cb → List (View Cb) → Bool × List (View Cb) × List (Waiter Cb)
  wake_all true fd v vs = (true, set vs fd nobody, woken (events_of v) v)
  wake_all false fd v vs = (false, vs, [])

  left-nobody : (v : View Cb) → left_view (events_of v) v ≡ nobody
  left-nobody v = ground arith

  all-Waited : (v : View Cb) → Waited (events_of v) v
  all-Waited v = (λ e. e, λ e. e)

module _ {Cb : Type 0} {s : IoManager Cb} {vs : List (View Cb)} (shows : Shows s vs) (fd : ℕ)
    {v : View Cb} (at : get_elem? vs fd ≡ some v) where
  ctl-del :
      any (events_of v) ≡ true
      → ctl true del fd no_events s.kernel
        ≡ some (put s.kernel fd (watched (left_view (events_of v) v)))
  unfolding ctl
  ctl-del some_bit = ground (arith, kernel_at shows fd at)

  none_stays : none_left fd (woken_state shows fd at (events_of v)) ≡ true
  none_stays =
      rw
        (
          none_left,
          get_elem?-set_self s.contexts fd (context_of fd (left_view (events_of v) v))
              (length-get_elem? s.contexts fd (context_at shows fd at)),
        )
        (ap (λ w. not (any (events_of w))) (left-nobody v))

  cancel_hit :
      (ok : Bool)
      → any (events_of v) ≡ true
      → Does s (cancel_all_from ok fd (context_of fd v) s) (wake_all ok fd v vs)
  unfolding cancel_all_from
  cancel_hit false some_bit = rw (some_bit, cancel_all_from, ctl_failed) (nothing_done shows fd)
  cancel_hit true some_bit = (
    woken_state shows fd at (events_of v),
    rw
        (
          some_bit,
          cancel_all_from,
          ctl-del some_bit,
          trigger_bits fd (is_there v.reader) (is_there v.writer) v
              (record s { kernel = put s.kernel fd (watched (left_view (events_of v) v)) }) some_bit
              (context_at shows fd at) (all-Waited v),
        )
        (ap if_none_left none_stays),
    subst (λ w. Shows (woken_state shows fd at (events_of v)) (set vs fd w)) (left-nobody v)
        (woken-Shows shows fd at (events_of v) (all-Waited v)),
    refl,
  )
    where
      if_none_left : Bool → Option (Bool × IoManager Cb)
      if_none_left b = elim b [
        | true ↦ some (true, woken_state shows fd at (events_of v))
        | false ↦ none
      ]

  cancel_miss :
      (ok : Bool)
      → any (events_of v) ≡ false
      → Does s (cancel_all_from ok fd (context_of fd v) s) (wake_all false fd v vs)
  unfolding cancel_all_from
  cancel_miss ok no_bit = rw (no_bit, cancel_all_from) (nothing_done shows fd)

  -- cancelAll returns true exactly if a task waits for an event of the descriptor and epoll_ctl succeeds;
  -- then all who wait there wake up, the reader first, epoll watches the descriptor no longer, and the
  -- assertion at its end holds. Else nothing changes.
  pub cancel_all_lem :
      (ok : Bool) → Does s (cancel_all ok fd s) (wake_all (ok && any (events_of v)) fd v vs)
  unfolding cancel_all
  cancel_all_lem ok = elim (Bool-cases (any (events_of v))) [
    | inl some_bit ↦
        subst (λ b. Does s (cancel_all ok fd s) (wake_all b fd v vs))
          (sym (ap (λ b. ok && b) some_bit ∙ and_true ok))
          (rw (cancel_all, context_at shows fd at) (cancel_hit ok some_bit))
    | inr no_bit ↦
        subst (λ b. Does s (cancel_all ok fd s) (wake_all b fd v vs))
          (sym (ap (λ b. ok && b) no_bit ∙ and_false ok))
          (rw (cancel_all, context_at shows fd at) (cancel_miss ok no_bit))
  ]

nobody_there : {Cb : Type 0} (v : View Cb) → waiters v ≡ 0 → v ≡ nobody
nobody_there v e = ground arith

-- If stopping returns true, no timer is left and nobody waits for an event.
pub io_stopping_lem :
    {Cb : Type 0} {m : IoManager Cb} {vs : List (View Cb)} (next_timer : ℕ) (s : Scheduler Cb)
    → Shows m vs
    → io_stopping next_timer m s ≡ true
    → (next_timer ≡ never)
      × ((fd : ℕ) (v : View Cb) → get_elem? vs fd ≡ some v → v ≡ nobody)
      × (stopped s ≡ true)
unfolding io_stopping
io_stopping_lem {m} {vs} next_timer s shows e = (
  ground arith,
  λ fd v at.
      nobody_there v
        (omega (arith, none_pending, shows.pending, all_waiters-set vs fd v nobody at)),
  ground arith,
)
  where
    none_pending : m.pending ≡ 0
    none_pending = ground arith
