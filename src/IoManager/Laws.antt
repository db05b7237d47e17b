-- ===== src/IoManager/Laws.antt =====
-- What delEvent, cancelEvent and addEvent do to who waits for what.
use helens.Prelude.{
  ℕ, ◌-◌, ◌≡◌, refl, sym, ap, Bool, true, false, none, some, append-nil, List, [], ◌∷◌, ◌++◌,
  get_elem?, Option-cases, inl, inr,
}
use helens.Prelude.Family.{put}
use helens.Prelude.Family.{put}
use helens.Epoll.{Event}
use helens.IoManager.{IoManager, cancel_event, cancel_from, del_event, del_from, set_context}
use helens.IoManager.Views.{
  Waiter, View, waiter, put_waiter, context_of, watched, Shows, context_at, no_context_at,
}
use helens.IoManager.Steps.{
  ctl_remove, ctl_failed, has-waiter, has_no_waiter, remove_waiter, Does, nothing_done, kernel_at,
  removed-Shows, cancel_from_lem, removed, clear_context,
}

module _ {Cb : Type 0} {s : IoManager Cb} {vs : List (View Cb)} (shows : Shows s vs) (fd : ℕ)
    (ev : Event) where
  module _ {v : View Cb} (at : get_elem? vs fd ≡ some v) where
    -- On a descriptor with a context, by who waits there.
    cancel_from_cases :
        (ok : Bool)
        → Does s (cancel_from ok fd ev (context_of fd v) s) (remove_waiter ok true fd ev vs)
    unfolding cancel_from
    cancel_from_cases ok = elim (Option-cases (waiter ev v)) [
      | inl free ↦ rw (at, free, has_no_waiter ev v free, cancel_from) (nothing_done shows fd)
      | inr (w, e) ↦ by_ok ok w e
    ]
      where
        by_ok :
            (ok : Bool) (w : Waiter Cb)
            → waiter ev v ≡ some w
            → Does s (cancel_from ok fd ev (context_of fd v) s) (remove_waiter ok true fd ev vs)
        by_ok false w e =
            rw (at, e, has-waiter ev v e, cancel_from, ctl_failed) (nothing_done shows fd)
        by_ok true w e =
            rw (at, e, cancel_from_lem shows fd ev at e)
              (
                removed shows fd ev at e (s.scheduled ++ w ∷ []),
                refl,
                removed-Shows shows fd ev at e (s.scheduled ++ w ∷ []),
                refl,
              )

    del_from_cases :
        (ok : Bool)
        → Does s (some (del_from ok fd ev (context_of fd v) s)) (remove_waiter ok false fd ev vs)
    unfolding del_from
    del_from_cases ok = elim (Option-cases (waiter ev v)) [
      | inl free ↦ rw (at, free, has_no_waiter ev v free, del_from) (nothing_done shows fd)
      | inr (w, e) ↦ by_ok ok w e
    ]
      where
        by_ok :
            (ok : Bool) (w : Waiter Cb)
            → waiter ev v ≡ some w
            → Does s
                (some (del_from ok fd ev (context_of fd v) s))
                (remove_waiter ok false fd ev vs)
        by_ok false w e =
            rw (at, e, has-waiter ev v e, del_from, ctl_failed) (nothing_done shows fd)
        by_ok true w e =
            rw
              (
                at,
                e,
                has-waiter ev v e,
                del_from,
                ctl_remove ev fd v s.kernel e (kernel_at shows fd at),
              )
              (
                removed shows fd ev at e s.scheduled,
                ap
                    (λ c. some (
                      true,
                      set_context fd c (record s {
                        pending = s.pending - 1;
                        kernel = put s.kernel fd (watched (put_waiter ev none v));
                      }),
                    ))
                    (clear_context ev fd v),
                removed-Shows shows fd ev at e s.scheduled,
                sym (append-nil s.scheduled),
              )

  -- On a manager that shows a table, cancelEvent returns true exactly if a task waits for the event and
  -- epoll_ctl succeeds; that task alone is then given back to its scheduler and waits no longer, and the
  -- manager shows the table without it. Else nothing changes.
  pub cancel_event_lem :
      (ok : Bool) → Does s (cancel_event ok fd ev s) (remove_waiter ok true fd ev vs)
  unfolding cancel_event
  cancel_event_lem ok = elim (Option-cases (get_elem? vs fd)) [
    | inl gone ↦ rw (gone, cancel_event, no_context_at shows fd gone) (nothing_done shows fd)
    | inr (v, at) ↦ rw (cancel_event, context_at shows fd at) (cancel_from_cases at ok)
  ]

  -- delEvent removes the task in the same cases, and schedules nothing.
  pub del_event_lem :
      (ok : Bool) → Does s (some (del_event ok fd ev s)) (remove_waiter ok false fd ev vs)
  unfolding del_event
  del_event_lem ok = elim (Option-cases (get_elem? vs fd)) [
    | inl gone ↦ rw (gone, del_event, no_context_at shows fd gone) (nothing_done shows fd)
    | inr (v, at) ↦ rw (del_event, context_at shows fd at) (del_from_cases at ok)
  ]
