-- ===== src/IoManager/Race.antt =====
-- Two calls of addEvent that both make the table of contexts grow.
use helens.Prelude.{
  ℕ, zero, suc, ◌≡◌, ◌≤◌, ◌<◌, refl, ap, ◌∙◌, Bool, true, false, Option, none, some, List, [], ◌∷◌,
  arith, get_elem?, get_or, take, leb, ◌*◌, ◌/◌, set, get_elem?-set_self, length,
}
use helens.Prelude.Rounds.{in_range}
use helens.Epoll.{Event, Events, no_events, read, write, with_event}
use helens.FdContext.{Caller}
use helens.IoManager.{
  IoManager, add_event, context_resize, grow, del_event, cancel_event, cancel_all,
}
use helens.IoManager.Views.{
  Waiter, View, nobody, waiter, put_waiter, waiters, watched, watched_in, all_waiters,
  length-contexts_from, Shows,
}
use helens.IoManager.Adding.{task_of, with_place, get-with_place, add_event_lem}

get_elem?-take_ge {ℓ} :
    {A : Type ℓ} (n i : ℕ) (xs : List A) → n ≤ i → get_elem? (take n xs) i ≡ none
get_elem?-take_ge zero i xs h = refl
get_elem?-take_ge (suc n) i [] h = refl
get_elem?-take_ge (suc n) zero (x ∷ xs) h = elim h [ ]
get_elem?-take_ge (suc n) (suc i) (x ∷ xs) h = get_elem?-take_ge n i xs (omega arith)

-- What epoll watches for a descriptor for whose event alone a task waits.
abbrev pub only : Event → Events
only ev = with_event ev no_events

grow-none :
    {Cb : Type 0} {s : IoManager Cb} {vs : List (View Cb)}
    → Shows s vs
    → (fd g : ℕ) → fd * 3 / 2 ≤ g
    → g < length vs
    → get_elem? (grow fd s).contexts g ≡ none
unfolding grow context_resize
grow-none {s} {vs} shows fd g le lt = rw fits (get_elem?-take_ge (fd * 3 / 2) g s.contexts le)
  where
    fits : leb (fd * 3 / 2) (length s.contexts) ≡ true
    fits = ground (arith, ap length shows.contexts, length-contexts_from 0 vs)

module _ {Cb : Type 0} where
  waiters_at :
      (vs : List (View Cb)) (g : ℕ) (v : View Cb)
      → get_elem? vs g ≡ some v
      → waiters v ≤ all_waiters vs
  waiters_at [] g v e = cc
  waiters_at (u ∷ vs) zero v e = omega (arith, ap waiters (first e))
    where
      first : some u ≡ some v → u ≡ v
      first e = cc
  waiters_at (u ∷ vs) (suc g) v e = omega (arith, waiters_at vs g v e)

  alone :
      (ev : Event) (w : Waiter Cb)
      → (waiters (put_waiter ev (some w) nobody) ≡ 1)
        × (watched (put_waiter ev (some w) nobody) ≡ some (only ev))
  alone read w = (refl, refl)
  alone write w = (refl, refl)

-- Without a context the three methods return false.
module _ {Cb : Type 0} (ok : Bool) (g : ℕ) (ev : Event) (m : IoManager Cb)
    (gone : get_elem? m.contexts g ≡ none) where
  del_event_none : del_event ok g ev m ≡ (false, m)
  unfolding del_event
  del_event_none = rw (del_event, gone) refl

  cancel_event_none : cancel_event ok g ev m ≡ some (false, m)
  unfolding cancel_event
  cancel_event_none = rw (cancel_event, gone) refl

  cancel_all_none : cancel_all ok g m ≡ some (false, m)
  unfolding cancel_all
  cancel_all_none = rw (cancel_all, gone) refl

-- A race of two calls of addEvent. One has looked `fd` up under the read lock and found no context; before
-- it takes the write lock, another one adds an event of `g`, at or behind `fd * 1.5`, and returns 0.
-- When the first one then resizes, the table has no context for `g` any more: delEvent, cancelEvent and
-- cancelAll of `g` return false and change nothing, though m_pendingEventCount counts the task that
-- waits and epoll watches for its event.
pub add_event_race :
    {Cb : Type 0} {s : IoManager Cb} {vs : List (View Cb)}
    → Shows s vs
    → (fd g : ℕ) (ev : Event) (me : Caller) (cb : Option Cb) (ok : Bool) → 2 ≤ fd
    → length vs ≤ fd
    → fd * 3 / 2 ≤ g
    → (s' : IoManager Cb) × (add_event true me g ev cb s ≡ some (true, s'))
      × (del_event ok g ev (grow fd s') ≡ (false, grow fd s'))
      × (cancel_event ok g ev (grow fd s') ≡ some (false, grow fd s'))
      × (cancel_all ok g (grow fd s') ≡ some (false, grow fd s'))
      × (1 ≤ (grow fd s').pending)
      × ((grow fd s').kernel g ≡ some (only ev))
unfolding grow
add_event_race {Cb} {s} {vs} shows fd g ev me cb ok big missing le =
    let absent : get_or vs g nobody ≡ nobody = get_or_none vs g (omega arith) in
    let free : waiter ev (get_or vs g nobody) ≡ none = rw absent (nobody_waits ev) in
    let w : Waiter Cb = (me.scheduler, task_of me cb) in
    let (s', ran, shown, sched) = add_event_lem shows g true ev me cb (λ _. omega arith) free in
    let v = put_waiter ev (some w) (get_or vs g nobody) in
    let vs' = set (with_place g vs) g v in
    let place =
      in_range (with_place g vs) g (get_or vs g nobody)
        (get-with_place shows g (λ _. omega arith)) in
    let at : get_elem? vs' g ≡ some v = get_elem?-set_self (with_place g vs) g v place in
    let gone = grow-none shown fd g le (in_range vs' g v at) in
    let is_alone : v ≡ put_waiter ev (some w) nobody = ap (put_waiter ev (some w)) absent in
    let count : waiters v ≡ 1 = ap waiters is_alone ∙ (alone ev w).0 in
    (
      s',
      ran,
      del_event_none ok g ev (grow fd s') gone,
      cancel_event_none ok g ev (grow fd s') gone,
      cancel_all_none ok g ev (grow fd s') gone,
      omega (arith, shown.pending, waiters_at vs' g v at, count),
      shown.kernel g ∙ ap watched_in at ∙ ap watched is_alone ∙ (alone ev w).1,
    )
  where
    nobody_waits : (ev : Event) → waiter {Cb = Cb} ev nobody ≡ none
    nobody_waits read = refl
    nobody_waits write = refl

    get_or_none : (vs : List (View Cb)) (g : ℕ) → length vs ≤ g → get_or vs g nobody ≡ nobody
    get_or_none [] g h = refl
    get_or_none (v ∷ vs) zero h = absurd (omega arith)
    get_or_none (v ∷ vs) (suc g) h = get_or_none vs g (omega arith)
