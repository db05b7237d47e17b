-- ===== src/Timer/Laws.antt =====
-- `TimerManager`: adding, cancelling, refreshing and waiting.
use helens.Prelude.{
  ℕ, ◌+◌, ◌-◌, ◌≤◌, ◌≡◌, refl, ◌↔◌, inl, inr, true, false, not, ◌&&◌, ◌||◌, none, some, List, [],
  ◌∷◌, arith, Bool-cases, All, All-map, ◌⊎◌,
}
use helens.Timer.{
  Timer, TimerManager, before, insert, has, erase, is_first, has_cb, add, cancel, refresh, wrap,
  never, wait, get_next_timer,
}
use helens.Timer.Order.{
  Sorted, before-Before, before_trans, before_irrefl, insert-Sorted, erase-Sorted, erase-insert,
  has-insert,
}

-- A timer that is added and cancelled leaves the other timers as they were.
pub cancel-add :
    (t : Timer) (m : TimerManager)
    → has_cb t ≡ true
    → has t m.timers ≡ false
    → (m' : TimerManager) × (cancel t (add t m).0 ≡ some (record t { cb = none }, m', true))
      × (m'.timers ≡ m.timers)
unfolding cancel add
cancel-add t m h absent = (
  record m {
    timers = erase t (insert t m.timers);
    tickled = m.tickled || (is_first t (insert t m.timers) && not m.tickled);
  },
  rw (h, has-insert t m.timers) refl,
  erase-insert t m.timers absent,
)

not_front :
    (t u : Timer) (us : List Timer)
    → before t u ≡ false
    → before u t ≡ true
    → is_first t (insert t (u ∷ us)) ≡ false
unfolding is_first insert
not_front t u us e e' = rw (e, e') (rw (e, e') refl)

front :
    (t : Timer) (us : List Timer)
    → Sorted us
    → has t us ≡ false
    → (is_first t (insert t us) ≡ true) ↔ All (λ u. before t u ≡ true) us
unfolding is_first insert has
front t [] s h = ((λ _. tt), (λ _. rw (before_irrefl t) refl))
front t (u ∷ us) s h = elim (Bool-cases (before t u)) [
  | inl e ↦ (
    (λ _. (e, All-map us (λ w p. before_trans t u w e p) s.0)),
    (λ _. rw e (rw (before_irrefl t) refl)),
  )
  | inr e ↦ elim (Bool-cases (before u t)) [
    | inl e' ↦ ((λ p. absurd (cc (p, not_front t u us e e'))), (λ p. absurd (cc (p.0, e))))
    | inr e' ↦ absurd (ground arith)
  ]
]

-- `onTimerInsertedAtFront` is called for a new timer that comes before every other, unless it was
-- called already since the last `getNextTimer`.
pub add_lem :
    (t : Timer) (m : TimerManager)
    → Sorted m.timers
    → has t m.timers ≡ false
    → ((add t m).1 ≡ true) ↔ (All (λ u. before t u ≡ true) m.timers × (m.tickled ≡ false))
unfolding add
add_lem t m s h =
    let (to, from) = front t m.timers s h in
    ((λ p. (to (ground (arith, p)), ground (arith, p))), (λ p. rw (from p.0, p.1) refl))

later_wait : (t u : Timer) (now : ℕ) → before t u ≡ true → t.next - now ≤ u.next - now
later_wait t u now h = ground (arith, before-Before t u h)

-- `getNextTimer` returns `~0ull` with no timer, and otherwise the time that is left until some
-- timer is due, and no timer is due sooner.
pub get_next_timer_lem :
    (now : ℕ) (m : TimerManager)
    → Sorted m.timers
    → ((m.timers ≡ []) × ((get_next_timer now m).1 ≡ never))
      ⊎ ((t : Timer) × (has t m.timers ≡ true)
          × ((get_next_timer now m).1 ≡ t.next - now)
          × All (λ u. t.next - now ≤ u.next - now) m.timers)
unfolding get_next_timer wait has
get_next_timer_lem now m s = by_timers m.timers s
  where
    by_timers :
        (ts : List Timer)
        → Sorted ts
        → ((ts ≡ []) × (wait now ts ≡ never))
          ⊎ ((t : Timer) × (has t ts ≡ true)
              × (wait now ts ≡ t.next - now)
              × All (λ u. t.next - now ≤ u.next - now) ts)
    by_timers [] s = inl (refl, refl)
    by_timers (t ∷ ts) s = inr (
      t,
      rw (before_irrefl t) refl,
      ground arith,
      (omega arith, All-map ts (λ u p. later_wait t u now p) s.0),
    )

-- `refresh` of a timer that the manager holds starts its period anew, now: the timer as it was is
-- gone, and stands at its new place.
pub refresh_lem :
    (t : Timer) (now : ℕ) (m : TimerManager)
    → Sorted m.timers
    → has_cb t ≡ true
    → has t m.timers ≡ true
    → (t' : Timer) × (m' : TimerManager) × (refresh t now m ≡ (t', m', true))
      × (t'.next ≡ wrap (now + t.ms))
      × (t'.id ≡ t.id)
      × (has t' m'.timers ≡ true)
      × Sorted m'.timers
unfolding refresh
refresh_lem t now m s live here =
    let t' = record t { next = wrap (now + t.ms) } in
    (
      t',
      record m { timers = insert t' (erase t m.timers) },
      rw (live, here) refl,
      refl,
      refl,
      has-insert t' (erase t m.timers),
      insert-Sorted t' (erase t m.timers) (erase-Sorted t m.timers s),
    )
