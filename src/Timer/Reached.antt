-- ===== src/Timer/Reached.antt =====
-- `TimerManager` over any sequence of calls: the set, its order, and the addresses in it.
use helens.Prelude.{
  ℕ, zero, suc, ◌+◌, if◌then◌else◌, ◌≡◌, refl, sym, ap, ◌∙◌, inl, inr, Bool, true, false, not, ◌&&◌,
  Option, none, some, List, [], ◌∷◌, arith, ◌==◌, Bool-cases, take, drop, subst,
}
use helens.Timer.{
  Timer, TimerManager, insert, has, erase, has_cb, create, add, add_timer, cancel, refresh, reset,
  wrap, get_next_timer, list_expired_cb, cut, rolled_over, is_empty, first_later, init, minus,
}
use helens.Timer.Order.{Sorted, insert-Sorted, erase-Sorted}
use helens.Timer.Expire.{put_back-Sorted}
use helens.Timer.Distinct.{
  Apart, Distinct, insert-Distinct, erase-Distinct, erase-Apart, split-Distinct, put_back-Distinct,
}

drop-Sorted : (n : ℕ) (ts : List Timer) → Sorted ts → Sorted (drop n ts)
drop-Sorted zero ts s = s
drop-Sorted (suc n) [] s = tt
drop-Sorted (suc n) (t ∷ ts) s = drop-Sorted n ts s.1

add-Sorted : (t : Timer) (m : TimerManager) → Sorted m.timers → Sorted (add t m).0.timers
unfolding add
add-Sorted t m s = insert-Sorted t m.timers s

list_expired_cb-Sorted :
    (probe now : ℕ) (m : TimerManager)
    → Sorted m.timers
    → Sorted (list_expired_cb probe now m).manager.timers
unfolding list_expired_cb
list_expired_cb-Sorted probe now m s = elim (Bool-cases (is_empty m.timers)) [
  | inl e ↦ rw e s
  | inr e ↦ elim (Bool-cases (not (rolled_over now m.previous_time) && first_later now m.timers)) [
    | inl e' ↦ rw (e, e') s
    | inr e' ↦
        let n = cut (rolled_over now m.previous_time) probe now m.timers in
        rw (e, e')
          (put_back-Sorted now (take n m.timers) (drop n m.timers) (drop-Sorted n m.timers s))
  ]
]

list_expired_cb-Distinct :
    (probe now : ℕ) (m : TimerManager)
    → Distinct m.timers
    → Distinct (list_expired_cb probe now m).manager.timers
unfolding list_expired_cb
list_expired_cb-Distinct probe now m d = elim (Bool-cases (is_empty m.timers)) [
  | inl e ↦ rw e d
  | inr e ↦ elim (Bool-cases (not (rolled_over now m.previous_time) && first_later now m.timers)) [
    | inl e' ↦ rw (e, e') d
    | inr e' ↦
        let n = cut (rolled_over now m.previous_time) probe now m.timers in
        let (first, rest, between) = split-Distinct n m.timers d in
        rw (e, e') (put_back-Distinct now (take n m.timers) (drop n m.timers) first rest between)
  ]
]

-- The set is in order, and no two of its timers are at one address.
abbrev pub IsValid : List Timer → Type 0
IsValid ts = Sorted ts × Distinct ts

-- The calls that change the manager. A new timer is at an address at which no timer of the set is, as
-- the set keeps its timers alive.
pub data Step : TimerManager → TimerManager → Type 0 where
  added :
      (id ms cb : ℕ) (recurring : Bool) (now : ℕ) (m : TimerManager)
      → Apart id m.timers
      → Step m (add_timer id ms cb recurring now m).0
  cancelled :
      (t t' : Timer) (m m' : TimerManager) (b : Bool) → cancel t m ≡ some (t', m', b) → Step m m'
  refreshed : (t : Timer) (now : ℕ) (m : TimerManager) → Step m (refresh t now m).1
  was_reset :
      (t : Timer) (ms : ℕ) (from_now : Bool) (now : ℕ) (m : TimerManager)
      → Step m (reset t ms from_now now m).1
  asked : (now : ℕ) (m : TimerManager) → Step m (get_next_timer now m).0
  listed : (probe now : ℕ) (m : TimerManager) → Step m (list_expired_cb probe now m).manager

pub data Runs : TimerManager → TimerManager → Type 0 where
  stop : (m : TimerManager) → Runs m m
  step : {m m' m'' : TimerManager} → Step m m' → Runs m' m'' → Runs m m''

cancel_refused : (t : Timer) (m : TimerManager) → has_cb t ≡ false → cancel t m ≡ some (t, m, false)
unfolding cancel
cancel_refused t m e = rw e refl

cancel_held :
    (t : Timer) (m : TimerManager)
    → has_cb t ≡ true
    → has t m.timers ≡ true
    → cancel t m ≡ some (record t { cb = none }, record m { timers = erase t m.timers }, true)
unfolding cancel
cancel_held t m e e' = rw (e, e') refl

cancel_undefined :
    (t : Timer) (m : TimerManager) → has_cb t ≡ true → has t m.timers ≡ false → cancel t m ≡ none
unfolding cancel
cancel_undefined t m e e' = rw (e, e') refl

erase-IsValid : (t : Timer) (ts : List Timer) → IsValid ts → IsValid (erase t ts)
erase-IsValid t ts (s, d) = (erase-Sorted t ts s, erase-Distinct t ts d)

insert-IsValid : (t : Timer) (ts : List Timer) → Apart t.id ts → IsValid ts → IsValid (insert t ts)
insert-IsValid t ts a (s, d) = (insert-Sorted t ts s, insert-Distinct t ts a d)

-- A timer of the set that is taken out and put in again with another time.
moved-IsValid :
    (t t' : Timer) (ts : List Timer)
    → t'.id ≡ t.id
    → has t ts ≡ true
    → IsValid ts
    → IsValid (insert t' (erase t ts))
moved-IsValid t t' ts same here v =
    insert-IsValid t' (erase t ts)
      (subst (λ (i : ℕ). Apart i (erase t ts)) (sym same) (erase-Apart t ts here v.1))
      (erase-IsValid t ts v)

cancel-IsValid :
    (t t' : Timer) (m m' : TimerManager) (b : Bool)
    → cancel t m ≡ some (t', m', b)
    → IsValid m.timers
    → IsValid m'.timers
cancel-IsValid t t' m m' b h v = elim (Bool-cases (has_cb t)) [
  | inr e ↦ subst (λ k. IsValid k.timers) (ap (manager_or m) (sym (cancel_refused t m e) ∙ h)) v
  | inl e ↦ elim (Bool-cases (has t m.timers)) [
    | inl e' ↦
        subst (λ k. IsValid k.timers) (ap (manager_or m) (sym (cancel_held t m e e') ∙ h))
          (erase-IsValid t m.timers v)
    | inr e' ↦ absurd (cc (h, cancel_undefined t m e e'))
  ]
]
  where
    manager_or : TimerManager → Option (Timer × TimerManager × Bool) → TimerManager
    manager_or k none = k
    manager_or k (some r) = r.1

refresh-IsValid :
    (t : Timer) (now : ℕ) (m : TimerManager) → IsValid m.timers → IsValid (refresh t now m).1.timers
unfolding refresh
refresh-IsValid t now m v = elim (Bool-cases (has_cb t && has t m.timers)) [
  | inl e ↦
      let t' = record t { next = wrap (now + t.ms) } in
      rw e (moved-IsValid t t' m.timers refl (ground arith) v)
  | inr e ↦ rw e v
]

reset-IsValid :
    (t : Timer) (ms : ℕ) (from_now : Bool) (now : ℕ) (m : TimerManager)
    → IsValid m.timers
    → IsValid (reset t ms from_now now m).1.timers
unfolding reset add
reset-IsValid t ms from_now now m v = elim (Bool-cases (ms == t.ms && not from_now)) [
  | inl e ↦ rw e v
  | inr e ↦ elim (Bool-cases (has_cb t && has t m.timers)) [
    | inl e' ↦
        let start = if from_now then now else minus t.next t.ms in
        let t' = record t { ms = ms; next = wrap (start + ms) } in
        rw (e, e') (moved-IsValid t t' m.timers refl (ground arith) v)
    | inr e' ↦ rw (e, e') v
  ]
]

Step-IsValid : {m m' : TimerManager} → Step m m' → IsValid m.timers → IsValid m'.timers
unfolding add_timer add create get_next_timer
Step-IsValid (Step.added id ms cb recurring now m apart) v =
    insert-IsValid (create id ms (some cb) recurring now) m.timers apart v
Step-IsValid (Step.cancelled t t' m m' b h) v = cancel-IsValid t t' m m' b h v
Step-IsValid (Step.refreshed t now m) v = refresh-IsValid t now m v
Step-IsValid (Step.was_reset t ms from_now now m) v = reset-IsValid t ms from_now now m v
Step-IsValid (Step.asked now m) v = v
Step-IsValid (Step.listed probe now m) (s, d) =
    (list_expired_cb-Sorted probe now m s, list_expired_cb-Distinct probe now m d)

Runs-IsValid : {m m' : TimerManager} → Runs m m' → IsValid m.timers → IsValid m'.timers
Runs-IsValid (Runs.stop m) v = v
Runs-IsValid (Runs.step st r) v = Runs-IsValid r (Step-IsValid st v)

-- After any sequence of calls from the construction of a TimerManager on, its timers are in strict
-- order of time and address, and no two are at one address: a call that changes the time of a timer
-- leaves no old entry of it behind. (A new timer is at an address at which no timer of the set is.)
pub reached-IsValid : (now : ℕ) (m : TimerManager) → Runs (init now) m → IsValid m.timers
unfolding init
reached-IsValid now m r = Runs-IsValid r (tt, tt)
