-- ===== src/Timer/Expire.antt =====
-- `listExpiredCb` and the timers that are due.
use helens.Prelude.{
  ℕ, ◌+◌, ◌≤◌, ◌<◌, ◌%◌, ◌^◌, ◌≡◌, refl, sym, ◌⊎◌, none, if◌then◌else◌, inl, inr, Bool, true, false,
  List, [], ◌∷◌, ◌++◌, map, arith, ltb, Bool-cases, All, All-map, take, drop, take-append-drop,
  subst,
}
use helens.Timer.{
  Timer, TimerManager, before, insert, has, cut, restart, wrap, put_back, insert_if, Listed,
  list_expired_cb, rolled_over,
}
use helens.Timer.Order.{
  Sorted, insert-Sorted, insert-All, before_asymm, before_irrefl, has-insert, has-insert_of_has,
}
use helens.Timer.Due.{Due, Later, Later-of_before, cut_lem}

insert_if-Sorted : (b : Bool) (t : Timer) (ts : List Timer) → Sorted ts → Sorted (insert_if b t ts)
unfolding insert_if
insert_if-Sorted true t ts s = insert-Sorted t ts s
insert_if-Sorted false t ts s = s

has-insert_if_of_has :
    (b : Bool) (u t : Timer) (ts : List Timer) → has u ts ≡ true → has u (insert_if b t ts) ≡ true
unfolding insert_if
has-insert_if_of_has true u t ts h = has-insert_of_has u t ts h
has-insert_if_of_has false u t ts h = h

pub put_back-Sorted : (now : ℕ) (gone ts : List Timer) → Sorted ts → Sorted (put_back now gone ts)
unfolding put_back
put_back-Sorted now [] ts s = s
put_back-Sorted now (t ∷ gone) ts s =
    put_back-Sorted now gone (insert_if t.recurring (restart now t) ts)
      (insert_if-Sorted t.recurring (restart now t) ts s)

has-put_back :
    (now : ℕ) (u : Timer) (gone ts : List Timer)
    → has u ts ≡ true
    → has u (put_back now gone ts) ≡ true
unfolding put_back
has-put_back now u [] ts h = h
has-put_back now u (t ∷ gone) ts h =
    has-put_back now u gone (insert_if t.recurring (restart now t) ts)
      (has-insert_if_of_has t.recurring u (restart now t) ts h)

-- A timer behind the loop over the expired ones: a recurring one keeps its call-back and is due `ms`
-- after now, in 64 bits; any other has no call-back any more.
abbrev pub renewed : ℕ → Timer → Timer
renewed now t = record {
  id = t.id;
  recurring = t.recurring;
  ms = t.ms;
  next = if t.recurring then (now + t.ms) % 2 ^ 64 else t.next;
  cb = if t.recurring then t.cb else none;
}

restart_lem : (now : ℕ) (t : Timer) → restart now t ≡ renewed now t
unfolding restart wrap
restart_lem now t = elim (Bool-cases t.recurring) [ inl e ↦ rw e refl | inr e ↦ rw e refl ]

map-restart : (now : ℕ) (ts : List Timer) → map (restart now) ts ≡ map (renewed now) ts
map-restart now [] = refl
map-restart now (t ∷ ts) = rw (restart_lem now t, map-restart now ts) refl

abbrev pub Restarted : ℕ → List Timer → Timer → Type 0
Restarted now ts t = t.recurring ≡ true → has (renewed now t) ts ≡ true

put_back-Restarted :
    (now : ℕ) (gone ts : List Timer) → All (Restarted now (put_back now gone ts)) gone
unfolding put_back insert_if
put_back-Restarted now [] ts = tt
put_back-Restarted now (t ∷ gone) ts = (
  λ e. restarts t.recurring e,
  put_back-Restarted now gone (insert_if t.recurring (restart now t) ts),
)
  where
    restarts :
        (b : Bool)
        → b ≡ true
        → has (renewed now t) (put_back now gone (insert_if b (restart now t) ts)) ≡ true
    restarts true e = has-put_back now (renewed now t) gone (insert (restart now t) ts) (
        subst (λ u. has u (insert (restart now t) ts) ≡ true) (restart_lem now t)
          (has-insert (restart now t) ts))
    restarts false e = cc

has-behind :
    (t u : Timer) (us : List Timer) → before t u ≡ true → has u us ≡ true → has u (t ∷ us) ≡ true
unfolding has
has-behind t u us e h = rw (before_asymm t u e, e) h

all_held : (ts : List Timer) → Sorted ts → All (λ u. has u ts ≡ true) ts
unfolding has
all_held [] s = tt
all_held (t ∷ ts) (first, s) = (rw (before_irrefl t) refl, each ts first (all_held ts s))
  where
    each :
        (us : List Timer)
        → All (λ u. before t u ≡ true) us
        → All (λ u. has u ts ≡ true) us
        → All (λ u. has u (t ∷ ts) ≡ true) us
    each [] p q = tt
    each (u ∷ us) (p, ps) (q, qs) = (has-behind t u ts p q, each us ps qs)

put_back-has :
    (now : ℕ) (gone ts : List Timer) → Sorted ts → All (λ u. has u (put_back now gone ts) ≡ true) ts
put_back-has now gone ts s = All-map ts (λ u h. has-put_back now u gone ts h) (all_held ts s)

-- What holds of the timers that stay and of the recurring ones holds of all behind the loop.
put_back-All :
    (P : Timer → Type 0) (now : ℕ) (gone ts : List Timer)
    → All (λ t. t.recurring ≡ true → P (renewed now t)) gone
    → All P ts
    → All P (put_back now gone ts)
unfolding put_back insert_if
put_back-All P now [] ts h k = k
put_back-All P now (t ∷ gone) ts (here, h) k =
    put_back-All P now gone (insert_if t.recurring (restart now t) ts) h (put t.recurring here)
  where
    put : (b : Bool) → (b ≡ true → P (renewed now t)) → All P (insert_if b (restart now t) ts)
    put true q = insert-All P (restart now t) ts (subst P (sym (restart_lem now t)) (q refl)) k
    put false q = k

abbrev pub Among : Timer → List Timer → Type 0
Among u [] = ⊥
Among u (t ∷ ts) = (u ≡ t) ⊎ Among u ts

all-Among : (ts : List Timer) → All (λ u. Among u ts) ts
all-Among [] = tt
all-Among (t ∷ ts) = (inl refl, All-map ts (λ u h. inr h) (all-Among ts))

-- A timer that stays, or a recurring one that has been taken out and put back.
abbrev pub Belongs : ℕ → List Timer → List Timer → Timer → Type 0
Belongs now gone rest u =
    Among u rest ⊎ ((t : Timer) × Among t gone × (t.recurring ≡ true) × (u ≡ renewed now t))

-- What a call of `listExpiredCb` did to the timers `ts`: `gone` were taken out in their order.
pub record Expired (now : ℕ) (ts : List Timer) (r : Listed) : Type 0 where
  pub gone : List Timer
  pub rest : List Timer
  pub split : ts ≡ gone ++ rest
  pub all_due : All (λ t. t.next ≤ now) gone
  pub none_due : All (λ t. now < t.next) rest
  pub called : r.cbs ≡ map (λ t. t.cb) gone
  pub after : r.expired ≡ map (renewed now) gone
  pub sorted : Sorted r.manager.timers
  pub kept : All (λ u. has u r.manager.timers ≡ true) rest
  pub restarted : All (Restarted now r.manager.timers) gone
  pub no_other : All (Belongs now gone rest) r.manager.timers

none_expired :
    (now : ℕ) (t : Timer) (ts : List Timer)
    → Sorted (t ∷ ts)
    → ltb now t.next ≡ true
    → All (Later now) (t ∷ ts)
none_expired now t ts s h =
    let late : Later now t = ground (arith, h) in
    (late, All-map ts (λ u p. Later-of_before t u now late p) s.0)

take_out : (probe now : ℕ) (m : TimerManager) (n : ℕ) → Listed
take_out probe now m n = record {
  manager = record m {
    previous_time = now;
    timers = put_back now (take n m.timers) (drop n m.timers);
  };
  cbs = map (λ t. t.cb) (take n m.timers);
  expired = map (restart now) (take n m.timers);
}

taken :
    (probe now n : ℕ) (m : TimerManager)
    → Sorted (drop n m.timers)
    → All (Due now) (take n m.timers)
    → All (Later now) (drop n m.timers)
    → Expired now m.timers (take_out probe now m n)
unfolding take_out
taken probe now n m s due later =
    let gone = take n m.timers in
    let rest = drop n m.timers in
    record {
      gone = gone;
      rest = rest;
      split = sym (take-append-drop n m.timers);
      all_due = due;
      none_due = later;
      called = refl;
      after = map-restart now gone;
      sorted = put_back-Sorted now gone rest s;
      kept = put_back-has now gone rest s;
      restarted = put_back-Restarted now gone rest;
      no_other =
          put_back-All (Belongs now gone rest) now gone rest
            (All-map gone (λ t h e. inr (t, h, e, refl)) (all-Among gone))
            (All-map rest (λ t h. inl h) (all-Among rest));
    }

-- On a sorted set of timers and without a clock rollover, listExpiredCb takes out exactly the timers
-- that are due, in their order, and returns their call-backs. A recurring one keeps its call-back, is
-- due `ms` from now on, and is in the set again; another one has lost its call-back. The set is sorted,
-- and has the timers that were not due, those that were put back, and no other.
pub list_expired_cb_lem :
    (probe now : ℕ) (m : TimerManager)
    → Sorted m.timers
    → rolled_over now m.previous_time ≡ false
    → Expired now m.timers (list_expired_cb probe now m)
unfolding list_expired_cb take_out put_back
list_expired_cb_lem probe now m s h = by_timers m.timers s
  where
    by_timers :
        (ts : List Timer)
        → Sorted ts
        → Expired now ts (list_expired_cb probe now (record m { timers = ts }))
    by_timers [] s = record {
      gone = [];
      rest = [];
      split = refl;
      all_due = tt;
      none_due = tt;
      called = refl;
      after = refl;
      sorted = tt;
      kept = tt;
      restarted = tt;
      no_other = tt;
    }
    by_timers (t ∷ ts) s = elim (Bool-cases (ltb now t.next)) [
      | inl e ↦
          subst (Expired now (t ∷ ts)) (sym (rw (h, e) refl))
            (taken probe now 0 (record m { timers = t ∷ ts }) s tt (none_expired now t ts s e))
      | inr e ↦
          let (due, sorted, later) = cut_lem probe now (t ∷ ts) s in
          subst (Expired now (t ∷ ts)) (sym (rw (h, e) refl)) (
            taken probe now (cut false probe now (t ∷ ts)) (record m { timers = t ∷ ts }) sorted due
              later)
    ]
