-- ===== src/Timer/Due.antt =====
-- How far listExpiredCb goes: the timers that are due, at the front of the sorted set.
use native.Mathlib.Nat.{zero-add, suc-add}
use helens.Prelude.{
  ℕ, zero, suc, ◌+◌, ◌≤◌, ◌<◌, ◌≡◌, sym, inl, inr, true, false, List, [], ◌∷◌, arith, ◌==◌,
  Bool-cases, All, All-map, take, drop, subst,
}
use helens.Prelude.Slices.{drop-drop}
use helens.Timer.{Timer, before, create_probe, count_before, count_equal, cut}
use helens.Timer.Order.{Sorted, before-Before}

pub All-take_add :
    {A : Type 0} (P : A → Type 0) (a b : ℕ) (xs : List A)
    → All P (take a xs)
    → All P (take b (drop a xs))
    → All P (take (a + b) xs)
All-take_add P zero b xs h k = rw zero-add k
All-take_add P (suc a) b [] h k = rw suc-add tt
All-take_add P (suc a) b (x ∷ xs) h k = rw suc-add (h.0, All-take_add P a b xs h.1 k)

abbrev pub Due : ℕ → Timer → Type 0
Due now t = t.next ≤ now

abbrev pub Later : ℕ → Timer → Type 0
Later now t = now < t.next

pub before-probe :
    (t : Timer) (probe now : ℕ) → before t (create_probe probe now) ≡ true → Due now t
before-probe t probe now h = ground (arith, before-Before t (create_probe probe now) h)

pub not_before-probe :
    (t : Timer) (probe now : ℕ) → before t (create_probe probe now) ≡ false → now ≤ t.next
unfolding before
not_before-probe t probe now h = ground arith

pub after_not_before : (t u : Timer) (now : ℕ) → now ≤ t.next → before t u ≡ true → now ≤ u.next
after_not_before t u now h p = ground (arith, before-Before t u p)

pub Later-of_before : (t u : Timer) (now : ℕ) → Later now t → before t u ≡ true → Later now u
Later-of_before t u now h p = ground (arith, before-Before t u p)

pub count_before-Due :
    (probe now : ℕ) (ts : List Timer)
    → All (Due now) (take (count_before (create_probe probe now) ts) ts)
unfolding count_before
count_before-Due probe now [] = tt
count_before-Due probe now (t ∷ ts) = elim (Bool-cases (before t (create_probe probe now))) [
  | inl e ↦ rw e (before-probe t probe now e, count_before-Due probe now ts)
  | inr e ↦ rw e tt
]

pub drop-count_before :
    (probe now : ℕ) (ts : List Timer)
    → Sorted ts
    → Sorted (drop (count_before (create_probe probe now) ts) ts)
      × All (λ t. now ≤ t.next) (drop (count_before (create_probe probe now) ts) ts)
unfolding count_before
drop-count_before probe now [] s = (tt, tt)
drop-count_before probe now (t ∷ ts) s = elim (Bool-cases (before t (create_probe probe now))) [
  | inl e ↦ rw e (drop-count_before probe now ts s.1)
  | inr e ↦
      let late = not_before-probe t probe now e in
      rw e (s, (late, All-map ts (λ u p. after_not_before t u now late p) s.0))
]

pub count_equal-Due : (now : ℕ) (ts : List Timer) → All (Due now) (take (count_equal now ts) ts)
unfolding count_equal
count_equal-Due now [] = tt
count_equal-Due now (t ∷ ts) = elim (Bool-cases (t.next == now)) [
  | inl e ↦ rw e (ground arith, count_equal-Due now ts)
  | inr e ↦ rw e tt
]

pub drop-count_equal :
    (now : ℕ) (ts : List Timer)
    → Sorted ts
    → All (λ t. now ≤ t.next) ts
    → Sorted (drop (count_equal now ts) ts) × All (Later now) (drop (count_equal now ts) ts)
unfolding count_equal
drop-count_equal now [] s h = (tt, tt)
drop-count_equal now (t ∷ ts) s h = elim (Bool-cases (t.next == now)) [
  | inl e ↦ rw e (drop-count_equal now ts s.1 h.1)
  | inr e ↦
      let late : Later now t = ground (arith, h.0) in
      rw e (s, (late, All-map ts (λ u p. Later-of_before t u now late p) s.0))
]

pub cut_lem :
    (probe now : ℕ) (ts : List Timer)
    → Sorted ts
    → All (Due now) (take (cut false probe now ts) ts)
      × Sorted (drop (cut false probe now ts) ts)
      × All (Later now) (drop (cut false probe now ts) ts)
unfolding cut
cut_lem probe now ts s =
    let n = count_before (create_probe probe now) ts in
    let (s', late) = drop-count_before probe now ts s in
    let (s'', later) = drop-count_equal now (drop n ts) s' late in
    (
      All-take_add (Due now) n (count_equal now (drop n ts)) ts (count_before-Due probe now ts)
          (count_equal-Due now (drop n ts)),
      subst Sorted (sym (drop-drop n (count_equal now (drop n ts)) ts)) s'',
      subst (All (Later now)) (sym (drop-drop n (count_equal now (drop n ts)) ts)) later,
    )
