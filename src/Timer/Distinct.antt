-- ===== src/Timer/Distinct.antt =====
-- The addresses of the timers in the set.
use helens.Prelude.{
  ℕ, zero, suc, ◌≡◌, ◌≢◌, refl, sym, ◌∙◌, inl, inr, Bool, true, false, List, [], ◌∷◌, arith,
  Bool-cases, All, take, drop, subst,
}
use helens.Timer.{Timer, before, insert, has, erase, insert_if, put_back, restart}
use helens.Timer.Order.{insert-All, erase-All, before_total}

-- No timer of the list is at the address.
abbrev pub Apart : ℕ → List Timer → Type 0
Apart i ts = All (λ u. u.id ≢ i) ts

abbrev pub Distinct : List Timer → Type 0
Distinct [] = Unit
Distinct (t ∷ ts) = Apart t.id ts × Distinct ts

pub insert-Distinct :
    (t : Timer) (us : List Timer) → Apart t.id us → Distinct us → Distinct (insert t us)
unfolding insert
insert-Distinct t [] h d = (tt, tt)
insert-Distinct t (u ∷ us) (ne, h) (a, d) = elim (Bool-cases (before t u)) [
  | inl e ↦ rw e ((ne, h), (a, d))
  | inr e ↦ elim (Bool-cases (before u t)) [
    | inl e' ↦
        rw (e, e')
          (insert-All (λ w. w.id ≢ u.id) t us (λ x. ne (sym x)) a, insert-Distinct t us h d)
    | inr e' ↦ rw (e, e') (a, d)
  ]
]

pub erase-Distinct : (t : Timer) (us : List Timer) → Distinct us → Distinct (erase t us)
unfolding erase
erase-Distinct t [] d = tt
erase-Distinct t (u ∷ us) (a, d) = elim (Bool-cases (before t u)) [
  | inl e ↦ rw e (a, d)
  | inr e ↦ elim (Bool-cases (before u t)) [
    | inl e' ↦ rw (e, e') (erase-All (λ w. w.id ≢ u.id) t us a, erase-Distinct t us d)
    | inr e' ↦ rw (e, e') d
  ]
]

-- What holds of all holds of the timer that find finds; it is at the same address.
pub has_at :
    (P : Timer → Type 0) (t : Timer) (us : List Timer)
    → has t us ≡ true
    → All P us
    → (u : Timer) × P u × (u.id ≡ t.id)
unfolding has
has_at P t [] h k = cc
has_at P t (u ∷ us) h (here, k) = elim (Bool-cases (before t u)) [
  | inl e ↦ absurd (ground arith)
  | inr e ↦ elim (Bool-cases (before u t)) [
    | inl e' ↦ has_at P t us (ground arith) k
    | inr e' ↦ (u, here, (before_total u t e' e).1)
  ]
]

-- The timer that is erased was the only one at its address.
pub erase-Apart :
    (t : Timer) (us : List Timer) → has t us ≡ true → Distinct us → Apart t.id (erase t us)
unfolding erase has
erase-Apart t [] h d = tt
erase-Apart t (u ∷ us) h (a, d) = elim (Bool-cases (before t u)) [
  | inl e ↦ absurd (ground arith)
  | inr e ↦ elim (Bool-cases (before u t)) [
    | inl e' ↦
        let h' : has t us ≡ true = ground arith in
        let (w, ne, same) = has_at (λ w. w.id ≢ u.id) t us h' a in
        rw (e, e') ((λ x. ne (same ∙ sym x)), erase-Apart t us h' d)
    | inr e' ↦ rw (e, e') (subst (λ (i : ℕ). Apart i us) (before_total u t e' e).1 a)
  ]
]

pub split-Distinct :
    (n : ℕ) (ts : List Timer)
    → Distinct ts
    → Distinct (take n ts) × Distinct (drop n ts) × All (λ t. Apart t.id (drop n ts)) (take n ts)
split-Distinct zero ts d = (tt, d, tt)
split-Distinct (suc n) [] d = (tt, tt, tt)
split-Distinct (suc n) (t ∷ ts) (a, d) =
    let (first, rest, between) = split-Distinct n ts d in
    ((All-take _ n ts a, first), rest, (All-drop _ n ts a, between))
  where
    All-take : (P : Timer → Type 0) (n : ℕ) (ts : List Timer) → All P ts → All P (take n ts)
    All-take P zero ts a = tt
    All-take P (suc n) [] a = tt
    All-take P (suc n) (t ∷ ts) (here, a) = (here, All-take P n ts a)

    All-drop : (P : Timer → Type 0) (n : ℕ) (ts : List Timer) → All P ts → All P (drop n ts)
    All-drop P zero ts a = a
    All-drop P (suc n) [] a = tt
    All-drop P (suc n) (t ∷ ts) (here, a) = All-drop P n ts a

pub restart-id : (now : ℕ) (t : Timer) → (restart now t).id ≡ t.id
unfolding restart
restart-id now t = elim (Bool-cases t.recurring) [ inl e ↦ rw e refl | inr e ↦ rw e refl ]

pub put_back-Distinct :
    (now : ℕ) (gone ts : List Timer)
    → Distinct gone
    → Distinct ts
    → All (λ t. Apart t.id ts) gone
    → Distinct (put_back now gone ts)
unfolding put_back insert_if
put_back-Distinct now [] ts g d a = d
put_back-Distinct now (t ∷ gone) ts (others, g) d (here, a) =
    put_back-Distinct now gone (insert_if t.recurring (restart now t) ts) g (put t.recurring)
      (apart t.recurring gone others a)
  where
    put : (b : Bool) → Distinct (insert_if b (restart now t) ts)
    put true =
        insert-Distinct (restart now t) ts
          (subst (λ (i : ℕ). Apart i ts) (sym (restart-id now t)) here) d
    put false = d

    apart :
        (b : Bool) (us : List Timer)
        → Apart t.id us
        → All (λ u. Apart u.id ts) us
        → All (λ u. Apart u.id (insert_if b (restart now t) ts)) us
    apart b [] p q = tt
    apart true (u ∷ us) (ne, p) (k, q) = (
      insert-All (λ w. w.id ≢ u.id) (restart now t) ts (λ x. ne (sym x ∙ restart-id now t)) k,
      apart true us p q,
    )
    apart false (u ∷ us) p q = q
