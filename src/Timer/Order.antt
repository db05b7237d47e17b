-- ===== src/Timer/Order.antt =====
-- The order of the timers in the set, and the set's operations on a sorted list.
use helens.Prelude.{
  ◌<◌, ◌≡◌, refl, ap, ◌⊎◌, inl, inr, true, false, List, [], ◌∷◌, arith, Bool-cases, All, All-map,
}
use helens.Timer.{Timer, before, insert, has, erase}

-- `a` comes before `b`: an earlier time, or the same time and a smaller address.
abbrev pub Before : Timer → Timer → Type 0
Before a b = (a.next < b.next) ⊎ ((a.next ≡ b.next) × (a.id < b.id))

pub before-Before : (a b : Timer) → before a b ≡ true → Before a b
unfolding before
before-Before a b h = ground arith

pub Before-before : (a b : Timer) → Before a b → before a b ≡ true
unfolding before
Before-before a b h = ground arith

pub before_trans : (a b c : Timer) → before a b ≡ true → before b c ≡ true → before a c ≡ true
before_trans a b c p q =
    Before-before a c (ground (arith, before-Before a b p, before-Before b c q))

pub before_irrefl : (a : Timer) → before a a ≡ false
unfolding before
before_irrefl a = ground arith

pub before_asymm : (a b : Timer) → before a b ≡ true → before b a ≡ false
unfolding before
before_asymm a b h = ground arith

-- Timers that the order does not tell apart are one timer: its address is the same.
pub before_total :
    (a b : Timer) → before a b ≡ false → before b a ≡ false → (a.next ≡ b.next) × (a.id ≡ b.id)
unfolding before
before_total a b p q = (ground arith, ground arith)

abbrev pub Sorted : List Timer → Type 0
Sorted [] = Unit
Sorted (t ∷ ts) = All (λ u. before t u ≡ true) ts × Sorted ts

pub insert-All :
    (P : Timer → Type 0) (t : Timer) (us : List Timer) → P t → All P us → All P (insert t us)
unfolding insert
insert-All P t [] p h = (p, tt)
insert-All P t (u ∷ us) p h = elim (Bool-cases (before t u)) [
  | inl e ↦ rw e (p, h)
  | inr e ↦ elim (Bool-cases (before u t)) [
    | inl e' ↦ rw (e, e') (h.0, insert-All P t us p h.1)
    | inr e' ↦ rw (e, e') h
  ]
]

pub insert-Sorted : (t : Timer) (us : List Timer) → Sorted us → Sorted (insert t us)
unfolding insert
insert-Sorted t [] h = (tt, tt)
insert-Sorted t (u ∷ us) h = elim (Bool-cases (before t u)) [
  | inl e ↦ rw e ((e, All-map us (λ w q. before_trans t u w e q) h.0), h)
  | inr e ↦ elim (Bool-cases (before u t)) [
    | inl e' ↦ rw (e, e') (insert-All (λ w. before u w ≡ true) t us e' h.0, insert-Sorted t us h.1)
    | inr e' ↦ rw (e, e') h
  ]
]

pub erase-All : (P : Timer → Type 0) (t : Timer) (us : List Timer) → All P us → All P (erase t us)
unfolding erase
erase-All P t [] h = tt
erase-All P t (u ∷ us) h = elim (Bool-cases (before t u)) [
  | inl e ↦ rw e h
  | inr e ↦ elim (Bool-cases (before u t)) [
    | inl e' ↦ rw (e, e') (h.0, erase-All P t us h.1)
    | inr e' ↦ rw (e, e') h.1
  ]
]

pub erase-Sorted : (t : Timer) (us : List Timer) → Sorted us → Sorted (erase t us)
unfolding erase
erase-Sorted t [] h = tt
erase-Sorted t (u ∷ us) h = elim (Bool-cases (before t u)) [
  | inl e ↦ rw e h
  | inr e ↦ elim (Bool-cases (before u t)) [
    | inl e' ↦ rw (e, e') (erase-All (λ w. before u w ≡ true) t us h.0, erase-Sorted t us h.1)
    | inr e' ↦ rw (e, e') h.1
  ]
]

-- A new timer that is inserted and erased again leaves the set as it was.
pub erase-insert : (t : Timer) (us : List Timer) → has t us ≡ false → erase t (insert t us) ≡ us
unfolding has erase insert
erase-insert t [] h = rw (before_irrefl t) refl
erase-insert t (u ∷ us) h = elim (Bool-cases (before t u)) [
  | inl e ↦ rw (e, before_irrefl t) refl
  | inr e ↦ elim (Bool-cases (before u t)) [
    | inl e' ↦ rw (e, e') (rw (e, e') (ap (◌∷◌ u) (erase-insert t us (ground arith))))
    | inr e' ↦ absurd (ground arith)
  ]
]

pub has-insert : (t : Timer) (us : List Timer) → has t (insert t us) ≡ true
unfolding has insert
has-insert t [] = rw (before_irrefl t) refl
has-insert t (u ∷ us) = elim (Bool-cases (before t u)) [
  | inl e ↦ rw (e, before_irrefl t) refl
  | inr e ↦ elim (Bool-cases (before u t)) [
    | inl e' ↦ rw (e, e') (rw (e, e') (has-insert t us))
    | inr e' ↦ rw (e, e') (rw (e, e') refl)
  ]
]

-- An insertion loses no timer.
pub has-insert_of_has :
    (u t : Timer) (us : List Timer) → has u us ≡ true → has u (insert t us) ≡ true
unfolding has insert
has-insert_of_has u t [] h = cc
has-insert_of_has u t (w ∷ ws) h = elim (Bool-cases (before t w)) [
  | inl e ↦ elim (Bool-cases (before u t)) [
    | inl p ↦ absurd (cc (before_trans u t w p e, has-before u w ws h))
    | inr p ↦ elim (Bool-cases (before t u)) [
      | inl q ↦ rw e (rw (p, q) h)
      | inr q ↦ rw e (rw (p, q) refl)
    ]
  ]
  | inr e ↦ elim (Bool-cases (before w t)) [
    | inr e' ↦ rw (e, e') h
    | inl e' ↦ elim (Bool-cases (before w u)) [
      | inl q ↦
          rw (e, e') (rw (before_asymm w u q, q) (has-insert_of_has u t ws (has-tail u w ws q h)))
      | inr q ↦ rw (e, e') (rw (has-before u w ws h, q) refl)
    ]
  ]
]
  where
    has-before : (u w : Timer) (ws : List Timer) → has u (w ∷ ws) ≡ true → before u w ≡ false
    has-before u w ws h = ground arith

    has-tail :
        (u w : Timer) (ws : List Timer)
        → before w u ≡ true
        → has u (w ∷ ws) ≡ true
        → has u ws ≡ true
    has-tail u w ws q h = ground (arith, before_asymm w u q)
