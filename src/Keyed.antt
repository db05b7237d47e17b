-- ===== src/Keyed.antt =====
-- Lists of entries with a key: a map, in an order that does not matter, or a
-- `std::list<std::pair<K, V>>` beside the keys of a map whose iterators point into it.
use mathlib.Core.List.{
  erase, map-append, Mem, Nodup, Perm, mem-cons, not-mem-nil, mem-cons_self, mem-cons_of_mem,
  eq-or-mem_of_mem-cons, Nodup-cons, erase-sublist, perm_cons_erase, perm_append_singleton,
  erase-cons-head,
}
use mathlib.Core.List
use mathlib.Core.List.Perm
use mathlib.Core.List.Nodup
use mathlib.Core.Logic.Or
use mathlib.Core.Option.{some-injective}
use native.Mathlib.Bridge.{from_ℕ}
use mathlib.Core.Logic.{ite, if_pos, if_neg}
use helens.Prelude.{
  ℕ, zero, suc, ◌+◌, ◌≡◌, refl, sym, ap, ◌∙◌, ◌≢◌, ◌↔◌, inl, inr, Bool, true, false, length-map,
  Bool-cases, Option-cases, subst, Option, none, some, List, [], ◌∷◌, ◌++◌, map, arith, length,
  take, All,
}

module _ {K V : Type 0} where
  abbrev pub keys : List (K × V) → List K
  keys = map (λ e. e.0)

  -- `back()` and `pop_back()`; `none` is an empty list, where both are undefined.
  unfoldable pub pop_back : List (K × V) → Option ((K × V) × List (K × V))
  pop_back [] = none
  pop_back (e ∷ []) = some (e, [])
  pop_back (e ∷ e' ∷ rest) = elim (pop_back (e' ∷ rest)) [
    | none ↦ none
    | some (last, before) ↦ some (last, e ∷ before)
  ]

  pub pop_back_lem :
      (n : ℕ) (es : List (K × V))
      → length es ≡ suc n
      → (e : K × V) × (pop_back es ≡ some (e, take n es)) × (es ≡ take n es ++ e ∷ [])
  unfolding pop_back
  pop_back_lem n [] h = absurd (omega arith)
  pop_back_lem zero (e ∷ []) h = (e, refl, refl)
  pop_back_lem zero (e ∷ e' ∷ rest) h = absurd (omega arith)
  pop_back_lem (suc n) (e ∷ []) h = absurd (omega arith)
  pop_back_lem (suc n) (e ∷ e' ∷ rest) h =
      let (last, ran, split) = pop_back_lem n (e' ∷ rest) (omega arith) in
      (last, rw ran, ap (◌∷◌ e) split)

module _ {K : Type 0} (dec : Discrete K) where
  -- `m_cache.find(k) != m_cache.end()`
  unfoldable pub contains : K → List K → Bool
  contains k [] = false
  contains k (x ∷ xs) = ite (dec k x) true (contains k xs)

  -- `m_cache.erase(k)`
  unfoldable pub erase_key : K → List K → List K
  erase_key k [] = []
  erase_key k (x ∷ xs) = ite (dec x k) xs (x ∷ erase_key k xs)

  contains-Mem : (k : K) (xs : List K) → contains k xs ≡ true → Mem k xs
  unfolding contains
  contains-Mem k [] h = cc
  contains-Mem k (x ∷ xs) h = elim (dec k x) [
    | yes p ↦ rw p mem-cons_self
    | no p ↦ mem-cons_of_mem x (contains-Mem k xs (ground arith))
  ]

  Mem-contains : (k : K) (xs : List K) → Mem k xs → contains k xs ≡ true
  unfolding contains
  Mem-contains k [] m = absurd (not-mem-nil m)
  Mem-contains k (x ∷ xs) m = elim (dec k x) [
    | yes p ↦ if_pos (dec k x) p _ _
    | no p ↦
        Or.elim (hlevel) (eq-or-mem_of_mem-cons m) (λ e. absurd (p e))
          (λ m'. if_neg (dec k x) p _ _ ∙ Mem-contains k xs m')
  ]

  pub contains_iff : (k : K) (xs : List K) → (contains k xs ≡ true) ↔ Mem k xs
  contains_iff k xs = (contains-Mem k xs, Mem-contains k xs)

  pub contains-perm : (k : K) (xs ys : List K) → Perm xs ys → contains k xs ≡ contains k ys
  contains-perm k xs ys p = elim (Bool-cases (contains k xs)) [
    | inl e ↦ e ∙ sym (Mem-contains k ys ((Perm.mem_iff p).0 (contains-Mem k xs e)))
    | inr e ↦ elim (Bool-cases (contains k ys)) [
      | inl e' ↦ absurd (cc (e, Mem-contains k xs ((Perm.mem_iff p).1 (contains-Mem k ys e'))))
      | inr e' ↦ e ∙ sym e'
    ]
  ]

  erase_key-eq-erase : (k : K) (xs : List K) → erase_key k xs ≡ erase dec xs k
  unfolding erase_key
  erase_key-eq-erase k [] = refl
  erase_key-eq-erase k (x ∷ xs) = ground (arith, erase_key-eq-erase k xs)

  pub erase_key-perm :
      (k : K) (xs ys : List K) → Perm xs ys → Perm (erase_key k xs) (erase_key k ys)
  erase_key-perm k xs ys p =
      rw (erase_key-eq-erase k xs, erase_key-eq-erase k ys) (Perm.erase dec k p)

  pub erase_key-cons : (k : K) (xs : List K) → erase_key k (k ∷ xs) ≡ xs
  unfolding erase_key
  erase_key-cons k xs = if_pos (dec k k) refl _ _

  -- The key is moved to the front.
  pub cons-erase_key-perm :
      (k : K) (xs : List K) → contains k xs ≡ true → Perm xs (k ∷ erase_key k xs)
  cons-erase_key-perm k xs h =
      rw (erase_key-eq-erase k xs) (perm_cons_erase dec (contains-Mem k xs h))

  pub erase_key-Nodup : (k : K) (xs : List K) → Nodup xs → Nodup (erase_key k xs)
  erase_key-Nodup k xs d = rw (erase_key-eq-erase k xs) (Nodup.sublist (erase-sublist dec k) d)

  pub not-contains-erase_key :
      (k : K) (xs : List K) → Nodup xs → contains k (erase_key k xs) ≡ false
  not-contains-erase_key k xs d = elim (Bool-cases (contains k (erase_key k xs))) [
    | inl e ↦ absurd (
        ((Nodup.mem-erase_iff dec d).0
            (subst (Mem k) (erase_key-eq-erase k xs) (contains-Mem k (erase_key k xs) e))).0
          refl)
    | inr e ↦ e
  ]

  pub cons-Nodup : (k : K) (xs : List K) → contains k xs ≡ false → Nodup xs → Nodup (k ∷ xs)
  cons-Nodup k xs h d = Nodup-cons.1 ((λ m. absurd (cc (h, Mem-contains k xs m))), d)

module _ {K V : Type 0} (dec : Discrete K) where
  -- What a map's iterator for `k` points to.
  unfoldable pub find : K → List (K × V) → Option V
  find k [] = none
  find k (e ∷ es) = ite (dec k e.0) (some e.1) (find k es)

  -- `m_keys.erase(it)`
  unfoldable pub remove : K → List (K × V) → List (K × V)
  remove k [] = []
  remove k (e ∷ es) = ite (dec e.0 k) es (e ∷ remove k es)

  pub keys-remove : (k : K) (es : List (K × V)) → keys (remove k es) ≡ erase_key dec k (keys es)
  unfolding remove erase_key
  keys-remove k [] = refl
  keys-remove k (e ∷ es) = ground (arith, keys-remove k es)

  pub find-some :
      (k : K) (es : List (K × V)) → contains dec k (keys es) ≡ true → (v : V) × (find k es ≡ some v)
  unfolding find contains
  find-some k [] h = cc
  find-some k (e ∷ es) h = elim (dec k e.0) [
    | yes p ↦ (e.1, if_pos (dec k e.0) p _ _)
    | no p ↦ rw (if_neg _ p) (find-some k es (ground arith))
  ]

  pub find-none : (k : K) (es : List (K × V)) → contains dec k (keys es) ≡ false → find k es ≡ none
  unfolding find contains
  find-none k [] h = refl
  find-none k (e ∷ es) h = ground (arith, find-none k es)

  pub find-remove_ne : (k q : K) (es : List (K × V)) → q ≢ k → find q (remove k es) ≡ find q es
  unfolding find remove
  find-remove_ne k q [] _ = refl
  find-remove_ne k q (e ∷ es) h = ground (arith, find-remove_ne k q es)

  pub find-remove :
      (k q : K) (es : List (K × V))
      → Nodup (keys es)
      → find q (remove k es) ≡ ite (dec q k) none (find q es)
  find-remove k q es d = elim (dec q k) [
    | no p ↦ find-remove_ne k q es p ∙ sym (if_neg (dec q k) p _ _)
    | yes p ↦
        ap (λ t. find t (remove k es)) p
        ∙ find-none k (remove k es)
            (ap (contains dec k) (keys-remove k es) ∙ not-contains-erase_key dec k (keys es) d)
        ∙ sym (if_pos (dec q k) p _ _)
  ]

  pub remove_absent :
      (k : K) (es : List (K × V)) → contains dec k (keys es) ≡ false → remove k es ≡ es
  unfolding remove contains
  remove_absent k [] h = refl
  remove_absent k (e ∷ es) h = ground (arith, remove_absent k es)

  -- Moving the entry of `k` to the front changes no look-up.
  pub find-moved :
      (k q : K) (v : V) (es : List (K × V))
      → find k es ≡ some v
      → find q ((k, v) ∷ remove k es) ≡ find q es
  unfolding find
  find-moved k q v es h = elim (dec q k) [
    | yes p ↦ if_pos (dec q k) p _ _ ∙ sym (ap (λ t. find t es) p ∙ h)
    | no p ↦ if_neg (dec q k) p _ _ ∙ find-remove_ne k q es p
  ]

  pub find_front : (k : K) (v : V) (es : List (K × V)) → find k ((k, v) ∷ es) ≡ some v
  unfolding find
  find_front k v es = if_pos (dec k k) refl _ _

  pub length-remove :
      (k : K) (es : List (K × V))
      → contains dec k (keys es) ≡ true
      → length (remove k es) + 1 ≡ length es
  unfolding contains remove
  length-remove k [] h = cc
  length-remove k (e ∷ es) h = ground (arith, length-remove k es)

module _ {K V : Type 0} (dec : Discrete K) where
  -- `m_datas[k] = v` of a map with unordered keys
  unfoldable pub assign : K → V → List (K × V) → List (K × V)
  assign k v es = (k, v) ∷ remove dec k es

  pub find-assign :
      (k q : K) (v : V) (es : List (K × V))
      → find dec q (assign k v es) ≡ ite (dec q k) (some v) (find dec q es)
  unfolding assign find
  find-assign k q v es = elim (dec q k) [
    | yes p ↦ if_pos (dec q k) p _ _ ∙ sym (if_pos (dec q k) p _ _)
    | no p ↦ if_neg (dec q k) p _ _ ∙ find-remove_ne dec k q es p ∙ sym (if_neg (dec q k) p _ _)
  ]

  pub assign-Nodup :
      (k : K) (v : V) (es : List (K × V)) → Nodup (keys es) → Nodup (keys (assign k v es))
  unfolding assign
  assign-Nodup k v es d =
      subst (λ t. Nodup (k ∷ t)) (sym (keys-remove dec k es))
        (cons-Nodup dec k (erase_key dec k (keys es)) (not-contains-erase_key dec k (keys es) d)
          (erase_key-Nodup dec k (keys es) d))

  pub remove-Nodup : (k : K) (es : List (K × V)) → Nodup (keys es) → Nodup (keys (remove dec k es))
  remove-Nodup k es d = subst Nodup (sym (keys-remove dec k es)) (erase_key-Nodup dec k (keys es) d)

  pub All-remove :
      (P : K × V → Type 0) (k : K) (es : List (K × V)) → All P es → All P (remove dec k es)
  unfolding remove
  All-remove P k [] a = a
  All-remove P k (e ∷ es) a = elim (dec e.0 k) [
    | yes p ↦ rw (if_pos (dec e.0 k) p es (e ∷ remove dec k es)) a.1
    | no p ↦ rw (if_neg (dec e.0 k) p es (e ∷ remove dec k es)) (a.0, All-remove P k es a.1)
  ]

  pub find-empty : (k : K) (es : List (K × V)) → length es ≡ 0 → find dec k es ≡ none
  unfolding find
  find-empty k [] h = refl
  find-empty k (e ∷ es) h = absurd (omega arith)

  pub All-assign :
      (P : K × V → Type 0) (k : K) (v : V) (es : List (K × V))
      → P (k, v)
      → All P es
      → All P (assign k v es)
  unfolding assign
  All-assign P k v es p a = (p, All-remove P k es a)

  pub All-find :
      (P : V → Type 0) (k : K) (v : V) (es : List (K × V))
      → All (λ e. P e.1) es
      → find dec k es ≡ some v
      → P v
  unfolding find
  All-find P k v [] a h = cc
  All-find P k v (e ∷ es) a h = elim (dec k e.0) [
    | yes p ↦
        subst P (some-injective _ _ (sym (if_pos (dec k e.0) p (some e.1) (find dec k es)) ∙ h)) a.0
    | no p ↦ All-find P k v es a.1 (sym (if_neg (dec k e.0) p (some e.1) (find dec k es)) ∙ h)
  ]

  find-snoc_none :
      (k q : K) (v : V) (es : List (K × V))
      → find dec q es ≡ none
      → find dec q (es ++ (k, v) ∷ []) ≡ ite (dec q k) (some v) none
  unfolding find
  find-snoc_none k q v [] h = refl
  find-snoc_none k q v (e ∷ es) h = elim (dec q e.0) [
    | yes p ↦ cc (h, if_pos (dec q e.0) p (some e.1) (find dec q es))
    | no p ↦
        if_neg (dec q e.0) p _ _
        ∙ find-snoc_none k q v es (sym (if_neg (dec q e.0) p (some e.1) (find dec q es)) ∙ h)
  ]

  find-snoc_some :
      (k q : K) (v w : V) (es : List (K × V))
      → find dec q es ≡ some w
      → find dec q (es ++ (k, v) ∷ []) ≡ some w
  unfolding find
  find-snoc_some k q v w [] h = cc
  find-snoc_some k q v w (e ∷ es) h = elim (dec q e.0) [
    | yes p ↦ if_pos (dec q e.0) p _ _ ∙ sym (if_pos (dec q e.0) p (some e.1) (find dec q es)) ∙ h
    | no p ↦
        if_neg (dec q e.0) p _ _
        ∙ find-snoc_some k q v w es (sym (if_neg (dec q e.0) p (some e.1) (find dec q es)) ∙ h)
  ]

  -- An entry that is put behind the others after the old one of its key has gone.
  pub find-moved_last :
      (k q : K) (v : V) (es : List (K × V))
      → Nodup (keys es)
      → find dec q (remove dec k es ++ (k, v) ∷ []) ≡ ite (dec q k) (some v) (find dec q es)
  find-moved_last k q v es d = elim (dec q k) [
    | yes p ↦
        find-snoc_none k q v (remove dec k es) (find-remove dec k q es d ∙ if_pos (dec q k) p _ _)
        ∙ if_pos (dec q k) p _ _
        ∙ sym (if_pos (dec q k) p _ _)
    | no p ↦ elim (Option-cases (find dec q es)) [
      | inl e ↦
          find-snoc_none k q v (remove dec k es) (find-remove_ne dec k q es p ∙ e)
          ∙ if_neg (dec q k) p _ _
          ∙ sym (if_neg (dec q k) p _ _ ∙ e)
      | inr h ↦
          find-snoc_some k q v h.0 (remove dec k es) (find-remove_ne dec k q es p ∙ h.1)
          ∙ sym (if_neg (dec q k) p _ _ ∙ h.1)
    ]
  ]

  pub moved_last-Nodup :
      (k : K) (v : V) (es : List (K × V))
      → Nodup (keys es)
      → Nodup (keys (remove dec k es ++ (k, v) ∷ []))
  moved_last-Nodup k v es d = subst Nodup (sym (map-append _ (remove dec k es) ((k, v) ∷ []))) (
      Perm.nodup (Perm.symm (perm_append_singleton k (keys (remove dec k es)))) (
        subst (λ t. Nodup (k ∷ t)) (sym (keys-remove dec k es))
          (cons-Nodup dec k (erase_key dec k (keys es)) (not-contains-erase_key dec k (keys es) d)
            (erase_key-Nodup dec k (keys es) d))))

from_length : {A : Type 0} (xs : List A) → from_ℕ (List.length xs) ≡ length xs
from_length [] = refl
from_length (x ∷ xs) = ap suc (from_length xs)

pub perm-length : {A : Type 0} {xs ys : List A} → Perm xs ys → length xs ≡ length ys
perm-length {xs} {ys} p = sym (from_length xs) ∙ ap from_ℕ (Perm.length-eq p) ∙ from_length ys

-- The last entry's key leaves the index when the entry leaves the list.
pub erase_last-perm :
    {K V : Type 0} (dec : Discrete K) (index : List K) (before : List (K × V)) (e : K × V)
    → Perm index (keys (before ++ e ∷ []))
    → Perm (erase_key dec e.0 index) (keys before)
erase_last-perm dec index before e p =
    subst (λ t. Perm (erase_key dec e.0 index) t) (erase_key-cons dec e.0 (keys before))
      (erase_key-perm dec e.0 index (e.0 ∷ keys before) (
        Perm.trans p (
          subst (λ t. Perm t (e.0 ∷ keys before)) (sym (map-append _ before (e ∷ [])))
            (perm_append_singleton e.0 (keys before)))))

pub length-keys : {K V : Type 0} (es : List (K × V)) → length (keys es) ≡ length es
length-keys es = length-map es (λ e. e.0)
