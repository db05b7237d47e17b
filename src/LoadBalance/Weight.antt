-- ===== src/LoadBalance/Weight.antt =====
-- `WeightLoadBalance` and the parts of the total that the weights make up.
use native.Mathlib.Nat.{mod-lt}
use helens.Prelude.{
  ℕ, suc, ◌+◌, ◌%◌, ◌≤◌, ◌<◌, ◌≡◌, refl, ap, inl, inr, false, List, [], ◌∷◌, arith, length, take,
  leb, ◌==◌, Bool-cases,
}
use helens.LoadBalance.{totals, upper_bound, last_or, index, divided_by_zero, get_idx}

module _ {Item : Type 0} (weight : Item → ℕ) where
  abbrev pub sum : List Item → ℕ
  sum [] = 0
  sum (h ∷ hs) = weight h + sum hs

  last_or-totals : (t : ℕ) (hs : List Item) → last_or t (totals weight t hs) ≡ t + sum hs
  unfolding totals
  last_or-totals t [] = omega arith
  last_or-totals t (h ∷ hs) = omega (arith, last_or-totals (t + weight h) hs)

  length-totals : (t : ℕ) (hs : List Item) → length (totals weight t hs) ≡ length hs
  unfolding totals
  length-totals t [] = refl
  length-totals t (h ∷ hs) = ap suc (length-totals (t + weight h) hs)

  -- The item whose part of the line from `t` on holds `dis`.
  abbrev Holds : ℕ → ℕ → List Item → ℕ → Type 0
  Holds t dis hs i =
      (i < length hs) × (t + sum (take i hs) ≤ dis) × (dis < t + sum (take (suc i) hs))

  upper_bound_lem :
      (t dis : ℕ) (hs : List Item)
      → t ≤ dis
      → dis < t + sum hs
      → Holds t dis hs (upper_bound dis (totals weight t hs))
  unfolding totals upper_bound
  upper_bound_lem t dis [] low high = absurd (omega arith)
  upper_bound_lem t dis (h ∷ hs) low high = elim (Bool-cases (leb (t + weight h) dis)) [
    | inl e ↦
        let (i, from, to) =
          upper_bound_lem (t + weight h) dis hs (ground (arith, e)) (omega arith) in
        rw e (omega arith, omega arith, omega arith)
    | inr e ↦ rw e (omega arith, omega arith, ground (arith, e))
  ]

  some_item : (hs : List Item) → 0 < sum hs → 0 < length hs
  some_item [] h = absurd (omega arith)
  some_item (h ∷ hs) pos = omega arith

  total_lem : (hs : List Item) → last_or 0 (totals weight 0 hs) ≡ sum hs
  total_lem hs = omega (arith, last_or-totals 0 hs)

  test-false : (n : ℕ) → 0 < n → (n == 0) ≡ false
  test-false n h = ground arith

  -- With some weight in the list `getIdx` finds the one item whose part of the total the number
  -- `v % total` lies in.
  pub get_idx_lem :
      (v : ℕ) (hs : List Item)
      → 0 < sum hs
      → (i : ℕ) × (get_idx v (totals weight 0 hs) ≡ index i)
        × (i < length hs)
        × (sum (take i hs) ≤ v % sum hs)
        × (v % sum hs < sum (take (suc i) hs))
  unfolding get_idx
  get_idx_lem v hs pos =
      let small = mod-lt v pos in
      let (there, from, to) = upper_bound_lem 0 (v % sum hs) hs (omega arith) (omega arith) in
      (
        upper_bound (v % sum hs) (totals weight 0 hs),
        rw
            (
              length-totals 0 hs,
              test-false (length hs) (some_item hs pos),
              total_lem hs,
              test-false (sum hs) pos,
            )
            refl,
        there,
        omega arith,
        omega arith,
      )

  -- With items and no weight among them `getIdx` divides by zero.
  pub get_idx_no_weight :
      (v : ℕ) (hs : List Item)
      → 0 < length hs
      → sum hs ≡ 0
      → get_idx v (totals weight 0 hs) ≡ divided_by_zero
  unfolding get_idx
  get_idx_no_weight v hs pos none =
      rw (length-totals 0 hs, test-false (length hs) pos, total_lem hs, none) refl
