-- ===== src/Prelude/Rounds.antt =====
-- Going round a list once, from any place.
use native.Mathlib.Nat.{mod-eq_of_lt, mul-add-mod_self_right}
use helens.Prelude.Tests.{leb, Bool-cases}
use helens.Prelude.Lists.{length, get_elem?, All}
use Prim.Native.Nat.{ℕ, zero, suc, ◌+◌, ◌-◌, ◌*◌, ◌%◌, ◌≤◌, ◌<◌}
use mathlib.Core.Path.{◌≡◌, refl, ap, ◌∙◌}
use mathlib.Core.Logic.{inl, inr}
use mathlib.Core.Option.{some}
use mathlib.Core.List.{List, [], ◌∷◌}
use native.Mathlib.Omega.{arith}

-- The round of the loop that looks at the index `k`.
pub round_of : (n start k : ℕ) → start < n → k < n → (i : ℕ) × (i < n) × ((start + i) % n ≡ k)
round_of n start k s h = elim (Bool-cases (leb start k)) [
  | inl e ↦
      let le : start ≤ k = ground (arith, e) in
      let back : start + (k - start) ≡ k = omega arith in
      (k - start, omega arith, ap (λ (t : ℕ). t % n) back ∙ mod-eq_of_lt h)
  | inr e ↦
      let gt : k < start = ground (arith, e) in
      let back : start + (k + n - start) ≡ 1 * n + k = omega arith in
      (
        k + n - start,
        omega arith,
        ap (λ (t : ℕ). t % n) back ∙ mul-add-mod_self_right 1 n k ∙ mod-eq_of_lt h,
      )
]

module _ {Item : Type 0} where
  pub All-get_elem? :
      (P : Item → Type 0) (xs : List Item)
      → ((k : ℕ) (h : Item) → get_elem? xs k ≡ some h → P h)
      → All P xs
  All-get_elem? P [] f = tt
  All-get_elem? P (x ∷ xs) f = (f 0 x refl, All-get_elem? P xs (λ k h e. f (suc k) h e))

  pub some_elem : (xs : List Item) (k : ℕ) → k < length xs → (h : Item) × (get_elem? xs k ≡ some h)
  some_elem [] k h = absurd (omega arith)
  some_elem (x ∷ xs) zero h = (x, refl)
  some_elem (x ∷ xs) (suc k) h = some_elem xs k (omega arith)

  pub in_range : (xs : List Item) (k : ℕ) (h : Item) → get_elem? xs k ≡ some h → k < length xs
  in_range [] k h e = cc
  in_range (x ∷ xs) zero h e = omega arith
  in_range (x ∷ xs) (suc k) h e = omega (arith, in_range xs k h e)
