-- ===== src/Prelude/Family.antt =====
-- Families indexed by natural numbers: one place changed, and sums over the indices below a bound.
use helens.Prelude.Tests.{◌==◌, if◌then◌else◌}
use Prim.Native.Nat.{ℕ, zero, suc, ◌+◌, ◌≤◌, ◌<◌}
use mathlib.Core.Path.{◌≡◌, refl}
use mathlib.Core.Logic.{◌≢◌}
use native.Mathlib.Decide.{ℕ_discrete}
use native.Mathlib.Omega.{arith}

module _ {ℓ} {A : Type ℓ} where
  abbrev pub put : (ℕ → A) → ℕ → A → ℕ → A
  put g i v j = if i == j then v else g j

  abbrev pub sum_below : (A → ℕ) → ℕ → (ℕ → A) → ℕ
  sum_below f zero g = 0
  sum_below f (suc n) g = f (g n) + sum_below f n g

  sum_below-put_above :
      (f : A → ℕ) (n : ℕ) (g : ℕ → A) (i : ℕ) (v : A)
      → n ≤ i
      → sum_below f n (put g i v) ≡ sum_below f n g
  sum_below-put_above f zero g i v h = refl
  sum_below-put_above f (suc n) g i v h =
      ground (arith, sum_below-put_above f n g i v (omega arith))

  -- A change at one place changes the sum by what changes there.
  pub sum_below-put :
      (f : A → ℕ) (n : ℕ) (g : ℕ → A) (i : ℕ) (v : A)
      → i < n
      → sum_below f n (put g i v) + f (g i) ≡ sum_below f n g + f v
  sum_below-put f zero g i v h = elim h [ ]
  sum_below-put f (suc n) g i v h = elim (ℕ_discrete i n) [
    | yes e ↦ ground (arith, sum_below-put_above f n g i v (omega arith))
    | no ne ↦ ground (arith, sum_below-put f n g i v (omega arith))
  ]

  pub le-sum_below : (f : A → ℕ) (n : ℕ) (g : ℕ → A) (i : ℕ) → i < n → f (g i) ≤ sum_below f n g
  le-sum_below f zero g i h = elim h [ ]
  le-sum_below f (suc n) g i h = elim (ℕ_discrete i n) [
    | yes e ↦ ground arith
    | no ne ↦ ground (arith, le-sum_below f n g i (omega arith))
  ]

  -- Two places count separately.
  pub add-le-sum_below :
      (f : A → ℕ) (n : ℕ) (g : ℕ → A) (i j : ℕ)
      → i < n
      → j < n
      → i ≢ j
      → f (g i) + f (g j) ≤ sum_below f n g
  add-le-sum_below f zero g i j h k ne = elim h [ ]
  add-le-sum_below f (suc n) g i j h k ne = elim (ℕ_discrete i n) [
    | yes e ↦ ground (arith, le-sum_below f n g j (omega arith))
    | no a ↦ elim (ℕ_discrete j n) [
      | yes e ↦ ground (arith, le-sum_below f n g i (omega arith))
      | no b ↦ ground (arith, add-le-sum_below f n g i j (omega arith) (omega arith) ne)
    ]
  ]

  pub sum_below-const_zero : (f : A → ℕ) (n : ℕ) (a : A) → f a ≡ 0 → sum_below f n (λ _. a) ≡ 0
  sum_below-const_zero f zero a h = refl
  sum_below-const_zero f (suc n) a h = omega (arith, sum_below-const_zero f n a h)

  -- One weight below another at each place.
  pub sum_below_mono :
      (f h : A → ℕ) (n : ℕ) (g : ℕ → A) → ((a : A) → f a ≤ h a) → sum_below f n g ≤ sum_below h n g
  sum_below_mono f h zero g le = omega arith
  sum_below_mono f h (suc n) g le = omega (arith, le (g n), sum_below_mono f h n g le)
