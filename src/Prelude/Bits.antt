-- ===== src/Prelude/Bits.antt =====
-- `|` of disjoint fields, `&` with a low mask and `^` of words, as arithmetic at every width.
use Prim.Native.Nat.{
  bit_and, bit_or, bit_xor, digits, differ, bit_and-bitwise, bit_or-bitwise, bit_xor-bitwise,
}
use mathlib.Core.WellFounded
use native.Mathlib.Nat.{
  pow-suc, one-le-pow, mul-add-mod_self_right, mod-eq_of_lt, mod-lt, div-add-mod',
}
use helens.Prelude.{
  ℕ, zero, suc, ◌+◌, ◌-◌, ◌*◌, ◌/◌, ◌%◌, ◌^◌, ◌≤◌, ◌<◌, min, max, ◌≡◌, refl, ap, ◌∙◌, arith,
}
use helens.Prelude.Order.{lt_wf}

-- The digits that are left once the fuel covers the first number do not depend on the fuel.
module _ (ends : ℕ → ℕ) (digit : ℕ → ℕ → ℕ) where
  enough_fuel : (n m a b : ℕ) → a ≤ n → a ≤ m → digits ends digit n a b ≡ digits ends digit m a b
  enough_fuel zero zero a b p q = refl
  enough_fuel zero (suc m) zero b p q = refl
  enough_fuel zero (suc m) (suc a) b p q = absurd (omega arith)
  enough_fuel (suc n) zero zero b p q = refl
  enough_fuel (suc n) zero (suc a) b p q = absurd (omega arith)
  enough_fuel (suc n) (suc m) zero b p q = refl
  enough_fuel (suc n) (suc m) (suc a) b p q =
      omega (arith, enough_fuel n m (suc a / 2) (b / 2) (omega arith) (omega arith))

  lowest_digit :
      (a b : ℕ)
      → digits ends digit (suc a) (suc a) b
        ≡ digits ends digit (suc a / 2) (suc a / 2) (b / 2) * 2 + digit (suc a % 2) (b % 2)
  lowest_digit a b =
      omega (arith, enough_fuel a (suc a / 2) (suc a / 2) (b / 2) (omega arith) (omega arith))

pub bit_and_halves : (x y : ℕ) → bit_and x y ≡ bit_and (x / 2) (y / 2) * 2 + min (x % 2) (y % 2)
bit_and_halves zero b = simp bit_and-bitwise (omega arith)
bit_and_halves (suc a) b = simp bit_and-bitwise (lowest_digit (λ _. 0) min a b)

pub bit_or_halves : (x y : ℕ) → bit_or x y ≡ bit_or (x / 2) (y / 2) * 2 + max (x % 2) (y % 2)
bit_or_halves zero b = simp bit_or-bitwise (omega arith)
bit_or_halves (suc a) b = simp bit_or-bitwise (lowest_digit (λ y. y) max a b)

zero-bit_or : (b : ℕ) → bit_or 0 b ≡ b
zero-bit_or b = bit_or-bitwise 0 b

zero-bit_xor : (b : ℕ) → bit_xor 0 b ≡ b
zero-bit_xor b = simp bit_xor-bitwise

differ_digits : (x y : ℕ) → x < 2 → y < 2 → differ x y ≡ (x + y) % 2
differ_digits zero zero p q = refl
differ_digits zero (suc zero) p q = refl
differ_digits (suc zero) zero p q = refl
differ_digits (suc zero) (suc zero) p q = refl
differ_digits (suc (suc x)) y p q = absurd (omega arith)
differ_digits x (suc (suc y)) p q = absurd (omega arith)

pub bit_xor_halves : (a b : ℕ) → bit_xor a b ≡ bit_xor (a / 2) (b / 2) * 2 + (a % 2 + b % 2) % 2
bit_xor_halves zero b = omega (arith, zero-bit_xor b, zero-bit_xor (b / 2))
bit_xor_halves (suc a) b =
    rw (← differ_digits (suc a % 2) (b % 2) (omega arith) (omega arith))
      (simp bit_xor-bitwise (lowest_digit (λ y. y) differ a b))

-- An operation with 0, by halving.
by_halves :
    (op : ℕ → ℕ → ℕ) (out : ℕ → ℕ)
    → op 0 0 ≡ out 0
    → ((a : ℕ) → op (a / 2) 0 ≡ out (a / 2) → op a 0 ≡ out a)
    → (a : ℕ) → op a 0 ≡ out a
by_halves op out base next a = WellFounded.induction lt_wf a step
  where
    step : (n : ℕ) → ((m : ℕ) → m < n → op m 0 ≡ out m) → op n 0 ≡ out n
    step zero ih = base
    step (suc n) ih = next (suc n) (ih (suc n / 2) (omega arith))

pub zero-bit_and : (b : ℕ) → bit_and 0 b ≡ 0
zero-bit_and b = bit_and-bitwise 0 b

pub bit_and-zero : (a : ℕ) → bit_and a 0 ≡ 0
bit_and-zero = by_halves bit_and (λ _. 0) refl (λ a ih. omega (arith, bit_and_halves a 0))

pub bit_xor-zero : (a : ℕ) → bit_xor a 0 ≡ a
bit_xor-zero = by_halves bit_xor (λ a. a) refl (λ a ih. omega (arith, bit_xor_halves a 0))

pub double_shift : (q k : ℕ) → q * 2 ^ suc k ≡ 2 * (q * 2 ^ k)
double_shift q k = omega (arith, ap (λ (t : ℕ). q * t) (pow-suc 2 k))

pub pow-add : (a b : ℕ) → 2 ^ (a + b) ≡ 2 ^ a * 2 ^ b
pow-add zero b = ap (λ (t : ℕ). 2 ^ t) zero_plus ∙ omega arith
  where
    zero_plus : 0 + b ≡ b
    zero_plus = omega arith
pow-add (suc a) b =
    ap (λ (t : ℕ). 2 ^ t) suc_plus
    ∙ omega (arith, pow-suc 2 (a + b), pow-add a b, ap (λ (t : ℕ). t * 2 ^ b) (pow-suc 2 a))
  where
    suc_plus : suc a + b ≡ suc (a + b)
    suc_plus = omega arith

-- `r | (q << k)` is a sum when `r` has `k` bits.
pub bit_or-shifted : (k q r : ℕ) → r < 2 ^ k → bit_or r (q * 2 ^ k) ≡ r + q * 2 ^ k
bit_or-shifted zero q zero fits = omega (arith, zero-bit_or (q * 2 ^ 0))
bit_or-shifted zero q (suc r) fits = absurd (omega arith)
bit_or-shifted (suc k) q r fits = omega (
  arith,
  bit_or_halves r (q * 2 ^ suc k),
  double_shift q k,
  pow-suc 2 k,
  bit_or-shifted k q (r / 2) (omega (arith, pow-suc 2 k)),
  ap (λ (t : ℕ). bit_or (r / 2) t) half_shift,
)
  where
    half_shift : q * 2 ^ suc k / 2 ≡ q * 2 ^ k
    half_shift = omega (arith, double_shift q k)

half_ones : (k : ℕ) → (2 ^ suc k - 1) / 2 ≡ 2 ^ k - 1
half_ones k = omega (arith, pow-suc 2 k, one-le-pow k 2 (omega arith))

pub bit_or-zero : (a : ℕ) → bit_or a 0 ≡ a
bit_or-zero = by_halves bit_or (λ a. a) refl (λ a ih. omega (arith, bit_or_halves a 0))

-- All ones swallow what has no more bits.
pub bit_or_mask : (k a : ℕ) → a < 2 ^ k → bit_or a (2 ^ k - 1) ≡ 2 ^ k - 1
bit_or_mask zero zero h = refl
bit_or_mask zero (suc a) h = absurd (omega arith)
bit_or_mask (suc k) a h = omega (
  arith,
  bit_or_halves a (2 ^ suc k - 1),
  pow-suc 2 k,
  one-le-pow k 2 (omega arith),
  ap (λ (t : ℕ). bit_or (a / 2) t) (half_ones k),
  bit_or_mask k (a / 2) (omega (arith, pow-suc 2 k)),
)

mod-halves : (k a : ℕ) → a % 2 ^ suc k ≡ a / 2 % 2 ^ k * 2 + a % 2
mod-halves k a =
    ap (λ (t : ℕ). t % 2 ^ suc k) split
    ∙ mul-add-mod_self_right (a / 2 / 2 ^ k) (2 ^ suc k) (a / 2 % 2 ^ k * 2 + a % 2)
    ∙ mod-eq_of_lt small
  where
    split : a ≡ a / 2 / 2 ^ k * 2 ^ suc k + (a / 2 % 2 ^ k * 2 + a % 2)
    split = omega (arith, double_shift (a / 2 / 2 ^ k) k, div-add-mod' (a / 2) (2 ^ k))

    small : a / 2 % 2 ^ k * 2 + a % 2 < 2 ^ suc k
    small = omega (arith, pow-suc 2 k, mod-lt (a / 2) (one-le-pow k 2 (omega arith)))

-- `a & (2^k - 1)` is the remainder by `2^k`.
pub bit_and_mask : (k a : ℕ) → bit_and a (2 ^ k - 1) ≡ a % 2 ^ k
bit_and_mask zero a = omega (arith, bit_and-zero a)
bit_and_mask (suc k) a = omega (
  arith,
  bit_and_halves a (2 ^ suc k - 1),
  pow-suc 2 k,
  one-le-pow k 2 (omega arith),
  ap (λ (t : ℕ). bit_and (a / 2) t) (half_ones k),
  bit_and_mask k (a / 2),
  mod-halves k a,
)

-- `a ^ (2^k - 1)` flips the `k` bits of `a`.
pub bit_xor_ones : (k a : ℕ) → a < 2 ^ k → bit_xor a (2 ^ k - 1) + a ≡ 2 ^ k - 1
bit_xor_ones zero zero fits = refl
bit_xor_ones zero (suc a) fits = absurd (omega arith)
bit_xor_ones (suc k) a fits = omega (
  arith,
  bit_xor_halves a (2 ^ suc k - 1),
  pow-suc 2 k,
  one-le-pow k 2 (omega arith),
  ap (λ (t : ℕ). bit_xor (a / 2) t) (half_ones k),
  bit_xor_ones k (a / 2) (omega (arith, pow-suc 2 k)),
)

bit_xor_self : (a : ℕ) → bit_xor a a ≡ 0
bit_xor_self a = WellFounded.induction lt_wf a step
  where
    step : (n : ℕ) → ((m : ℕ) → m < n → bit_xor m m ≡ 0) → bit_xor n n ≡ 0
    step zero ih = refl
    step (suc n) ih = omega (arith, bit_xor_halves (suc n) (suc n), ih (suc n / 2) (omega arith))

abbrev Cancels : ℕ → Type 0
Cancels n = (c : ℕ) → bit_xor (bit_xor n c) c ≡ n

-- A mask applied twice is gone.
pub bit_xor_twice : (a b : ℕ) → bit_xor (bit_xor a b) b ≡ a
bit_xor_twice a = WellFounded.induction lt_wf {C = Cancels} a step
  where
    step : (n : ℕ) → ((m : ℕ) → m < n → Cancels m) → Cancels n
    step zero ih c = omega (arith, ap (λ (t : ℕ). bit_xor t c) (zero-bit_xor c), bit_xor_self c)
    step (suc n) ih c = omega (
      arith,
      bit_xor_halves (bit_xor (suc n) c) c,
      bit_xor_halves (suc n) c,
      ap (λ (t : ℕ). bit_xor t (c / 2)) half,
      ih (suc n / 2) (omega arith) (c / 2),
    )
      where
        half : bit_xor (suc n) c / 2 ≡ bit_xor (suc n / 2) (c / 2)
        half = omega (arith, bit_xor_halves (suc n) c)

-- A result of `^` has no more bits than its arguments.
pub bit_xor-lt : (k a b : ℕ) → a < 2 ^ k → b < 2 ^ k → bit_xor a b < 2 ^ k
bit_xor-lt zero zero zero p q = omega arith
bit_xor-lt zero (suc a) b p q = absurd (omega arith)
bit_xor-lt zero a (suc b) p q = absurd (omega arith)
bit_xor-lt (suc k) a b p q = omega (
  arith,
  bit_xor_halves a b,
  pow-suc 2 k,
  bit_xor-lt k (a / 2) (b / 2) (omega (arith, pow-suc 2 k)) (omega (arith, pow-suc 2 k)),
)
