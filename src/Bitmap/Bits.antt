-- ===== src/Bitmap/Bits.antt =====
-- The bits of a word, one by one.
use Prim.Native.Nat.{bit_and, bit_or}
use native.Mathlib.Nat.{pow-suc, one-le-pow, zero-mul, one-mul}
use helens.Prelude.{
  ℕ, zero, suc, ◌-◌, ◌*◌, ◌/◌, ◌%◌, ◌^◌, ◌≤◌, ◌<◌, min, max, ◌≡◌, refl, ap, ◌∙◌, arith, ltb, lt→ltb,
  ◌==◌, if◌then◌else◌,
}
use helens.Prelude.Bits.{bit_and_halves, bit_or_halves, bit_and-zero, double_shift}

abbrev pub bit : ℕ → ℕ → ℕ
bit zero a = a % 2
bit (suc k) a = bit k (a / 2)

pub bit-lt : (k a : ℕ) → bit k a < 2
bit-lt zero a = omega arith
bit-lt (suc k) a = bit-lt k (a / 2)

pub bit-bit_and : (k a b : ℕ) → bit k (bit_and a b) ≡ min (bit k a) (bit k b)
bit-bit_and zero a b = omega (arith, bit_and_halves a b)
bit-bit_and (suc k) a b =
    ap (bit k) (omega (arith, bit_and_halves a b)) ∙ bit-bit_and k (a / 2) (b / 2)

pub bit-bit_or : (k a b : ℕ) → bit k (bit_or a b) ≡ max (bit k a) (bit k b)
bit-bit_or zero a b = omega (arith, bit_or_halves a b)
bit-bit_or (suc k) a b =
    ap (bit k) (omega (arith, bit_or_halves a b)) ∙ bit-bit_or k (a / 2) (b / 2)

pub bit-zero : (k : ℕ) → bit k 0 ≡ 0
bit-zero zero = refl
bit-zero (suc k) = bit-zero k

pub bit-pow : (j k : ℕ) → bit j (2 ^ k) ≡ (if j == k then 1 else 0)
bit-pow zero zero = refl
bit-pow zero (suc k) = ground (arith, pow-suc 2 k)
bit-pow (suc j) zero = bit-zero j ∙ ground arith
bit-pow (suc j) (suc k) = ap (bit j) (omega (arith, pow-suc 2 k)) ∙ bit-pow j k ∙ ground arith

-- The bits that are not in `a`, of `n`.
pub bit_complement : (j n a : ℕ) → j < n → a < 2 ^ n → bit j (2 ^ n - 1 - a) ≡ 1 - bit j a
bit_complement j zero a h fits = absurd (omega arith)
bit_complement zero (suc n) a h fits = omega (arith, pow-suc 2 n)
bit_complement (suc j) (suc n) a h fits =
    ap (bit j) (omega (arith, pow-suc 2 n, one-le-pow n 2 (omega arith)))
    ∙ bit_complement j n (a / 2) (omega arith) (omega (arith, pow-suc 2 n))

pub bit_mask : (j k : ℕ) → bit j (2 ^ k - 1) ≡ (if ltb j k then 1 else 0)
bit_mask j zero = bit-zero j ∙ ground arith
bit_mask zero (suc k) = ground (arith, pow-suc 2 k, one-le-pow k 2 (omega arith))
bit_mask (suc j) (suc k) =
    ap (bit j) (omega (arith, pow-suc 2 k, one-le-pow k 2 (omega arith)))
    ∙ bit_mask j k
    ∙ ground arith

pub bit_and-pow : (k w : ℕ) → bit_and w (2 ^ k) ≡ bit k w * 2 ^ k
bit_and-pow zero w = omega (arith, bit_and_halves w 1, bit_and-zero (w / 2))
bit_and-pow (suc k) w = omega (
  arith,
  bit_and_halves w (2 ^ suc k),
  pow-suc 2 k,
  ap (λ (t : ℕ). bit_and (w / 2) t) (half k),
  bit_and-pow k (w / 2),
  double_shift (bit k (w / 2)) k,
)
  where
    half : (n : ℕ) → 2 ^ suc n / 2 ≡ 2 ^ n
    half n = omega (arith, pow-suc 2 n)

pub pow_mono : (i n : ℕ) → i < n → 2 ^ i < 2 ^ n
pow_mono i zero h = absurd (omega arith)
pow_mono zero (suc n) h = omega (arith, pow-suc 2 n, one-le-pow n 2 (omega arith))
pow_mono (suc i) (suc n) h = omega (arith, pow-suc 2 i, pow-suc 2 n, pow_mono i n (omega arith))

one_bit : (b p : ℕ) → b < 2 → 1 ≤ p → ltb 0 (b * p) ≡ (b == 1)
one_bit zero p h pos = rw (zero-mul p) refl
one_bit (suc zero) p h pos = rw (one-mul p) (lt→ltb 0 p pos)
one_bit (suc (suc b)) p h pos = absurd (omega arith)

-- `w & POS[k]` as a condition
pub bit_test : (k w : ℕ) → ltb 0 (bit_and w (2 ^ k)) ≡ (bit k w == 1)
bit_test k w =
    rw (bit_and-pow k w) (one_bit (bit k w) (2 ^ k) (bit-lt k w) (one-le-pow k 2 (omega arith)))
