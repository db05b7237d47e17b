-- ===== src/Bitmap/Compressed/Words.antt =====
-- Words of a bitmap as numbers: plain words, run words, and what `kind` finds out.
use Prim.Native.Nat.{bit_or}
use native.Mathlib.Nat.{pow-suc, one-le-pow}
use helens.Prelude.{
  ℕ, zero, suc, ◌+◌, ◌-◌, ◌*◌, ◌/◌, ◌%◌, ◌^◌, ◌≤◌, ◌<◌, ◌≡◌, sym, ap, ◌∙◌, Bool, true, false, arith,
  ◌==◌, if◌then◌else◌,
}
use helens.Prelude.Bits.{bit_and_mask, bit_or-shifted}
use helens.Bitmap.Bits.{bit_test, bit}
use helens.Bitmap.Compressed.{
  low, is_run, value_of, full, run_word, count_bits, uniform, mixed, kind,
}

-- A word that uses its 14 bits only
abbrev pub IsPlain : ℕ → Type 0
IsPlain w = w < 2 ^ 14

pub low_lem : (w : ℕ) → low w ≡ w % 2 ^ 14
low_lem w = bit_and_mask 14 w

pub low_plain : (w : ℕ) → IsPlain w → low w ≡ w
low_plain w h = omega (arith, low_lem w)

pub plain_run : (w : ℕ) → IsPlain w → is_run w ≡ false
plain_run w h = bit_test 15 w ∙ ground (arith, top)
  where
    top : bit 15 w ≡ 0
    top = omega arith

abbrev head : Bool → ℕ
head true = 3
head false = 2

run_word_lem : (v : Bool) (c : ℕ) → run_word v c ≡ c % 2 ^ 14 + head v * 2 ^ 14
run_word_lem true c =
    ap (λ (t : ℕ). bit_or t (3 * 2 ^ 14)) (low_lem c)
    ∙ bit_or-shifted 14 3 (c % 2 ^ 14) (omega arith)
run_word_lem false c =
    ap (λ (t : ℕ). bit_or t (2 * 2 ^ 14)) (low_lem c)
    ∙ bit_or-shifted 14 2 (c % 2 ^ 14) (omega arith)

pub is_run-run_word : (v : Bool) (c : ℕ) → is_run (run_word v c) ≡ true
is_run-run_word v c = bit_test 15 (run_word v c) ∙ ground (arith, top v)
  where
    top : (v : Bool) → bit 15 (run_word v c) ≡ 1
    top true = ap (bit 15) (run_word_lem true c) ∙ omega arith
    top false = ap (bit 15) (run_word_lem false c) ∙ omega arith

pub value_of-run_word : (v : Bool) (c : ℕ) → value_of (run_word v c) ≡ v
value_of-run_word true c = bit_test 14 (run_word true c) ∙ ground (arith, top)
  where
    top : bit 14 (run_word true c) ≡ 1
    top = ap (bit 14) (run_word_lem true c) ∙ omega arith
value_of-run_word false c = bit_test 14 (run_word false c) ∙ ground (arith, top)
  where
    top : bit 14 (run_word false c) ≡ 0
    top = ap (bit 14) (run_word_lem false c) ∙ omega arith

pub low-run_word : (v : Bool) (c : ℕ) → low (run_word v c) ≡ c % 2 ^ 14
low-run_word true c = low_lem (run_word true c) ∙ omega (arith, run_word_lem true c)
low-run_word false c = low_lem (run_word false c) ∙ omega (arith, run_word_lem false c)

pub full-IsPlain : (v : Bool) → IsPlain (full v)
full-IsPlain true = omega arith
full-IsPlain false = omega arith

pub count_bits_lem :
    (n k w : ℕ)
    → w < 2 ^ k
    → k ≤ n
    → (count_bits n w ≤ k) × (count_bits n w ≡ k → w ≡ 2 ^ k - 1) × (count_bits n w ≡ 0 → w ≡ 0)
unfolding count_bits
count_bits_lem zero zero w h le = (omega arith, λ e. omega arith, λ e. omega arith)
count_bits_lem zero (suc k) w h le = absurd (omega arith)
count_bits_lem (suc n) zero w h le =
    let rest = count_bits_lem n zero (w / 2) (omega arith) (omega arith) in
    (omega (arith, rest.0), λ e. omega arith, λ e. omega arith)
count_bits_lem (suc n) (suc k) w h le =
    let rest = count_bits_lem n k (w / 2) (omega (arith, pow-suc 2 k)) (omega arith) in
    let le' = rest.0 in
    (
      omega arith,
      λ e. omega (arith, rest.1 (omega arith), pow-suc 2 k, one-le-pow k 2 (omega arith)),
      λ e. omega (arith, rest.2 (omega arith)),
    )

-- What the test of `kind` says of the count.
counted :
    (c : ℕ) (u : Bool)
    → (if c == 0 then uniform false else if c == 14 then uniform true else mixed) ≡ uniform u
    → c ≡ (if u then 14 else 0)
counted c true e = ground arith
counted c false e = ground arith

-- What is not mixed is all zeros or all ones.
pub kind_lem : (w : ℕ) (u : Bool) → IsPlain w → kind w ≡ uniform u → w ≡ full u
unfolding kind
kind_lem w true plain e =
    let lem = count_bits_lem 16 14 w plain (omega arith) in
    lem.1 (ap (count_bits 16) (sym (low_plain w plain)) ∙ counted (count_bits 16 (low w)) true e)
kind_lem w false plain e =
    let lem = count_bits_lem 16 14 w plain (omega arith) in
    lem.2 (ap (count_bits 16) (sym (low_plain w plain)) ∙ counted (count_bits 16 (low w)) false e)
