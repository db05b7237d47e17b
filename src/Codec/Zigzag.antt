-- ===== src/Codec/Zigzag.antt =====
-- The zigzag codes on 32 and on 64 bits.
use helens.Prelude.{
  ℕ, ◌+◌, ◌-◌, ◌*◌, ◌/◌, ◌%◌, ◌^◌, ◌≤◌, ◌<◌, ◌≡◌, arith, ltb, ltb→lt, Bool-cases, inl, inr, ap, ◌∙◌,
}
use helens.Prelude.Bits.{bit_and_mask, bit_xor-zero, bit_xor_ones}
use helens.Codec.{encode_zigzag32, encode_zigzag64, decode_zigzag32, decode_zigzag64}
use Prim.Native.Nat.{bit_and, bit_xor}

-- Decoding takes the sign from the lowest bit.
decode_even32 : (h : ℕ) → h < 2 ^ 31 → decode_zigzag32 (h * 2) ≡ h
unfolding decode_zigzag32
decode_even32 h lt = cc (half, ap (λ (t : ℕ). (2 ^ 32 - t) % 2 ^ 32) even, bit_xor-zero h)
  where
    half : h * 2 / 2 ≡ h
    half = omega arith

    even : bit_and (h * 2) 1 ≡ 0
    even = omega (arith, bit_and_mask 1 (h * 2))

decode_odd32 : (h : ℕ) → h < 2 ^ 31 → decode_zigzag32 (h * 2 + 1) ≡ 2 ^ 32 - 1 - h
unfolding decode_zigzag32
decode_odd32 h lt = cc (half, ap (λ (t : ℕ). (2 ^ 32 - t) % 2 ^ 32) odd, flipped)
  where
    half : (h * 2 + 1) / 2 ≡ h
    half = omega arith

    odd : bit_and (h * 2 + 1) 1 ≡ 1
    odd = omega (arith, bit_and_mask 1 (h * 2 + 1))

    flipped : bit_xor h (2 ^ 32 - 1) ≡ 2 ^ 32 - 1 - h
    flipped = omega (arith, bit_xor_ones 32 h (omega arith))

pub encode_zigzag32-lt : (v : ℕ) → encode_zigzag32 v < 2 ^ 32
unfolding encode_zigzag32
encode_zigzag32-lt v = ground arith

-- Every 32-bit integer is read back from its zigzag code.
pub decode_zigzag32-encode_zigzag32 : (v : ℕ) → v < 2 ^ 32 → decode_zigzag32 (encode_zigzag32 v) ≡ v
unfolding encode_zigzag32
decode_zigzag32-encode_zigzag32 v h = elim (Bool-cases (ltb v (2 ^ 31))) [
  | inl nonneg ↦
      rw nonneg (
        ap decode_zigzag32 (omega (arith, ltb→lt _ _ nonneg)) ∙ decode_even32 v (ltb→lt _ _ nonneg))
  | inr neg ↦
      let big : 2 ^ 31 ≤ v = ground arith in
      rw neg
        (ap decode_zigzag32 (code big) ∙ decode_odd32 (2 ^ 32 - 1 - v) (omega arith) ∙ omega arith)
]
  where
    code : 2 ^ 31 ≤ v → ((2 ^ 32 - v) % 2 ^ 32 * 2 + 2 ^ 32 - 1) % 2 ^ 32 ≡ (2 ^ 32 - 1 - v) * 2 + 1
    code big = omega arith

-- Decoding takes the sign from the lowest bit.
decode_even64 : (h : ℕ) → h < 2 ^ 63 → decode_zigzag64 (h * 2) ≡ h
unfolding decode_zigzag64
decode_even64 h lt = cc (half, ap (λ (t : ℕ). (2 ^ 64 - t) % 2 ^ 64) even, bit_xor-zero h)
  where
    half : h * 2 / 2 ≡ h
    half = omega arith

    even : bit_and (h * 2) 1 ≡ 0
    even = omega (arith, bit_and_mask 1 (h * 2))

decode_odd64 : (h : ℕ) → h < 2 ^ 63 → decode_zigzag64 (h * 2 + 1) ≡ 2 ^ 64 - 1 - h
unfolding decode_zigzag64
decode_odd64 h lt = cc (half, ap (λ (t : ℕ). (2 ^ 64 - t) % 2 ^ 64) odd, flipped)
  where
    half : (h * 2 + 1) / 2 ≡ h
    half = omega arith

    odd : bit_and (h * 2 + 1) 1 ≡ 1
    odd = omega (arith, bit_and_mask 1 (h * 2 + 1))

    flipped : bit_xor h (2 ^ 64 - 1) ≡ 2 ^ 64 - 1 - h
    flipped = omega (arith, bit_xor_ones 64 h (omega arith))

pub encode_zigzag64-lt : (v : ℕ) → encode_zigzag64 v < 2 ^ 64
unfolding encode_zigzag64
encode_zigzag64-lt v = ground arith

-- Every 64-bit integer is read back from its zigzag code.
pub decode_zigzag64-encode_zigzag64 : (v : ℕ) → v < 2 ^ 64 → decode_zigzag64 (encode_zigzag64 v) ≡ v
unfolding encode_zigzag64
decode_zigzag64-encode_zigzag64 v h = elim (Bool-cases (ltb v (2 ^ 63))) [
  | inl nonneg ↦
      rw nonneg (
        ap decode_zigzag64 (omega (arith, ltb→lt _ _ nonneg)) ∙ decode_even64 v (ltb→lt _ _ nonneg))
  | inr neg ↦
      let big : 2 ^ 63 ≤ v = ground arith in
      rw neg
        (ap decode_zigzag64 (code big) ∙ decode_odd64 (2 ^ 64 - 1 - v) (omega arith) ∙ omega arith)
]
  where
    code : 2 ^ 63 ≤ v → ((2 ^ 64 - v) % 2 ^ 64 * 2 + 2 ^ 64 - 1) % 2 ^ 64 ≡ (2 ^ 64 - 1 - v) * 2 + 1
    code big = omega arith
