-- ===== src/Codec/Varint.antt =====
-- `writeUint32` and `writeUint64` against `readUint32` and `readUint64`.
use Prim.Native.Nat.{bit_and, bit_or}
use native.Mathlib.Nat.{pow-suc, mod-eq_of_lt}
use helens.Prelude.{
  ℕ, zero, suc, ◌+◌, ◌*◌, ◌/◌, ◌%◌, ◌^◌, ◌≤◌, ◌<◌, ◌≡◌, refl, ap, ◌∙◌, inl, inr, false, ◌⊎◌, Option,
  lt→ltb, none, some, List, [], ◌∷◌, ◌++◌, arith, length, ltb, ltb→lt, Bool-cases,
}
use helens.Prelude.Bits.{bit_and_mask, bit_or-shifted, pow-add}
use helens.ByteArray.{Endian, done, read}
use helens.ByteArray.Stream.{Takes, read-Takes, bind-done}
use helens.Codec.{from_le, varint, read_fuint8, read_varint, read_uint32, read_uint64}

-- The loop of the writer ends within `tmp`, which has `n` bytes, for a number of `7 * n` bits.
pub varint_total :
    (n v : ℕ)
    → v < 128 ^ n
    → 0 < n
    → (bs : List ℕ) × (varint n v ≡ some bs) × (0 < length bs) × (length bs ≤ n)
unfolding varint
varint_total zero v h pos = absurd (omega arith)
varint_total (suc n) v h pos = elim (Bool-cases (ltb v 128)) [
  | inl last ↦ (v % 256 ∷ [], rw last, omega arith, omega arith)
  | inr more ↦
      let (bs, e, _, le) =
        varint_total n (v / 128) (omega (arith, pow-suc 128 n))
          (left n (omega (arith, pow-suc 128 n, not_small more))) in
      (bit_or (bit_and v 127) 128 ∷ bs, rw (more, e), omega arith, omega (arith, le))
]
  where
    not_small : ltb v 128 ≡ false → 128 ≤ v
    not_small more = ground arith

    left : (k : ℕ) → 128 < 128 ^ suc k → 0 < k
    left zero g = absurd (omega arith)
    left (suc k) g = omega arith

read_fuint8-Takes : (e : Endian) (b : ℕ) → Takes e read_fuint8 (b ∷ []) b
unfolding read_fuint8 from_le
read_fuint8-Takes e b rest s u =
    let (s', ran, u') = read-Takes e (b ∷ []) (omega arith) rest s u in
    (s', bind-done (read 1) _ ran ∙ ap (λ (t : ℕ). done t s') (omega arith), u')

-- The byte that carries seven bits and announces more.
more_byte : (v : ℕ) → bit_or (bit_and v 127) 128 ≡ v % 128 + 128
more_byte v =
    ap (λ (t : ℕ). bit_or t 128) (bit_and_mask 7 v) ∙ bit_or-shifted 7 1 (v % 128) (omega arith)

-- `result |= (uint_t)q << i` adds, when nothing is lost.
or_shifted :
    (bits i q result : ℕ)
    → result < 2 ^ i
    → q * 2 ^ i < 2 ^ bits
    → bit_or result (q * 2 ^ i % 2 ^ bits) ≡ result + q * 2 ^ i
or_shifted bits i q result h fits =
    ap (bit_or result) (mod-eq_of_lt fits) ∙ bit_or-shifted i q result h

-- The part of a number that is still to come, and the part that is read.
split_product : (v p : ℕ) → v / 128 * (128 * p) + v % 128 * p ≡ v * p
split_product v p = omega (arith, ap (λ (t : ℕ). t * p) parts)
  where
    parts : v ≡ v / 128 * 128 + v % 128
    parts = omega arith

low_product : (a p : ℕ) → a < 128 → a * p + p ≤ 128 * p
low_product a p h = grind arith

-- The two ways in which the writer's loop goes on.
varint_cases :
    (n v : ℕ) (bs : List ℕ)
    → varint (suc n) v ≡ some bs
    → ((v < 128) × (bs ≡ v ∷ []))
      ⊎ ((128 ≤ v)
          × ((rest : List ℕ) × (varint n (v / 128) ≡ some rest) × (bs ≡ (v % 128 + 128) ∷ rest)))
unfolding varint
varint_cases n v bs h = elim (Bool-cases (ltb v 128)) [
  | inl last ↦
      let small = ltb→lt _ _ last in inl (small, ground (arith, mod-eq_of_lt {n = v} {m = 256}))
  | inr more ↦ inr (ground arith, go (varint n (v / 128)) refl more)
]
  where
    go :
        (o : Option (List ℕ))
        → varint n (v / 128) ≡ o
        → ltb v 128 ≡ false
        → (rest : List ℕ) × (varint n (v / 128) ≡ some rest) × (bs ≡ (v % 128 + 128) ∷ rest)
    go none e more = ground arith
    go (some rest) e more = (rest, e, ground (arith, more_byte v))

module _ (e : Endian) (bits rounds i result v : ℕ) (small : result < 2 ^ i) where
  last-Takes :
      v < 128
      → v * 2 ^ i < 2 ^ bits
      → Takes e (read_varint bits (suc rounds) i result) (v ∷ []) (result + v * 2 ^ i)
  unfolding read_varint
  last-Takes low fits rest s u =
      let (s', ran, u') = read_fuint8-Takes e v rest s u in
      (
        s',
        bind-done read_fuint8 _ ran
            ∙ rw (lt→ltb _ _ low)
                (ap (λ (t : ℕ). done t s') (or_shifted bits i v result small fits)),
        u',
      )

  more-Takes :
      (bs : List ℕ) (x : ℕ)
      → v % 128 * 2 ^ i < 2 ^ bits
      → Takes e (read_varint bits rounds (i + 7) (result + v % 128 * 2 ^ i)) bs x
      → Takes e (read_varint bits (suc rounds) i result) ((v % 128 + 128) ∷ bs) x
  unfolding read_varint
  more-Takes bs x fits later rest s u =
      let (s1, ran1, u1) = read_fuint8-Takes e (v % 128 + 128) (bs ++ rest) s u in
      let (s2, ran2, u2) = later rest s1 u1 in
      (
        s2,
        bind-done read_fuint8 _ ran1
            ∙ rw not_last (ap (λ (t : ℕ). read_varint bits rounds (i + 7) t s1) added ∙ ran2),
        u2,
      )
    where
      not_last : ltb (v % 128 + 128) 128 ≡ false
      not_last = ground arith

      low_bits : bit_and (v % 128 + 128) 127 ≡ v % 128
      low_bits = omega (arith, bit_and_mask 7 (v % 128 + 128))

      added :
          bit_or result (bit_and (v % 128 + 128) 127 * 2 ^ i % 2 ^ bits) ≡ result + v % 128 * 2 ^ i
      added =
          ap (λ (t : ℕ). bit_or result (t * 2 ^ i % 2 ^ bits)) low_bits
          ∙ or_shifted bits i (v % 128) result small fits

-- The reader takes what the writer's loop put, if it has as many rounds and the number fits.
pub read_varint-Takes :
    (e : Endian) (bits n rounds i result v : ℕ) (bs : List ℕ)
    → varint n v ≡ some bs
    → n ≤ rounds
    → result < 2 ^ i
    → result + v * 2 ^ i < 2 ^ bits
    → Takes e (read_varint bits rounds i result) bs (result + v * 2 ^ i)
unfolding varint
read_varint-Takes e bits zero rounds i result v bs h le small fits = cc
read_varint-Takes e bits (suc n) zero i result v bs h le small fits = absurd (omega arith)
read_varint-Takes e bits (suc n) (suc rounds) i result v bs h le small fits =
    elim (varint_cases n v bs h) [
      | inl (low, is) ↦ rw is (last-Takes e bits rounds i result v small low (omega arith))
      | inr (high, (rest, h', is)) ↦
          rw (is, ← total)
            (more-Takes e bits rounds i result v small rest _
              (omega (arith, split_product v (2 ^ i)))
              (read_varint-Takes e bits n rounds (i + 7) (result + v % 128 * 2 ^ i) (v / 128) rest
                h' (omega arith)
                (omega (arith, pow-add i 7, low_product (v % 128) (2 ^ i) (omega arith)))
                (omega (arith, total))))
    ]
  where
    total : result + v % 128 * 2 ^ i + v / 128 * 2 ^ (i + 7) ≡ result + v * 2 ^ i
    total = omega (arith, split_product v (2 ^ i), ap (λ (t : ℕ). v / 128 * t) (pow-add i 7))

pub read_uint32-Takes :
    (e : Endian) (v : ℕ) (bs : List ℕ)
    → v < 2 ^ 32
    → varint 5 v ≡ some bs
    → Takes e read_uint32 bs v
unfolding read_uint32
read_uint32-Takes e v bs fits h rest s u =
    let (s', ran, u') =
      read_varint-Takes e 32 5 5 0 0 v bs h (omega arith) (omega arith) (omega arith) rest s u in
    (s', ran ∙ ap (λ (t : ℕ). done t s') (omega arith), u')

pub read_uint64-Takes :
    (e : Endian) (v : ℕ) (bs : List ℕ)
    → v < 2 ^ 64
    → varint 10 v ≡ some bs
    → Takes e read_uint64 bs v
unfolding read_uint64
read_uint64-Takes e v bs fits h rest s u =
    let (s', ran, u') =
      read_varint-Takes e 64 10 10 0 0 v bs h (omega arith) (omega arith) (omega arith) rest s u in
    (s', ran ∙ ap (λ (t : ℕ). done t s') (omega arith), u')
