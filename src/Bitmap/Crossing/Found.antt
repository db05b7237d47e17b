-- ===== src/Bitmap/Crossing/Found.antt =====
-- cross, and what get finds in both bitmaps.
use Prim.Native.Nat.{bit_and}
use native.Mathlib.Nat.{pow-suc}
use helens.Prelude.{
  ℕ, zero, suc, ◌+◌, ◌*◌, ◌/◌, ◌%◌, ◌^◌, ◌<◌, min, ◌≡◌, refl, sym, ap, ◌∙◌, Bool, true, false, ◌||◌,
  Option, some, List, [], ◌∷◌, arith, length, get_elem?, ltb, ◌==◌, if◌then◌else◌, All, Bool-cases,
  inl, inr, ℕ_discrete,
}
use helens.Prelude.Maybe.{>>=-eq-some}
use helens.Prelude.Bits.{bit_and_halves, zero-bit_and}
use helens.Bitmap.{Bitmap, get}
use helens.Bitmap.Bits.{bit, bit-bit_and, bit-zero, bit_test}
use helens.Bitmap.Laws.{has_bit, get_at}
use helens.Bitmap.Compressed.{closed, pieces, compress_from, compress}
use helens.Bitmap.Compressed.Words.{IsPlain}
use helens.Bitmap.Compressed.Writing.{compress_from-Decodes}
use helens.Bitmap.Compressed.RoundTrip.{IsWhole, compress-form, word_count}
use helens.Bitmap.Crossing.{compress_cross, normal_cross, cross}
use helens.Bitmap.Crossing.Shared.{shares, normal_cross_lem, compress_cross_lem}

-- Numbers share a bit if and only if `&` is not 0.
common_bit :
    (n x y : ℕ) → x < 2 ^ n → 0 < bit_and x y → (k : ℕ) × (k < n) × (bit k x ≡ 1) × (bit k y ≡ 1)
common_bit zero x y fits pos =
    absurd (omega (arith, ap (λ (t : ℕ). bit_and t y) (only x fits), zero-bit_and y))
  where
    only : (x : ℕ) → x < 2 ^ 0 → x ≡ 0
    only x h = omega arith
common_bit (suc n) x y fits pos = elim (ℕ_discrete (min (x % 2) (y % 2)) 1) [
  | yes e ↦ (0, omega arith, omega arith, omega arith)
  | no ne ↦
      let (k, lt, in_x, in_y) =
        common_bit n (x / 2) (y / 2) (omega (arith, pow-suc 2 n))
          (omega (arith, bit_and_halves x y)) in
      (suc k, omega arith, in_x, in_y)
]

in_both : (k x y : ℕ) → bit k x ≡ 1 → bit k y ≡ 1 → 0 < bit_and x y
in_both k x y p q = elim (ℕ_discrete (bit_and x y) 0) [
  | yes e ↦ absurd (omega (arith, bit-bit_and k x y, ap (bit k) e, bit-zero k))
  | no ne ↦ omega arith
]

-- The words at which two lists share a bit.
shared_word :
    (xs ys : List ℕ)
    → shares xs ys ≡ true
    → (i : ℕ) × (x : ℕ) × (y : ℕ) × (get_elem? xs i ≡ some x)
      × (get_elem? ys i ≡ some y)
      × (0 < bit_and x y)
shared_word [] ys e = cc
shared_word (x ∷ xs) [] e = cc
shared_word (x ∷ xs) (y ∷ ys) e = elim (Bool-cases (ltb 0 (bit_and x y))) [
  | inl p ↦ (0, x, y, refl, refl, ground arith)
  | inr p ↦
      let (i, x', y', in_x, in_y, pos) = shared_word xs ys (ground arith) in
      (suc i, x', y', in_x, in_y, pos)
]

word-shares :
    (xs ys : List ℕ) (i x y : ℕ)
    → get_elem? xs i ≡ some x
    → get_elem? ys i ≡ some y
    → 0 < bit_and x y
    → shares xs ys ≡ true
word-shares [] ys i x y e e' pos = cc
word-shares (a ∷ xs) [] i x y e e' pos = cc
word-shares (a ∷ xs) (b ∷ ys) zero x y e e' pos = ground (arith, first e e')
  where
    first : some a ≡ some x → some b ≡ some y → bit_and a b ≡ bit_and x y
    first e e' = cc
word-shares (a ∷ xs) (b ∷ ys) (suc i) x y e e' pos =
    ap (λ (t : Bool). ltb 0 (bit_and a b) || t) (word-shares xs ys i x y e e' pos) ∙ ground arith

IsPlain-at : (ws : List ℕ) (i w : ℕ) → All IsPlain ws → get_elem? ws i ≡ some w → IsPlain w
IsPlain-at [] i w h e = cc
IsPlain-at (x ∷ xs) zero w (here, h) e = omega (arith, first e)
  where
    first : some x ≡ some w → x ≡ w
    first e = cc
IsPlain-at (x ∷ xs) (suc i) w (here, h) e = IsPlain-at xs i w h e

module _ (a b : Bitmap) where
  index_shared :
      All IsPlain a.words
      → shares a.words b.words ≡ true
      → (j : ℕ) × (get j a ≡ some true) × (get j b ≡ some true)
  index_shared plain e =
      let (i, x, y, in_a, in_b, pos) = shared_word a.words b.words e in
      let (k, lt, in_x, in_y) = common_bit 14 x y (IsPlain-at a.words i x plain in_a) pos in
      (14 * i + k, shown a i x k lt in_a in_x, shown b i y k lt in_b in_y)
    where
      shown :
          (c : Bitmap) (i w k : ℕ)
          → k < 14
          → get_elem? c.words i ≡ some w
          → bit k w ≡ 1
          → get (14 * i + k) c ≡ some true
      shown c i w k lt here set =
          get_at (14 * i + k) w c (ap (get_elem? c.words) (omega arith) ∙ here)
          ∙ ap (λ (t : ℕ). some (has_bit t w)) (omega arith)
          ∙ ap some (bit_test k w ∙ ground arith)

  shared_index : (j : ℕ) → get j a ≡ some true → get j b ≡ some true → shares a.words b.words ≡ true
  unfolding get
  shared_index j in_a in_b =
      let (x, here, set) = found a in_a in
      let (y, there, set') = found b in_b in
      word-shares a.words b.words (j / 14) x y here there (in_both (j % 14) x y set set')
    where
      tested : (w : ℕ) → some (has_bit (j % 14) w) ≡ some true → bit (j % 14) w ≡ 1
      tested w e =
          is_one (bit (j % 14) w) (sym (bit_test (j % 14) w) ∙ inner (has_bit (j % 14) w) e)
        where
          inner : (p : Bool) → some p ≡ some true → p ≡ true
          inner p e = cc

          is_one : (n : ℕ) → (n == 1) ≡ true → n ≡ 1
          is_one n e = ground arith

      found :
          (c : Bitmap)
          → get j c ≡ some true
          → (w : ℕ) × (get_elem? c.words (j / 14) ≡ some w) × (bit (j % 14) w ≡ 1)
      found c e =
          let (w, here, set) =
            >>=-eq-some (get_elem? c.words (j / 14)) (λ w. some (has_bit (j % 14) w)) e in
          (w, here, tested w set)

-- cross of bitmaps of one size, of which each is not compressed, has as many words as its size needs,
-- uses the 14 bits of a word only and has at most 2^32 - 14 bits, returns the same whether the second
-- is compressed or not, and that is true exactly if get finds 1 in both at some index.
pub cross_lem :
    (a b : Bitmap)
    → IsWhole a
    → IsWhole b
    → a.size ≡ b.size
    → (r : Bool) × (cross a b ≡ some r)
      × (cross a (compress b) ≡ some r)
      × (r ≡ true → (j : ℕ) × (get j a ≡ some true) × (get j b ≡ some true))
      × ((j : ℕ) → get j a ≡ some true → get j b ≡ some true → r ≡ true)
unfolding cross
cross_lem a b whole_a whole_b one_size = (
  shares a.words b.words,
  plain_first a.compress whole_a.plain (
        if b.compress
        then compress_cross 0 (pieces closed b.words) a.words
        else normal_cross a.words b.words)
      ∙ plain_second b.compress whole_b.plain (compress_cross 0 (pieces closed b.words) a.words)
          (normal_cross a.words b.words)
      ∙ normal_cross_lem a.words b.words same_length,
  ap (cross a) (compress-form b whole_b.plain)
      ∙ plain_first a.compress whole_a.plain
          (compress_cross 0 (pieces closed (compress_from false 0 b.words)) a.words)
      ∙ compress_cross_lem (pieces closed (compress_from false 0 b.words)) b.words [] a.words
          (compress_from-Decodes false 0 b.words whole_b.words
            (omega (arith, word_count b whole_b)))
          same_length (omega (arith, word_count b whole_b)),
  index_shared a b whole_a.words,
  shared_index a b,
)
  where
    same_length : length a.words ≡ length b.words
    same_length = omega (arith, whole_a.counted, whole_b.counted, one_size)

    plain_first : (p : Bool) → p ≡ false → (x : Option Bool) → (if p then some false else x) ≡ x
    plain_first p e x = ground arith

    plain_second : (p : Bool) → p ≡ false → (x y : Option Bool) → (if p then x else y) ≡ y
    plain_second p e x y = ground arith
