-- ===== src/Bitmap/Laws.antt =====
-- What get says after set.
use Prim.Native.Nat.{bit_and, bit_or}
use helens.Prelude.{
  ℕ, zero, suc, ◌+◌, ◌-◌, ◌*◌, ◌/◌, ◌%◌, ◌^◌, ◌≤◌, ◌<◌, min, max, ◌≡◌, ◌≢◌, refl, sym, ap, ◌∙◌,
  Bool, true, false, ◌&&◌, ◌||◌, Option, none, some, List, [], ◌∷◌, ◌++◌, arith, length, get_elem?,
  get_elem?-set_self, get_elem?-set_ne, replicate, ltb, ◌==◌, if◌then◌else◌, ℕ_discrete, subst,
}
use helens.Prelude
use helens.Prelude.Rounds.{in_range}
use helens.Prelude.Maybe.{◌>>=◌}
use helens.Bitmap.{Bitmap, pos, npos, get, set, set_bit}
use helens.Bitmap.Bits.{
  bit-lt, bit-bit_and, bit-bit_or, bit-pow, bit_complement, bit_test, pow_mono,
}

-- `w & POS[i]`
abbrev pub has_bit : ℕ → ℕ → Bool
has_bit i w = ltb 0 (bit_and w (pos i))

has_bit-set_bit :
    (v : Bool) (i j w : ℕ)
    → i < 14
    → j < 14
    → has_bit j (set_bit v i w) ≡ (if i == j then v else has_bit j w)
has_bit-set_bit true i j w p q =
    rw (bit_test j (bit_or w (pos i)), bit_test j w)
      (ground (arith, bit-bit_or j w (2 ^ i), bit-pow j i, bit-lt j w))
has_bit-set_bit false i j w p q =
    rw (bit_test j (bit_and w (npos i)), bit_test j w)
      (ground (
        arith,
        bit-bit_and j w (npos i),
        bit_complement j 16 (2 ^ i) (omega arith) (pow_mono i 16 (omega arith)),
        bit-pow j i,
        bit-lt j w,
      ))

pub get_at :
    (j w : ℕ) (b : Bitmap)
    → get_elem? b.words (j / 14) ≡ some w
    → get j b ≡ some (has_bit (j % 14) w)
unfolding get
get_at j w b e = rw (e, ◌>>=◌) refl

get_out : (j : ℕ) (b : Bitmap) → get_elem? b.words (j / 14) ≡ none → get j b ≡ none
unfolding get
get_out j b e = rw (e, ◌>>=◌) refl

same_place : (i j : ℕ) → i / 14 ≡ j / 14 → (i % 14 == j % 14) ≡ (i == j)
same_place i j e = ground arith

pub get_same_word :
    (j : ℕ) (b b' : Bitmap)
    → get_elem? b'.words (j / 14) ≡ get_elem? b.words (j / 14)
    → get j b' ≡ get j b
unfolding get
get_same_word j b b' e = rw (e, get) refl

get_after_set :
    (b : Bitmap) (i j w : ℕ) (v : Bool)
    → get_elem? b.words (i / 14) ≡ some w
    → get j (record b { words = Prelude.set b.words (i / 14) (set_bit v (i % 14) w) })
      ≡ (if i == j then some v else get j b)
get_after_set b i j w v here = elim (ℕ_discrete (i / 14) (j / 14)) [
  | no ne ↦
      get_same_word j b (record b { words = Prelude.set b.words (i / 14) (set_bit v (i % 14) w) })
        (get_elem?-set_ne b.words (set_bit v (i % 14) w) ne)
      ∙ ground arith
  | yes e ↦
      get_at j (set_bit v (i % 14) w)
        (record b { words = Prelude.set b.words (i / 14) (set_bit v (i % 14) w) })
        (ap (get_elem? (Prelude.set b.words (i / 14) (set_bit v (i % 14) w))) (sym e)
          ∙ get_elem?-set_self b.words (i / 14) (set_bit v (i % 14) w)
              (in_range b.words (i / 14) w here))
      ∙ ap some (has_bit-set_bit v (i % 14) (j % 14) w (omega arith) (omega arith))
      ∙ some_if (i % 14 == j % 14) (i == j) v (has_bit (j % 14) w) (same_place i j e)
          (get_at j w b (ap (get_elem? b.words) (sym e) ∙ here))
]
  where
    some_if :
        (p q x y : Bool)
        → p ≡ q
        → get j b ≡ some y
        → some (if p then x else y) ≡ (if q then some x else get j b)
    some_if p q x y e at = ground arith

-- For an index within the bitmap set returns, and get finds the new value there and at every other
-- index what it found before; the size stays.
pub get-set :
    (b : Bitmap) (i w : ℕ) (v : Bool)
    → get_elem? b.words (i / 14) ≡ some w
    → (b' : Bitmap) × (set i v b ≡ some b')
      × (b'.size ≡ b.size)
      × ((j : ℕ) → get j b' ≡ (if i == j then some v else get j b))
unfolding set
get-set b i w v here = (
  record b { words = Prelude.set b.words (i / 14) (set_bit v (i % 14) w) },
  rw (here, ◌>>=◌) refl,
  refl,
  λ j. get_after_set b i j w v here,
)
