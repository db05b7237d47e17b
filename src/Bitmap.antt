-- ===== src/Bitmap.antt =====
-- Helens/ds/bitmap.cc and bitmap.h with 16-bit words, of which a bitmap that is not compressed uses 14
-- bits each. m_dataSize is the length of `words`. `none` is an access outside of m_data, or the
-- exception of resize on a compressed bitmap.
pub mod Bits
pub mod Laws
pub mod Growing
pub mod Compressed
pub mod Crossing
pub mod Positions
pub mod Foreach
mod Tests
use Prim.Native.Nat.{bit_and, bit_or}
use helens.Prelude.{
  ℕ, zero, suc, ◌+◌, ◌-◌, ◌*◌, ◌/◌, ◌%◌, ◌^◌, Bool, true, false, Option, none, some, List, [], ◌∷◌,
  ◌++◌, length, get_elem?, take, replicate, ltb, if◌then◌else◌,
}
use helens.Prelude
use helens.Prelude.Maybe.{◌>>=◌}

pub record Bitmap : Type 0 where
  pub compress : Bool
  pub size : ℕ
  pub words : List ℕ

abbrev pub value_size : ℕ
value_size = 14

abbrev pub pos : ℕ → ℕ
pos i = 2 ^ i

abbrev pub npos : ℕ → ℕ
npos i = 2 ^ 16 - 1 - 2 ^ i

abbrev pub mask : ℕ → ℕ
mask i = 2 ^ i - 1

-- ceil(size * 1.0 / VALUE_SIZE)
abbrev pub words_for : ℕ → ℕ
words_for size = (size + 13) / value_size

-- memset puts the byte into both halves of each word.
unfoldable pub create : ℕ → ℕ → Bitmap
create size def = record {
  compress = false;
  size = size;
  words = replicate (words_for size) (def * 257);
}

unfoldable pub get : ℕ → Bitmap → Option Bool
get idx b = do
  w ← get_elem? b.words (idx / value_size)
  some (ltb 0 (bit_and w (pos (idx % value_size))))

abbrev pub set_bit : Bool → ℕ → ℕ → ℕ
set_bit true i w = bit_or w (pos i)
set_bit false i w = bit_and w (npos i)

unfoldable pub set : ℕ → Bool → Bitmap → Option Bitmap
set idx v b = do
  w ← get_elem? b.words (idx / value_size)
  let w' = set_bit v (idx % value_size) w
  some (record b { words = Prelude.set b.words (idx / value_size) w' })

abbrev pub fill : Bool → ℕ
fill true = 2 ^ 16 - 1
fill false = 0

-- What becomes of the last word that was there; `left` is `m_size % VALUE_SIZE`.
abbrev pub close_word : Bool → ℕ → ℕ → ℕ
close_word true left w = bit_or w (mask left)
close_word false left w = bit_and w (mask left)

-- `new_data[m_dataSize - 1]` with no word there is outside.
unfoldable pub close_last : Bool → ℕ → List ℕ → Option (List ℕ)
close_last v left [] = none
close_last v left (w ∷ []) = some (close_word v left w ∷ [])
close_last v left (w ∷ w' ∷ ws) = do rest ← close_last v left (w' ∷ ws); some (w ∷ rest)

unfoldable pub grow : ℕ → Bool → Bitmap → Option Bitmap
grow size v b = do
  closed ← close_last v (b.size % value_size) b.words
  let more = replicate (words_for size - length b.words) (fill v)
  some (record b { size = size; words = closed ++ more })

unfoldable pub resize : ℕ → Bool → Bitmap → Option Bitmap
resize size v b = elim (b.compress) [
  | true ↦ none
  | false ↦
      let len = words_for size in
      if ltb (length b.words) len
      then grow size v b
      else some (record b { size = size; words = take len b.words })
]

-- The loop of any over all words but the last, and the last
unfoldable pub any_word : ℕ → List ℕ → Bool
any_word left [] = false
any_word left (w ∷ []) = ltb 0 (bit_and w (mask left))
any_word left (w ∷ w' ∷ ws) = let rest = any_word left (w' ∷ ws) in if ltb 0 w then true else rest

-- any of a bitmap that is not compressed
unfoldable pub any : Bitmap → Bool
any b = any_word (b.size % value_size) b.words
