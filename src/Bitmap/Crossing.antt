-- ===== src/Bitmap/Crossing.antt =====
-- Helens/ds/bitmap.cc: cross, which asks for a bit that two bitmaps both have, with either form of the
-- second; and get of a range of words.
pub mod Shared
pub mod Found
mod Tests
use Prim.Native.Nat.{bit_and}
use helens.Prelude.{
  ℕ, zero, suc, ◌+◌, ◌-◌, ◌/◌, ◌%◌, ◌^◌, Bool, true, false, not, ◌&&◌, Option, none, some, List, [],
  ◌∷◌, get_elem?, ltb, ◌==◌, if◌then◌else◌,
}
use helens.Prelude.Maybe.{◌>>=◌}
use helens.Bitmap.{Bitmap, value_size}
use helens.Bitmap.Compressed.{low, Piece, run, word, undefined, closed, pieces}

-- Whether a word has a bit of the value.
abbrev pub shows : Bool → ℕ → Bool
shows true w = ltb 0 (low w)
shows false w = not (ltb 0 (low w))

unfoldable pub scan_words : ℕ → Bool → ℕ → List ℕ → Option Bool
scan_words zero v i d = some false
scan_words (suc rounds) v i d = do
  w ← get_elem? d i
  let rest = scan_words rounds v (i + 1) d
  if shows v w then some true else rest

-- `get(from, size, v)`
unfoldable pub get_range : ℕ → ℕ → Bool → List ℕ → Option Bool
get_range from size v d =
    let to = (from + size) % 2 ^ 32 in
    let found = scan_words (to / value_size - from / value_size) v (from / value_size) d in
    if size == 0
    then some false
    else if from % value_size == 0 && to % value_size == 0
    then found
    else none

abbrev pub in_run : Bool → ℕ → ℕ → List ℕ → Option Bool
in_run true cur_pos count d = get_range cur_pos count true d
in_run false cur_pos count d = some false

unfoldable pub compress_cross : ℕ → List Piece → List ℕ → Option Bool
compress_cross cur_pos [] d = some false
compress_cross cur_pos (undefined ∷ ps) d = none
compress_cross cur_pos (run v count ∷ ps) d = do
  found ← in_run v cur_pos count d
  let rest = compress_cross ((cur_pos + count) % 2 ^ 32) ps d
  if found then some true else rest
compress_cross cur_pos (word x ∷ ps) d = do
  w ← get_elem? d (cur_pos / value_size)
  let rest = compress_cross ((cur_pos + value_size) % 2 ^ 32) ps d
  if ltb 0 (bit_and w x) then some true else rest

-- Word by word; the code takes four words at a time while it can.
unfoldable pub normal_cross : List ℕ → List ℕ → Option Bool
normal_cross [] ys = some false
normal_cross (x ∷ xs) [] = none
normal_cross (x ∷ xs) (y ∷ ys) =
    let rest = normal_cross xs ys in if ltb 0 (bit_and x y) then some true else rest

unfoldable pub cross : Bitmap → Bitmap → Option Bool
cross a b =
    let by_runs = compress_cross 0 (pieces closed b.words) a.words in
    let by_words = normal_cross a.words b.words in
    if a.compress then some false else if b.compress then by_runs else by_words
