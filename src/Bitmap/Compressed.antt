-- ===== src/Bitmap/Compressed.antt =====
-- Helens/ds/bitmap.cc: compress, uncompress, the operators and the ranges of words. A compressed bitmap
-- has words of 14 bits as they are, and runs of equal words: their number of bits in pieces of 14 bits,
-- the lowest first, each in a word with COMPRESS_MASK and, for ones, VALUE_MASK. `none` is an access
-- outside of m_data, an assertion that fails, or an exception.
pub mod Words
pub mod Decoding
pub mod Writing
pub mod Operators
pub mod Inverted
pub mod RoundTrip
mod Tests
use Prim.Native.Nat.{bit_and, bit_or}
use helens.Prelude.{
  ℕ, zero, suc, ◌+◌, ◌-◌, ◌*◌, ◌/◌, ◌%◌, ◌^◌, Bool, true, false, ◌&&◌, ◌||◌, Option, none, some,
  List, [], ◌∷◌, ◌++◌, map, length, get_elem?, replicate, ltb, ◌==◌, if◌then◌else◌,
}
use helens.Prelude
use helens.Prelude.Maybe.{◌>>=◌}
use helens.Bitmap.{Bitmap, value_size, mask, npos, words_for}

abbrev pub compress_mask : ℕ
compress_mask = 2 ^ 15

abbrev pub value_mask : ℕ
value_mask = 2 ^ 14

-- `& COUNT_MASK`
abbrev pub low : ℕ → ℕ
low w = bit_and w (mask 14)

-- `~` of a 16-bit word
abbrev pub flip : ℕ → ℕ
flip w = 2 ^ 16 - 1 - w

abbrev pub is_run : ℕ → Bool
is_run w = ltb 0 (bit_and w compress_mask)

abbrev pub value_of : ℕ → Bool
value_of w = ltb 0 (bit_and w value_mask)

-- `v ? COUNT_MASK : 0`
abbrev pub full : Bool → ℕ
full true = mask 14
full false = 0

abbrev pub run_word : Bool → ℕ → ℕ
run_word true count = bit_or (low count) (3 * 2 ^ 14)
run_word false count = bit_or (low count) (2 * 2 ^ 14)

-- `__builtin_popcount`, of so many bits
unfoldable pub count_bits : ℕ → ℕ → ℕ
count_bits zero w = 0
count_bits (suc k) w = w % 2 + count_bits k (w / 2)

-- `while(cur_count)`; a 64-bit number has five pieces at most.
unfoldable pub chunks : ℕ → Bool → ℕ → List ℕ
chunks zero v count = []
chunks (suc rounds) v count =
    let rest = chunks rounds v (count / 2 ^ 14) in
    if count == 0 then [] else run_word v count ∷ rest

-- What is written for the run that ends.
unfoldable pub flush : Bool → ℕ → List ℕ
flush v count =
    let run = chunks 5 v count in
    if ltb 1 (count / value_size) then run else if count == 0 then [] else full v ∷ []

pub data Kind : Type 0 where
  uniform : Bool → Kind
  mixed : Kind

unfoldable pub kind : ℕ → Kind
kind w =
    let c = count_bits 16 (low w) in
    if c == 0 then uniform false else if c == value_size then uniform true else mixed

abbrev pub same : Bool → Bool → Bool
same true true = true
same false false = true
same _ _ = false

-- The loop of compress, with `cur_value` and `cur_count`, and what follows it.
unfoldable pub compress_from : Bool → ℕ → List ℕ → List ℕ
compress_from v count [] = flush v count
compress_from v count (w ∷ ws) = elim (kind w) [
  | uniform u ↦ elim (same u v) [
    | true ↦ compress_from v (count + value_size) ws
    | false ↦ flush v count ++ compress_from u value_size ws
  ]
  | mixed ↦ flush v count ++ (w ∷ compress_from v 0 ws)
]

unfoldable pub compress : Bitmap → Bitmap
compress b =
    let words = compress_from false 0 b.words in
    if b.compress then b else record b { compress = true; words = words }

-- A run of `count` bits, or a word; or a run whose count the code shifts by 32 bits or more, which is
-- undefined.
pub data Piece : Type 0 where
  run : Bool → ℕ → Piece
  word : ℕ → Piece
  undefined : Piece

-- Whether the loop is in a run: its value, how many words of it have been read, and its count so far.
pub data Open : Type 0 where
  closed : Open
  opened : Bool → ℕ → ℕ → Open

abbrev pub finish : Open → List Piece
finish closed = []
finish (opened v n count) = run v count ∷ []

abbrev pub joins : Open → ℕ → Bool
joins closed w = false
joins (opened v n count) w = is_run w && same v (value_of w)

-- Whether the shift of the next word of a run is defined: it is by less than 32 bits.
abbrev pub shifts : Open → Bool
shifts closed = true
shifts (opened v n count) = ltb (14 * n) 32

abbrev pub extend : Open → ℕ → Open
extend closed w = closed
extend (opened v n count) w = opened v (suc n) (bit_or count (low w * 2 ^ (14 * n) % 2 ^ 32))

-- How uncompress, the operators and compressCross go over the words of a compressed bitmap.
unfoldable pub pieces : Open → List ℕ → List Piece
pieces o [] = finish o
pieces o (w ∷ ws) = elim (joins o w) [
  | true ↦ elim (shifts o) [ true ↦ pieces (extend o w) ws | false ↦ undefined ∷ [] ]
  | false ↦ elim (is_run w) [
    | true ↦ finish o ++ pieces (opened (value_of w) 1 (low w)) ws
    | false ↦ finish o ++ (word (low w) ∷ pieces closed ws)
  ]
]

-- What is done with a run, and with a word, at a position.
pub record Handler : Type 0 where
  pub on_run : Bool → ℕ → ℕ → List ℕ → Option (List ℕ)
  pub on_word : ℕ → ℕ → List ℕ → Option (List ℕ)

unfoldable pub over : Handler → ℕ → List Piece → List ℕ → Option (List ℕ)
over h cur_pos [] d = some d
over h cur_pos (undefined ∷ ps) d = none
over h cur_pos (run v count ∷ ps) d = do
  d' ← h.on_run v cur_pos count d
  over h ((cur_pos + count) % 2 ^ 32) ps d'
over h cur_pos (word x ∷ ps) d = do
  d' ← h.on_word x cur_pos d
  over h ((cur_pos + value_size) % 2 ^ 32) ps d'

abbrev pub change : (ℕ → ℕ) → ℕ → List ℕ → Option (List ℕ)
change f i d = do w ← get_elem? d i; some (Prelude.set d i (f w))

unfoldable pub fill_words : ℕ → Bool → ℕ → List ℕ → Option (List ℕ)
fill_words zero v i d = some d
fill_words (suc rounds) v i d = do d' ← change (λ _. full v) i d; fill_words rounds v (i + 1) d'

-- `set(from, size, v)`
unfoldable pub set_range : ℕ → ℕ → Bool → List ℕ → Option (List ℕ)
set_range from size v d =
    let to = (from + size) % 2 ^ 32 in
    let filled = fill_words (to / value_size - from / value_size) v (from / value_size) d in
    if size == 0
    then some d
    else if from % value_size == 0 && to % value_size == 0
    then filled
    else none

abbrev pub uncompress_handler : Handler
uncompress_handler = record {
  on_run = λ v cur_pos count d. set_range cur_pos count v d;
  on_word = λ x cur_pos d. change (λ _. x) (cur_pos / value_size) d;
}

abbrev pub and_handler : Handler
and_handler = record {
  on_run = λ v cur_pos count d. if v then some d else set_range cur_pos count false d;
  on_word = λ x cur_pos d. change (λ w. bit_and w x) (cur_pos / value_size) d;
}

abbrev pub or_handler : Handler
or_handler = record {
  on_run = λ v cur_pos count d. if v then set_range cur_pos count true d else some d;
  on_word = λ x cur_pos d. change (λ w. bit_or w x) (cur_pos / value_size) d;
}

abbrev pub with_words : Bitmap → Option (List ℕ) → Option Bitmap
with_words b none = none
with_words b (some d) = some (record b { compress = false; words = d })

unfoldable pub uncompress : Bitmap → Option Bitmap
uncompress b =
    let d = over uncompress_handler 0 (pieces closed b.words) (replicate (words_for b.size) 0) in
    if b.compress then with_words b d else some b

-- Word by word; the code takes four words at a time while it can.
unfoldable pub zip_words : (ℕ → ℕ → ℕ) → List ℕ → List ℕ → Option (List ℕ)
zip_words f [] ys = some []
zip_words f (a ∷ xs) [] = none
zip_words f (a ∷ xs) (b ∷ ys) = do rest ← zip_words f xs ys; some (f a b ∷ rest)

-- `&=` and `|=`
unfoldable pub combine : (ℕ → ℕ → ℕ) → Handler → Bitmap → Bitmap → Option Bitmap
combine f h a b =
    let decoded = over h 0 (pieces closed b.words) a.words in
    let zipped = zip_words f a.words b.words in
    if a.size == b.size
    then if a.compress then none else with_words a (if b.compress then decoded else zipped)
    else none

unfoldable pub and_with : Bitmap → Bitmap → Option Bitmap
and_with = combine bit_and and_handler

unfoldable pub or_with : Bitmap → Bitmap → Option Bitmap
or_with = combine bit_or or_handler

unfoldable pub flip_word : ℕ → ℕ
flip_word w =
    if is_run w
    then if value_of w then bit_and w (npos 14) else bit_or w value_mask
    else low (flip w)

-- `operator~`, which changes the bitmap itself.
unfoldable pub invert : Bitmap → Bitmap
invert b = record b { words = if b.compress then map flip_word b.words else map flip b.words }
