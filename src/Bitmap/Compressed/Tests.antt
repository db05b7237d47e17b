-- ===== src/Bitmap/Compressed/Tests.antt =====
-- Compressed bitmaps at concrete inputs.
use helens.Prelude.{◌≡◌, refl, false, none, some, [], ◌∷◌, arith, map, replicate}
use helens.Bitmap.{Bitmap}
use helens.Bitmap.Compressed.{
  compress, compress_from, kind, count_bits, flush, chunks, uncompress, and_with, or_with,
  flip_word, invert,
}
use helens.Bitmap.Compressed.RoundTrip.{IsWhole, uncompress-compress, combine-compress}
use helens.Bitmap.Compressed.Inverted.{inverted_lost}

-- 70 bits: two words of zeros, one of both, two of ones.
abbrev five_words : Bitmap
five_words = record { compress = false; size = 70; words = 0 ∷ 0 ∷ 5 ∷ 16383 ∷ 16383 ∷ [] }

abbrev other_words : Bitmap
other_words = record { compress = false; size = 70; words = 1 ∷ 2 ∷ 3 ∷ 4 ∷ 5 ∷ [] }

abbrev one_word : Bitmap
one_word = record { compress = false; size = 14; words = 8 ∷ [] }

-- 28 zeros, the word, 28 ones
compress-five_words : (compress five_words).words ≡ 32796 ∷ 5 ∷ 49180 ∷ []
unfolding compress compress_from kind count_bits flush chunks
compress-five_words = refl

-- A run with a count of two pieces
compress-long : compress_from false 0 (replicate 2000 0) ≡ 44384 ∷ 32769 ∷ []
unfolding compress_from kind count_bits flush chunks
compress-long = refl

flip_runs : map flip_word (32796 ∷ 5 ∷ 49180 ∷ []) ≡ 49180 ∷ 16378 ∷ 32796 ∷ []
unfolding flip_word
flip_runs = refl

five_words-IsWhole : IsWhole five_words
five_words-IsWhole = record {
  plain = refl;
  counted = refl;
  words = omega arith;
  fits = omega arith;
}

other_words-IsWhole : IsWhole other_words
other_words-IsWhole = record {
  plain = refl;
  counted = refl;
  words = omega arith;
  fits = omega arith;
}

uncompress-compress_example : uncompress (compress five_words) ≡ some five_words
uncompress-compress_example = uncompress-compress five_words five_words-IsWhole

combine-compress_example :
    (and_with other_words (compress five_words)
      ≡ some (record other_words { words = 0 ∷ 0 ∷ 1 ∷ 4 ∷ 5 ∷ [] }))
    × (and_with other_words five_words
        ≡ some (record other_words { words = 0 ∷ 0 ∷ 1 ∷ 4 ∷ 5 ∷ [] }))
    × (or_with other_words (compress five_words)
        ≡ some (record other_words { words = 1 ∷ 2 ∷ 7 ∷ 16383 ∷ 16383 ∷ [] }))
    × (or_with other_words five_words
        ≡ some (record other_words { words = 1 ∷ 2 ∷ 7 ∷ 16383 ∷ 16383 ∷ [] }))
combine-compress_example =
    combine-compress other_words five_words other_words-IsWhole five_words-IsWhole refl

inverted_lost_example : uncompress (compress (invert one_word)) ≡ none
inverted_lost_example =
    inverted_lost one_word 8 refl (omega arith) refl (omega arith) (omega arith) (omega arith)
