-- ===== src/Bitmap/Tests.antt =====
-- A bitmap of 28 bits, which fill two words, at concrete inputs.
use helens.Prelude.{◌≡◌, refl, true, false, some, [], ◌∷◌, arith}
use helens.Prelude.Maybe.{◌>>=◌}
use helens.Bitmap.{Bitmap, create, get, resize, grow, close_last, any, any_word}
use helens.Bitmap.Growing.{GrownFrom, resize_lem}

-- The bit 14 is set.
abbrev two_words : Bitmap
two_words = record { compress = false; size = 28; words = 0 ∷ 1 ∷ [] }

create-get : get 5 (create 28 0) ≡ some false
unfolding create get
create-get = refl

get-two_words : get 14 two_words ≡ some true
unfolding get
get-two_words = refl

-- It is lost when the bitmap grows.
get-resize : (do b ← resize 40 false two_words; get 14 b) ≡ some false
unfolding resize grow close_last get
get-resize = refl

-- any does not see it.
any-two_words : any two_words ≡ false
unfolding any any_word
any-two_words = refl

resize_lem_example :
    (b : Bitmap) × (resize 40 false two_words ≡ some b)
    × (b.size ≡ 40)
    × GrownFrom two_words false 3 b
resize_lem_example = resize_lem two_words 40 false refl (omega arith) (omega arith)
