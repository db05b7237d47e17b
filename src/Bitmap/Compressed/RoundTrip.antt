-- ===== src/Bitmap/Compressed/RoundTrip.antt =====
-- A bitmap and its compressed form under uncompress, `&=` and `|=`.
use Prim.Native.Nat.{bit_and, bit_or}
use helens.Prelude.{
  ℕ, zero, suc, ◌+◌, ◌-◌, ◌*◌, ◌%◌, ◌^◌, ◌≤◌, ◌<◌, ◌≡◌, refl, sym, ap, ◌∙◌, Bool, true, false,
  Option, none, some, List, [], ◌∷◌, ◌++◌, append_assoc, arith, length, length-append, take, drop,
  take-append-drop, length-take, replicate, length-replicate, ◌==◌, if◌then◌else◌, All, subst,
}
use helens.Prelude.Maybe.{◌>>=◌}
use helens.Bitmap.{Bitmap, words_for}
use helens.Bitmap.Compressed.{
  full, Piece, run, word, undefined, closed, pieces, Handler, over, and_handler, or_handler,
  compress_from, compress, with_words, uncompress, zip_words, combine, and_with, or_with,
}
use helens.Bitmap.Compressed.Words.{IsPlain}
use helens.Bitmap.Compressed.Decoding.{Decodes}
use helens.Bitmap.Compressed.Writing.{compress_from-Decodes}
use helens.Bitmap.Compressed.Operators.{
  zip, zip-append, length-zip, zip_words_lem, Acts, uncompress-Acts, and-Acts, or-Acts,
}

pub split_at :
    (n : ℕ) (xs : List ℕ)
    → n ≤ length xs
    → (mid : List ℕ) × (post : List ℕ) × (xs ≡ mid ++ post) × (length mid ≡ n)
split_at n xs h =
    (take n xs, drop n xs, sym (take-append-drop n xs), omega (arith, length-take n xs))

All-left : (xs ys : List ℕ) → All IsPlain (xs ++ ys) → All IsPlain xs
All-left [] ys h = tt
All-left (x ∷ xs) ys (p, h) = (p, All-left xs ys h)

All-right : (xs ys : List ℕ) → All IsPlain (xs ++ ys) → All IsPlain ys
All-right [] ys h = h
All-right (x ∷ xs) ys (p, h) = All-right xs ys h

module _ {f : ℕ → ℕ → ℕ} {h : Handler} (acts : Acts f h) where
  -- The loop has come to the words behind `pre`; it goes on behind `pre` and `new`.
  moved :
      (pre new post : List ℕ) (ps : List Piece) (k : ℕ)
      → 14 * length pre + k ≡ 14 * length (pre ++ new)
      → 14 * length pre + k < 2 ^ 32
      → over h ((14 * length pre + k) % 2 ^ 32) ps (pre ++ (new ++ post))
        ≡ over h (14 * length (pre ++ new)) ps ((pre ++ new) ++ post)
  moved pre new post ps k e fits =
      ap (λ (t : ℕ). over h t ps (pre ++ (new ++ post))) (omega arith)
      ∙ ap (over h (14 * length (pre ++ new)) ps) (sym (append_assoc pre new post))

  over-run :
      (v : Bool) (ps : List Piece) (pre mid post rest : List ℕ)
      → All IsPlain mid
      → 14 * (length pre + length mid) < 2 ^ 32
      → let new = zip f mid (replicate (length mid) (full v)) in
        over h (14 * length (pre ++ new)) ps ((pre ++ new) ++ post)
          ≡ some ((pre ++ new) ++ zip f post rest)
        → over h (14 * length pre) (run v (14 * length mid) ∷ ps) (pre ++ (mid ++ post))
          ≡ some (pre ++ zip f (mid ++ post) (replicate (length mid) (full v) ++ rest))
  unfolding over
  over-run v ps pre mid post rest plain fits ih =
      let ones = replicate (length mid) (full v) in
      let same_length : length mid ≡ length ones = sym (length-replicate (length mid) (full v)) in
      rw (acts.at_run v pre mid post plain fits, ◌>>=◌)
        (moved pre (zip f mid ones) post ps (14 * length mid)
            (omega (arith, length-append pre (zip f mid ones), length-zip f mid ones same_length))
            (omega arith)
          ∙ ih
          ∙ ap some (
              append_assoc pre (zip f mid ones) (zip f post rest)
              ∙ ap (λ l. pre ++ l) (sym (zip-append f mid ones post rest same_length))))

  over_word :
      (x y : ℕ) (ps : List Piece) (pre post rest : List ℕ)
      → 14 * (length pre + 1) < 2 ^ 32
      → over h (14 * length (pre ++ f y x ∷ [])) ps ((pre ++ f y x ∷ []) ++ post)
        ≡ some ((pre ++ f y x ∷ []) ++ zip f post rest)
      → over h (14 * length pre) (word x ∷ ps) (pre ++ (y ∷ post))
        ≡ some (pre ++ (f y x ∷ zip f post rest))
  unfolding over
  over_word x y ps pre post rest fits ih =
      rw (acts.at_word x y pre post, ◌>>=◌)
        (moved pre (f y x ∷ []) post ps 14 (omega (arith, length-append pre (f y x ∷ [])))
            (omega arith)
          ∙ ih
          ∙ ap some (append_assoc pre (f y x ∷ []) (zip f post rest)))

  over_lem :
      (ps : List Piece) (ws pre old : List ℕ)
      → Decodes ps ws
      → All IsPlain old
      → length old ≡ length ws
      → 14 * (length pre + length ws) < 2 ^ 32
      → over h (14 * length pre) ps (pre ++ old) ≡ some (pre ++ zip f old ws)
  unfolding over
  over_lem [] ws pre [] d plain len fits = refl
  over_lem [] ws pre (y ∷ old) d plain len fits = absurd (omega (arith, len, ap length d))
  over_lem (undefined ∷ ps) ws pre old d plain len fits = absurd d
  over_lem (run v count ∷ ps) ws pre old (n, rest, is_n, is_ws, d) plain len fits =
      let lengths : length ws ≡ n + length rest =
        ap length is_ws
        ∙ length-append (replicate n (full v)) rest
        ∙ ap (λ (k : ℕ). k + length rest) (length-replicate n (full v)) in
      let (mid, post, is_old, len_mid) = split_at n old (omega arith) in
      let all = subst (All IsPlain) is_old plain in
      let new = zip f mid (replicate (length mid) (full v)) in
      let length_new : length new ≡ length mid =
        length-zip f mid (replicate (length mid) (full v))
          (sym (length-replicate (length mid) (full v))) in
      ap (λ (t : ℕ). over h (14 * length pre) (run v t ∷ ps) (pre ++ old))
        (is_n ∙ ap (λ (t : ℕ). 14 * t) (sym len_mid))
      ∙ ap (λ l. over h (14 * length pre) (run v (14 * length mid) ∷ ps) (pre ++ l)) is_old
      ∙ over-run v ps pre mid post rest (All-left mid post all) (omega arith) (
          over_lem ps rest (pre ++ new) post d (All-right mid post all)
            (omega (arith, ap length is_old, length-append mid post))
            (omega (arith, length-append pre new, length_new)))
      ∙ ap (λ l. some (pre ++ zip f l (replicate (length mid) (full v) ++ rest))) (sym is_old)
      ∙ ap (λ (k : ℕ). some (pre ++ zip f old (replicate k (full v) ++ rest))) len_mid
      ∙ ap (λ l. some (pre ++ zip f old l)) (sym is_ws)
  over_lem (word x ∷ ps) ws pre [] (rest, is_ws, d) plain len fits =
      absurd (omega (arith, len, ap length is_ws))
  over_lem (word x ∷ ps) ws pre (y ∷ old) (rest, is_ws, d) (here, plain) len fits =
      over_word x y ps pre old rest (omega (arith, ap length is_ws)) (
        over_lem ps rest (pre ++ f y x ∷ []) old d plain (omega (arith, ap length is_ws))
          (omega (arith, ap length is_ws, length-append pre (f y x ∷ []))))
      ∙ ap (λ l. some (pre ++ zip f (y ∷ old) l)) (sym is_ws)

  -- The loop over what compress writes does to plain words what the operator does.
  over-compress :
      (ws old : List ℕ)
      → All IsPlain ws
      → All IsPlain old
      → length old ≡ length ws
      → 14 * length ws < 2 ^ 32
      → over h 0 (pieces closed (compress_from false 0 ws)) old ≡ some (zip f old ws)
  over-compress ws old plain plain_old len fits =
      over_lem (pieces closed (compress_from false 0 ws)) ws [] old
        (compress_from-Decodes false 0 ws plain (omega arith)) plain_old len (omega arith)

-- A bitmap that is not compressed, with as many words as its size needs; each uses its 14 bits only, as
-- get, set and the operators but `~` leave them.
pub record IsWhole (b : Bitmap) : Type 0 where
  pub plain : b.compress ≡ false
  pub counted : length b.words ≡ words_for b.size
  pub words : All IsPlain b.words
  pub fits : b.size ≤ 2 ^ 32 - 14

zip_second : (xs ys : List ℕ) → length xs ≡ length ys → zip (λ _ y. y) xs ys ≡ ys
zip_second [] [] h = refl
zip_second [] (y ∷ ys) h = absurd (omega arith)
zip_second (x ∷ xs) [] h = absurd (omega arith)
zip_second (x ∷ xs) (y ∷ ys) h = ap (◌∷◌ y) (zip_second xs ys (omega arith))

zeros-IsPlain : (n : ℕ) → All IsPlain (replicate n 0)
zeros-IsPlain zero = tt
zeros-IsPlain (suc n) = (omega arith, zeros-IsPlain n)

-- The compressed form, and a bitmap that is not compressed with other words
abbrev pub form : Bitmap → Bitmap
form b = record { compress = true; size = b.size; words = compress_from false 0 b.words }

pub compress-form : (b : Bitmap) → b.compress ≡ false → compress b ≡ form b
unfolding compress
compress-form b plain = ground arith

with_words-plain :
    (b : Bitmap) (d : List ℕ)
    → b.compress ≡ false
    → with_words b (some d) ≡ some (record b { words = d })
with_words-plain b d plain =
    ap (λ (x : Bool). some (record { compress = x; size = b.size; words = d })) (sym plain)

pub word_count : (b : Bitmap) → IsWhole b → 14 * length b.words < 2 ^ 32
word_count b whole = omega (arith, whole.counted, whole.fits)

-- uncompress returns, and gives back the bitmap that has been compressed, if it is not compressed
-- itself, has as many words as its size needs, uses the 14 bits of a word only, and has at most 2^32 -
-- 14 bits.
pub uncompress-compress : (b : Bitmap) → IsWhole b → uncompress (compress b) ≡ some b
unfolding uncompress
uncompress-compress b whole =
    let zeros = replicate (words_for b.size) 0 in
    let as_long : length zeros ≡ length b.words =
      length-replicate (words_for b.size) 0 ∙ sym whole.counted in
    ap uncompress (compress-form b whole.plain)
    ∙ ap (with_words (form b)) (
        over-compress uncompress-Acts b.words zeros whole.words (zeros-IsPlain (words_for b.size))
          as_long (word_count b whole)
        ∙ ap some (zip_second zeros b.words as_long))
    ∙ with_words-plain b b.words whole.plain

combine_lem :
    (f : ℕ → ℕ → ℕ) (h : Handler) (a b : Bitmap)
    → a.compress ≡ false
    → a.size ≡ b.size
    → combine f h a b
      ≡ with_words a (
          if b.compress
          then over h 0 (pieces closed b.words) a.words
          else zip_words f a.words b.words)
unfolding combine
combine_lem f h a b plain one_size =
    passes (a.size == b.size) a.compress _ (ground (arith, one_size)) plain
  where
    passes :
        (p q : Bool) (x : Option Bitmap)
        → p ≡ true
        → q ≡ false
        → (if p then if q then none else x else none) ≡ x
    passes p q x e e' = ground arith

-- For bitmaps of one size of which each uses the 14 bits of a word only, is not compressed, has as many
-- words as its size needs and at most 2^32 - 14 bits, `&=` and `|=` with the other one compressed return
-- what they return with it as it is, and that is the operation word by word.
pub combine-compress :
    (a b : Bitmap)
    → IsWhole a
    → IsWhole b
    → a.size ≡ b.size
    → (and_with a (compress b) ≡ some (record a { words = zip bit_and a.words b.words }))
      × (and_with a b ≡ some (record a { words = zip bit_and a.words b.words }))
      × (or_with a (compress b) ≡ some (record a { words = zip bit_or a.words b.words }))
      × (or_with a b ≡ some (record a { words = zip bit_or a.words b.words }))
unfolding and_with or_with
combine-compress a b whole_a whole_b one_size = (
  with_compressed bit_and and_handler and-Acts,
  with_plain bit_and and_handler,
  with_compressed bit_or or_handler or-Acts,
  with_plain bit_or or_handler,
)
  where
    same_length : length a.words ≡ length b.words
    same_length = whole_a.counted ∙ ap (λ (t : ℕ). words_for t) one_size ∙ sym whole_b.counted

    with_compressed :
        (f : ℕ → ℕ → ℕ) (h : Handler)
        → Acts f h
        → combine f h a (compress b) ≡ some (record a { words = zip f a.words b.words })
    with_compressed f h acts =
        ap (combine f h a) (compress-form b whole_b.plain)
        ∙ combine_lem f h a (form b) whole_a.plain one_size
        ∙ ap (with_words a) (
            over-compress acts b.words a.words whole_b.words whole_a.words same_length
              (word_count b whole_b))
        ∙ with_words-plain a (zip f a.words b.words) whole_a.plain

    zipped_if :
        (f : ℕ → ℕ → ℕ) (h : Handler)
        → b.compress ≡ false
        → (if b.compress
            then over h 0 (pieces closed b.words) a.words
            else zip_words f a.words b.words)
          ≡ zip_words f a.words b.words
    zipped_if f h e = ground arith

    with_plain :
        (f : ℕ → ℕ → ℕ) (h : Handler)
        → combine f h a b ≡ some (record a { words = zip f a.words b.words })
    with_plain f h =
        combine_lem f h a b whole_a.plain one_size
        ∙ ap (with_words a)
            (zipped_if f h whole_b.plain ∙ zip_words_lem f a.words b.words same_length)
        ∙ with_words-plain a (zip f a.words b.words) whole_a.plain
