-- ===== src/Bitmap/Compressed/Operators.antt =====
-- What the loops over the runs of a compressed bitmap do to the words of another: the same as the
-- operator does word by word.
use Prim.Native.Nat.{bit_and, bit_or}
use helens.Prelude.{
  ℕ, zero, suc, ◌+◌, ◌-◌, ◌*◌, ◌/◌, ◌%◌, ◌^◌, ◌≤◌, ◌<◌, ◌≡◌, refl, sym, ap, ◌∙◌, Bool, true, false,
  ◌&&◌, Option, none, some, List, [], ◌∷◌, ◌++◌, append_assoc, arith, length, length-append,
  get_elem?, replicate, length-replicate, ltb, ◌==◌, if◌then◌else◌, All, subst,
}
use helens.Prelude
use helens.Prelude.Maybe.{◌>>=◌}
use helens.Bitmap.Compressed.{
  full, Handler, change, fill_words, set_range, uncompress_handler, and_handler, or_handler,
  zip_words,
}
use helens.Prelude.Bits.{bit_and-zero, bit_or-zero, bit_or_mask}
use helens.Bitmap.Compressed.Words.{IsPlain, low_plain}

-- Word by word, over as many words as both have
abbrev pub zip : (ℕ → ℕ → ℕ) → List ℕ → List ℕ → List ℕ
zip f [] ys = []
zip f (x ∷ xs) [] = []
zip f (x ∷ xs) (y ∷ ys) = f x y ∷ zip f xs ys

pub zip-append :
    (f : ℕ → ℕ → ℕ) (xs ys us vs : List ℕ)
    → length xs ≡ length ys
    → zip f (xs ++ us) (ys ++ vs) ≡ zip f xs ys ++ zip f us vs
zip-append f [] [] us vs h = refl
zip-append f [] (y ∷ ys) us vs h = absurd (omega arith)
zip-append f (x ∷ xs) [] us vs h = absurd (omega arith)
zip-append f (x ∷ xs) (y ∷ ys) us vs h =
    ap (λ l. f x y ∷ l) (zip-append f xs ys us vs (omega arith))

pub zip_words_lem :
    (f : ℕ → ℕ → ℕ) (xs ys : List ℕ)
    → length xs ≡ length ys
    → zip_words f xs ys ≡ some (zip f xs ys)
unfolding zip_words
zip_words_lem f [] ys h = refl
zip_words_lem f (x ∷ xs) [] h = absurd (omega arith)
zip_words_lem f (x ∷ xs) (y ∷ ys) h = rw (zip_words_lem f xs ys (omega arith)) refl

pub length-zip :
    (f : ℕ → ℕ → ℕ) (xs ys : List ℕ) → length xs ≡ length ys → length (zip f xs ys) ≡ length xs
length-zip f [] ys h = refl
length-zip f (x ∷ xs) [] h = absurd (omega arith)
length-zip f (x ∷ xs) (y ∷ ys) h = ap suc (length-zip f xs ys (omega arith))

-- A handler acts on the words as an operator, at the place where the loop is.
pub record Acts (f : ℕ → ℕ → ℕ) (h : Handler) : Type 0 where
  pub at_run :
      (v : Bool) (pre mid post : List ℕ)
      → All IsPlain mid
      → 14 * (length pre + length mid) < 2 ^ 32
      → h.on_run v (14 * length pre) (14 * length mid) (pre ++ (mid ++ post))
        ≡ some (pre ++ (zip f mid (replicate (length mid) (full v)) ++ post))
  pub at_word :
      (x y : ℕ) (pre post : List ℕ)
      → h.on_word x (14 * length pre) (pre ++ (y ∷ post)) ≡ some (pre ++ (f y x ∷ post))

pub get_middle : (pre post : List ℕ) (y : ℕ) → get_elem? (pre ++ (y ∷ post)) (length pre) ≡ some y
get_middle [] post y = refl
get_middle (x ∷ pre) post y = get_middle pre post y

set_middle :
    (pre post : List ℕ) (y z : ℕ)
    → Prelude.set (pre ++ (y ∷ post)) (length pre) z ≡ pre ++ (z ∷ post)
set_middle [] post y z = refl
set_middle (x ∷ pre) post y z = ap (◌∷◌ x) (set_middle pre post y z)

change_lem :
    (f : ℕ → ℕ) (pre post : List ℕ) (y : ℕ)
    → change f (length pre) (pre ++ (y ∷ post)) ≡ some (pre ++ (f y ∷ post))
change_lem f pre post y = rw (get_middle pre post y, ◌>>=◌) (ap some (set_middle pre post y (f y)))

fill_words_lem :
    (v : Bool) (pre mid post : List ℕ)
    → fill_words (length mid) v (length pre) (pre ++ (mid ++ post))
      ≡ some (pre ++ (replicate (length mid) (full v) ++ post))
unfolding fill_words
fill_words_lem v pre [] post = refl
fill_words_lem v pre (y ∷ mid) post =
    rw (change_lem (λ _. full v) pre (mid ++ post) y, ◌>>=◌)
      (subst
        (λ l.
          fill_words (length mid) v (length pre + 1) l
          ≡ some (pre ++ (full v ∷ (replicate (length mid) (full v) ++ post))))
        (append_assoc pre (full v ∷ []) (mid ++ post))
        (ap (λ (k : ℕ). fill_words (length mid) v k ((pre ++ full v ∷ []) ++ (mid ++ post)))
            (sym (length-append pre (full v ∷ [])))
          ∙ fill_words_lem v (pre ++ full v ∷ []) mid post
          ∙ ap some (append_assoc pre (full v ∷ []) (replicate (length mid) (full v) ++ post))))

-- The arithmetic of a range of whole words
pub place : (n : ℕ) → 14 * n / 14 ≡ n
place n = omega arith

pub not_empty : (c : ℕ) → 0 < c → (c == 0) ≡ false
not_empty c h = ground arith

module _ (p n : ℕ) (fits : 14 * (p + n) < 2 ^ 32) where
  pub span : (14 * p + 14 * n) % 2 ^ 32 / 14 - 14 * p / 14 ≡ n
  span = omega arith

  pub aligned : (14 * p % 14 == 0 && (14 * p + 14 * n) % 2 ^ 32 % 14 == 0) ≡ true
  aligned = ground (arith, ends, begins)
    where
      begins : 14 * p % 14 ≡ 0
      begins = omega arith

      ends : (14 * p + 14 * n) % 2 ^ 32 % 14 ≡ 0
      ends = omega arith

set_range_lem :
    (v : Bool) (pre mid post : List ℕ)
    → 14 * (length pre + length mid) < 2 ^ 32
    → set_range (14 * length pre) (14 * length mid) v (pre ++ (mid ++ post))
      ≡ some (pre ++ (replicate (length mid) (full v) ++ post))
unfolding set_range
set_range_lem v pre [] post fits = refl
set_range_lem v pre (y ∷ mid) post fits =
    let n = length (y ∷ mid) in
    rw (not_empty (14 * n) (omega arith), aligned (length pre) n fits)
      (ap (λ (k : ℕ). fill_words k v (14 * length pre / 14) (pre ++ ((y ∷ mid) ++ post)))
          (span (length pre) n fits)
        ∙ ap (λ (k : ℕ). fill_words n v k (pre ++ ((y ∷ mid) ++ post))) (place (length pre))
        ∙ fill_words_lem v pre (y ∷ mid) post)

-- A run changes nothing, or all.
zip_keep :
    (f : ℕ → ℕ → ℕ) (a : ℕ) (mid : List ℕ)
    → ((x : ℕ) → IsPlain x → f x a ≡ x)
    → All IsPlain mid
    → zip f mid (replicate (length mid) a) ≡ mid
zip_keep f a [] keeps plain = refl
zip_keep f a (x ∷ xs) keeps (here, plain) =
    rw (keeps x here) (ap (◌∷◌ x) (zip_keep f a xs keeps plain))

zip_set :
    (f : ℕ → ℕ → ℕ) (a : ℕ) (mid : List ℕ)
    → ((x : ℕ) → IsPlain x → f x a ≡ a)
    → All IsPlain mid
    → zip f mid (replicate (length mid) a) ≡ replicate (length mid) a
zip_set f a [] sets plain = refl
zip_set f a (x ∷ xs) sets (here, plain) = rw (sets x here) (ap (◌∷◌ a) (zip_set f a xs sets plain))

-- What is left where a run changes nothing, and where it sets all.
module _ (f : ℕ → ℕ → ℕ) (v : Bool) (pre mid post : List ℕ) (plain : All IsPlain mid) where
  abbrev acted : Option (List ℕ)
  acted = some (pre ++ (zip f mid (replicate (length mid) (full v)) ++ post))

  kept : ((x : ℕ) → IsPlain x → f x (full v) ≡ x) → some (pre ++ (mid ++ post)) ≡ acted
  kept keeps = ap (λ l. some (pre ++ (l ++ post))) (sym (zip_keep f (full v) mid keeps plain))

  filled :
      ((x : ℕ) → IsPlain x → f x (full v) ≡ full v)
      → 14 * (length pre + length mid) < 2 ^ 32
      → set_range (14 * length pre) (14 * length mid) v (pre ++ (mid ++ post)) ≡ acted
  filled sets fits =
      set_range_lem v pre mid post fits
      ∙ ap (λ l. some (pre ++ (l ++ post))) (sym (zip_set f (full v) mid sets plain))

word_changed :
    (f : ℕ → ℕ) (y : ℕ) (pre post : List ℕ)
    → change f (14 * length pre / 14) (pre ++ (y ∷ post)) ≡ some (pre ++ (f y ∷ post))
word_changed f y pre post =
    ap (λ (k : ℕ). change f k (pre ++ (y ∷ post))) (place (length pre)) ∙ change_lem f pre post y

pub uncompress-Acts : Acts (λ _ y. y) uncompress_handler
uncompress-Acts = record {
  at_run = λ v pre mid post plain fits. filled (λ _ y. y) v pre mid post plain (λ x p. refl) fits;
  at_word = λ x y pre post. word_changed (λ _. x) y pre post;
}

pub and-Acts : Acts bit_and and_handler
and-Acts = record {
  at_run = runs;
  at_word = λ x y pre post. word_changed (λ w. bit_and w x) y pre post;
}
  where
    runs :
        (v : Bool) (pre mid post : List ℕ)
        → All IsPlain mid
        → 14 * (length pre + length mid) < 2 ^ 32
        → and_handler.on_run v (14 * length pre) (14 * length mid) (pre ++ (mid ++ post))
          ≡ some (pre ++ (zip bit_and mid (replicate (length mid) (full v)) ++ post))
    runs true pre mid post plain fits = kept bit_and true pre mid post plain low_plain
    runs false pre mid post plain fits =
        filled bit_and false pre mid post plain (λ x p. bit_and-zero x) fits

pub or-Acts : Acts bit_or or_handler
or-Acts = record {
  at_run = runs;
  at_word = λ x y pre post. word_changed (λ w. bit_or w x) y pre post;
}
  where
    runs :
        (v : Bool) (pre mid post : List ℕ)
        → All IsPlain mid
        → 14 * (length pre + length mid) < 2 ^ 32
        → or_handler.on_run v (14 * length pre) (14 * length mid) (pre ++ (mid ++ post))
          ≡ some (pre ++ (zip bit_or mid (replicate (length mid) (full v)) ++ post))
    runs true pre mid post plain fits =
        filled bit_or true pre mid post plain (λ x p. bit_or_mask 14 x p) fits
    runs false pre mid post plain fits = kept bit_or false pre mid post plain (λ x p. bit_or-zero x)
