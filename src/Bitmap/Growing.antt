-- ===== src/Bitmap/Growing.antt =====
-- What get says after a bitmap has grown.
use Prim.Native.Nat.{bit_and, bit_or}
use mathlib.Core.Option.{some-injective}
use helens.Prelude.{
  ℕ, zero, suc, ◌+◌, ◌-◌, ◌/◌, ◌%◌, ◌^◌, ◌≤◌, ◌<◌, ◌≡◌, refl, sym, ap, ◌∙◌, Bool, true, false, ◌&&◌,
  ◌||◌, some, List, [], ◌∷◌, ◌++◌, arith, length, get_elem?, replicate, ltb, if◌then◌else◌,
}
use helens.Prelude.Maybe.{◌>>=◌, >>=-eq-some}
use helens.Bitmap.{Bitmap, mask, words_for, get, fill, close_word, close_last, grow, resize}
use helens.Bitmap.Bits.{bit-lt, bit-bit_and, bit-bit_or, bit_mask, bit_test, bit-zero}
use helens.Bitmap.Laws.{has_bit, get_at, get_same_word}

has_bit-close_word :
    (v : Bool) (left j w : ℕ)
    → has_bit j (close_word v left w)
      ≡ (if v then has_bit j w || ltb j left else has_bit j w && ltb j left)
has_bit-close_word true left j w =
    rw (bit_test j (bit_or w (mask left)), bit_test j w)
      (ground (arith, bit-bit_or j w (mask left), bit_mask j left, bit-lt j w))
has_bit-close_word false left j w =
    rw (bit_test j (bit_and w (mask left)), bit_test j w)
      (ground (arith, bit-bit_and j w (mask left), bit_mask j left, bit-lt j w))

module _ (v : Bool) (left : ℕ) where
  -- The last word is closed, the others are as before.
  record Closed (ws cs : List ℕ) : Type 0 where
    len : length cs ≡ length ws
    before : (k : ℕ) → k + 1 < length ws → get_elem? cs k ≡ get_elem? ws k
    last :
        (k x : ℕ)
        → k + 1 ≡ length ws
        → get_elem? ws k ≡ some x
        → get_elem? cs k ≡ some (close_word v left x)

  Closed-cons : (w w' : ℕ) (ws cs : List ℕ) → Closed (w' ∷ ws) cs → Closed (w ∷ w' ∷ ws) (w ∷ cs)
  Closed-cons w w' ws cs c = record { len = ap suc c.len; before = behind; last = at_end }
    where
      behind :
          (k : ℕ) → k + 1 < length (w ∷ w' ∷ ws) → get_elem? (w ∷ cs) k ≡ get_elem? (w ∷ w' ∷ ws) k
      behind zero h = refl
      behind (suc k) h = c.before k (omega arith)

      at_end :
          (k x : ℕ)
          → k + 1 ≡ length (w ∷ w' ∷ ws)
          → get_elem? (w ∷ w' ∷ ws) k ≡ some x
          → get_elem? (w ∷ cs) k ≡ some (close_word v left x)
      at_end zero x h e = absurd (omega arith)
      at_end (suc k) x h e = c.last k x (omega arith) e

  close_last_lem :
      (w : ℕ) (ws : List ℕ)
      → (cs : List ℕ) × (close_last v left (w ∷ ws) ≡ some cs) × Closed (w ∷ ws) cs
  unfolding close_last
  close_last_lem w [] = (
    close_word v left w ∷ [],
    refl,
    record { len = refl; before = λ k h. absurd (omega arith); last = only },
  )
    where
      only :
          (k x : ℕ)
          → k + 1 ≡ 1
          → get_elem? (w ∷ []) k ≡ some x
          → get_elem? (close_word v left w ∷ []) k ≡ some (close_word v left x)
      only zero x h e = cc
      only (suc k) x h e = absurd (omega arith)
  close_last_lem w (w' ∷ ws) =
      let (cs, ran, closed) = close_last_lem w' ws in
      (w ∷ cs, rw (ran, ◌>>=◌) refl, Closed-cons w w' ws cs closed)

get_elem?-append_left :
    (xs ys : List ℕ) (k : ℕ) → k < length xs → get_elem? (xs ++ ys) k ≡ get_elem? xs k
get_elem?-append_left [] ys k h = absurd (omega arith)
get_elem?-append_left (x ∷ xs) ys zero h = refl
get_elem?-append_left (x ∷ xs) ys (suc k) h = get_elem?-append_left xs ys k (omega arith)

get_elem?-append_replicate :
    (xs : List ℕ) (n a k : ℕ)
    → length xs ≤ k
    → k < length xs + n
    → get_elem? (xs ++ replicate n a) k ≡ some a
get_elem?-append_replicate [] zero a k p h = absurd (omega arith)
get_elem?-append_replicate [] (suc n) a zero p h = refl
get_elem?-append_replicate [] (suc n) a (suc k) p h =
    get_elem?-append_replicate [] n a k (omega arith) (omega arith)
get_elem?-append_replicate (x ∷ xs) n a zero p h = absurd (omega arith)
get_elem?-append_replicate (x ∷ xs) n a (suc k) p h =
    get_elem?-append_replicate xs n a k (omega arith) (omega arith)

has_bit-fill : (v : Bool) (j : ℕ) → j < 14 → has_bit j (fill v) ≡ v
has_bit-fill true j h = rw (bit_test j (2 ^ 16 - 1)) (ground (arith, bit_mask j 16))
has_bit-fill false j h = rw (bit_test j 0) (ground (arith, bit-zero j))

module _ (b : Bitmap) (size : ℕ) (v : Bool) (w : ℕ) (ws cs : List ℕ) (here : b.words ≡ w ∷ ws)
    (closed : Closed v (b.size % 14) (w ∷ ws) cs) where
  abbrev grown : Bitmap
  grown = record b {
    size = size;
    words = cs ++ replicate (words_for size - length b.words) (fill v);
  }

  abbrev count : ℕ
  count = length b.words

  length-cs : length cs ≡ count
  length-cs = closed.len ∙ ap length (sym here)

  before_last : (j : ℕ) → j / 14 + 1 < count → get j grown ≡ get j b
  before_last j h = get_same_word j b grown (
      get_elem?-append_left cs (replicate (words_for size - count) (fill v)) (j / 14)
        (omega (arith, length-cs))
      ∙ closed.before (j / 14) (omega (arith, ap length here))
      ∙ ap (λ l. get_elem? l (j / 14)) (sym here))

  in_last :
      (j x : ℕ)
      → j / 14 + 1 ≡ count
      → get_elem? b.words (j / 14) ≡ some x
      → get j grown ≡ some (has_bit (j % 14) (close_word v (b.size % 14) x))
  in_last j x h there = get_at j (close_word v (b.size % 14) x) grown (
      get_elem?-append_left cs (replicate (words_for size - count) (fill v)) (j / 14)
        (omega (arith, length-cs))
      ∙ closed.last (j / 14) x (h ∙ ap length here)
          (ap (λ l. get_elem? l (j / 14)) (sym here) ∙ there))

  behind_last : (j : ℕ) → count ≤ j / 14 → j / 14 < words_for size → get j grown ≡ some v
  behind_last j p h =
      get_at j (fill v) grown (
        get_elem?-append_replicate cs (words_for size - count) (fill v) (j / 14)
          (omega (arith, length-cs)) (omega (arith, length-cs)))
      ∙ ap some (has_bit-fill v (j % 14) (omega arith))

-- What get says of an index after growing: as before ahead of the last word that was there; in that
-- word, the bits below `m_size % VALUE_SIZE` are set, or the others cleared; behind it, the new value.
abbrev pub GrownFrom : Bitmap → Bool → ℕ → Bitmap → Type 0
GrownFrom b v words b' =
    ((j : ℕ) → j / 14 + 1 < length b.words → get j b' ≡ get j b)
    × ((j : ℕ) (x : Bool)
        → j / 14 + 1 ≡ length b.words
        → get j b ≡ some x
        → get j b'
          ≡ some (if v then x || ltb (j % 14) (b.size % 14) else x && ltb (j % 14) (b.size % 14)))
    × ((j : ℕ) → length b.words ≤ j / 14 → j / 14 < words → get j b' ≡ some v)

get-some :
    (j : ℕ) (b : Bitmap) (x : Bool)
    → get j b ≡ some x
    → (w : ℕ) × (get_elem? b.words (j / 14) ≡ some w) × (has_bit (j % 14) w ≡ x)
unfolding get
get-some j b x e =
    let (w, at, last) =
      >>=-eq-some (get_elem? b.words (j / 14)) (λ w. some (has_bit (j % 14) w)) e in
    (w, at, some-injective _ _ last)

grow_lem :
    (b : Bitmap) (size : ℕ) (v : Bool) (w : ℕ) (ws : List ℕ)
    → b.words ≡ w ∷ ws
    → (b' : Bitmap) × (grow size v b ≡ some b')
      × (b'.size ≡ size)
      × GrownFrom b v (words_for size) b'
unfolding grow
grow_lem b size v w ws here =
    let (cs, ran, closed) = close_last_lem v (b.size % 14) w ws in
    (
      grown b size v w ws cs here closed,
      rw (ap (close_last v (b.size % 14)) here ∙ ran, ◌>>=◌) refl,
      refl,
      (
        before_last b size v w ws cs here closed,
        λ j x h e.
            let (word, at, bit_is) = get-some j b x e in
            in_last b size v w ws cs here closed j word h at
            ∙ ap some (has_bit-close_word v (b.size % 14) (j % 14) word ∙ rw bit_is refl),
        behind_last b size v w ws cs here closed,
      ),
    )

first_word : (xs : List ℕ) → 0 < length xs → (w : ℕ) × (ws : List ℕ) × (xs ≡ w ∷ ws)
first_word [] h = absurd (omega arith)
first_word (w ∷ ws) h = (w, ws, refl)

resize-grow :
    (b : Bitmap) (size : ℕ) (v : Bool)
    → b.compress ≡ false
    → length b.words < words_for size
    → resize size v b ≡ grow size v b
unfolding resize
resize-grow b size v plain more = ground arith

-- resize of a bitmap that is not compressed and has a word, to a size that needs more words, returns.
-- Every index ahead of the last word that was there keeps its value, and every index behind it has the
-- new one. In that word the bits below `m_size % VALUE_SIZE` are set if the new value is 1, and all
-- others are cleared if it is 0.
pub resize_lem :
    (b : Bitmap) (size : ℕ) (v : Bool)
    → b.compress ≡ false
    → 0 < length b.words
    → length b.words < words_for size
    → (b' : Bitmap) × (resize size v b ≡ some b')
      × (b'.size ≡ size)
      × GrownFrom b v (words_for size) b'
resize_lem b size v plain some_word more =
    let (w, ws, here) = first_word b.words some_word in
    let (b', ran, sized, rest) = grow_lem b size v w ws here in
    (b', resize-grow b size v plain more ∙ ran, sized, rest)
