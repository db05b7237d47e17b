-- ===== src/Bitmap/Compressed/Inverted.antt =====
-- `operator~`, and what it leaves for compress.
use helens.Prelude.{
  ℕ, zero, suc, ◌+◌, ◌-◌, ◌/◌, ◌%◌, ◌^◌, ◌≤◌, ◌<◌, ◌≡◌, ◌≢◌, refl, sym, ap, ◌∙◌, Bool, true, false,
  not, none, some, List, [], ◌∷◌, map, arith, length, get_elem?, replicate, length-replicate,
  Bool-cases, ◌==◌, if◌then◌else◌, inl, inr,
}
use helens.Prelude.Maybe.{◌>>=◌}
use helens.Bitmap.{Bitmap, get, words_for}
use helens.Bitmap.Bits.{bit, bit-lt, bit_complement, bit_test}
use helens.Bitmap.Laws.{has_bit, get_at}
use helens.Bitmap.Compressed.{
  low, flip, count_bits, is_run, value_of, kind, Kind, uniform, mixed, run, closed, pieces,
  compress_from, flush, compress, over, fill_words, set_range, uncompress_handler, uncompress,
  with_words, invert, flip_word, Piece,
}
use helens.Bitmap.Compressed.RoundTrip.{compress-form}
use helens.Bitmap.Compressed.Words.{low_lem, low_plain, kind_lem}

has_bit-flip : (j w : ℕ) → j < 16 → w < 2 ^ 16 → has_bit j (flip w) ≡ not (has_bit j w)
has_bit-flip j w h small =
    rw (bit_test j (flip w), bit_test j w)
      (ground (arith, bit_complement j 16 w h small, bit-lt j w))

get_elem?-map :
    (f : ℕ → ℕ) (xs : List ℕ) (k w : ℕ)
    → get_elem? xs k ≡ some w
    → get_elem? (map f xs) k ≡ some (f w)
get_elem?-map f [] k w e = cc
get_elem?-map f (x ∷ xs) zero w e = cc
get_elem?-map f (x ∷ xs) (suc k) w e = get_elem?-map f xs k w e

invert-plain : (b : Bitmap) → b.compress ≡ false → invert b ≡ record b { words = map flip b.words }
unfolding invert
invert-plain b plain = ap (λ l. record b { words = l }) (other plain)
  where
    other :
        b.compress ≡ false
        → (if b.compress then map flip_word b.words else map flip b.words) ≡ map flip b.words
    other e = ground arith

-- `~` of a bitmap that is not compressed: get finds the other value at every index within it.
pub invert_lem :
    (b : Bitmap) (j w : ℕ)
    → b.compress ≡ false
    → get_elem? b.words (j / 14) ≡ some w
    → w < 2 ^ 16
    → (get j b ≡ some (has_bit (j % 14) w)) × (get j (invert b) ≡ some (not (has_bit (j % 14) w)))
invert_lem b j w plain here small = (
  get_at j w b here,
  ap (get j) (invert-plain b plain)
      ∙ get_at j (flip w) (record b { words = map flip b.words })
          (get_elem?-map flip b.words (j / 14) w here)
      ∙ ap some (has_bit-flip (j % 14) w (omega arith) small),
)

kind-low : (u : ℕ) → kind u ≡ kind (low u)
unfolding kind
kind-low u = ap of_count (sym (low_plain (low u) (omega (arith, low_lem u))))
  where
    of_count : ℕ → Kind
    of_count x =
        let c = count_bits 16 x in
        if c == 0 then uniform false else if c == 14 then uniform true else mixed

-- The flipped word of a plain word that is not all ones or all zeros
module _ (w : ℕ) (some_bit : 0 < w) (some_gap : w < 2 ^ 14 - 1) where
  low-flip : low (flip w) ≡ 2 ^ 14 - 1 - w
  low-flip = low_lem (flip w) ∙ omega arith

  flip-is_run : is_run (flip w) ≡ true
  flip-is_run = bit_test 15 (flip w) ∙ ground (arith, top)
    where
      top : bit 15 (flip w) ≡ 1
      top = omega arith

  flip-value_of : value_of (flip w) ≡ true
  flip-value_of = bit_test 14 (flip w) ∙ ground (arith, top)
    where
      top : bit 14 (flip w) ≡ 1
      top = omega arith

  kind-flip : kind (flip w) ≡ mixed
  kind-flip = at_kind (kind (flip w)) refl
    where
      low_again : kind (flip w) ≡ kind (low (flip w))
      low_again = kind-low (flip w)

      at_kind : (k : Kind) → kind (flip w) ≡ k → kind (flip w) ≡ mixed
      at_kind mixed e = e
      at_kind (uniform true) e = absurd (
          omega (
            arith,
            kind_lem (low (flip w)) true (omega (arith, low-flip)) (sym low_again ∙ e),
            low-flip,
          ))
      at_kind (uniform false) e = absurd (
          omega (
            arith,
            kind_lem (low (flip w)) false (omega (arith, low-flip)) (sym low_again ∙ e),
            low-flip,
          ))

  -- What compress writes for it, and how uncompress reads that.
  flip_written : compress_from false 0 (flip w ∷ []) ≡ flip w ∷ []
  unfolding compress_from flush
  flip_written = rw (kind-flip, compress_from) refl

  flip_read : pieces closed (flip w ∷ []) ≡ run true (2 ^ 14 - 1 - w) ∷ []
  unfolding pieces
  flip_read = rw (flip-is_run, pieces, flip-value_of) (ap (λ (t : ℕ). run true t ∷ []) low-flip)

no_room : (n : ℕ) (v : Bool) (d : List ℕ) → length d ≤ 1 → fill_words (suc (suc n)) v 0 d ≡ none
unfolding fill_words
no_room n v [] h = refl
no_room n v (x ∷ []) h = refl
no_room n v (x ∷ y ∷ d) h = absurd (omega arith)

range_fails :
    (c : ℕ) (d : List ℕ) → 0 < c → c < 2 ^ 32 → c ≢ 14 → length d ≤ 1 → set_range 0 c true d ≡ none
unfolding set_range
range_fails c d pos fits ne h =
    rw (not_empty c pos) (elim (Bool-cases ((0 + c) % 2 ^ 32 % 14 == 0)) [
      | inl e ↦
          let whole : (0 + c) % 2 ^ 32 % 14 ≡ 0 = ground (arith, e) in
          let rounds : (0 + c) % 2 ^ 32 / 14 - 0 ≡ suc (suc (c / 14 - 2)) = omega arith in
          rw e (ap (λ (k : ℕ). fill_words k true 0 d) rounds ∙ no_room (c / 14 - 2) true d h)
      | inr e ↦ rw e refl
    ])
  where
    not_empty : (c : ℕ) → 0 < c → (c == 0) ≡ false
    not_empty c h = ground arith

-- A bitmap of one word that uses its 14 bits only, some of them set and some not: after `~`, compress
-- puts the word as it is, and uncompress takes it for a run that does not fit and fails, unless the run
-- would be of one word.
pub inverted_lost :
    (b : Bitmap) (w : ℕ)
    → b.compress ≡ false
    → b.size ≤ 14
    → b.words ≡ w ∷ []
    → 0 < w
    → w < 2 ^ 14 - 1
    → w ≢ 2 ^ 14 - 15
    → uncompress (compress (invert b)) ≡ none
unfolding uncompress over
inverted_lost b w plain small one some_bit some_gap not_fourteen =
    let d = replicate (words_for b.size) 0 in
    let result = λ (l : List ℕ) (ps : List Piece).
      with_words (record { compress = true; size = b.size; words = l })
        (over uncompress_handler 0 ps d) in
    ap (λ x. uncompress (compress x)) (invert-plain b plain)
    ∙ ap (λ l. uncompress (compress (record b { words = map flip l }))) one
    ∙ ap uncompress (compress-form (record b { words = flip w ∷ [] }) plain)
    ∙ ap (λ l. result l (pieces closed l)) (flip_written w some_bit some_gap)
    ∙ ap (result (flip w ∷ [])) (flip_read w some_bit some_gap)
    ∙ rw
        (
          range_fails (2 ^ 14 - 1 - w) d (omega arith) (omega arith)
              (λ e. not_fourteen (omega arith))
              (omega (arith, length-replicate {A = ℕ} (words_for b.size) 0)),
          ◌>>=◌,
        )
        refl
