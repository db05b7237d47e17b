-- ===== src/Prelude/Slices.antt =====
-- Ranges of a byte array: reading a range, and overwriting one in place as `memcpy` does.
use native.Mathlib.Nat.{zero-add, suc-add}
use helens.Prelude.{
  ℕ, zero, suc, ◌+◌, ◌≤◌, max, ◌≡◌, refl, ap, ◌∙◌, List, [], ◌∷◌, ◌++◌, arith, length, take, drop,
  length-take, length-drop,
}

module _ {ℓ} {A : Type ℓ} where
  -- `memcpy(xs + i, buf, length buf)`; what would fall behind the array's end is not written.
  unfoldable pub overwrite : List A → ℕ → List A → List A
  overwrite [] i buf = []
  overwrite (x ∷ xs) zero [] = x ∷ xs
  overwrite (x ∷ xs) zero (b ∷ buf) = b ∷ overwrite xs zero buf
  overwrite (x ∷ xs) (suc i) buf = x ∷ overwrite xs i buf

  -- `memcpy(buf, xs + i, n)`
  abbrev pub slice : List A → ℕ → ℕ → List A
  slice xs i n = take n (drop i xs)

  -- The sequence `xs` with `buf` put at `i`, longer than before if `buf` reaches over the end.
  abbrev pub splice : List A → ℕ → List A → List A
  splice xs i buf = take i xs ++ (buf ++ drop (length buf) (drop i xs))

  pub length-overwrite :
      (xs : List A) (i : ℕ) (buf : List A) → length (overwrite xs i buf) ≡ length xs
  unfolding overwrite
  length-overwrite [] i buf = refl
  length-overwrite (x ∷ xs) zero [] = refl
  length-overwrite (x ∷ xs) zero (b ∷ buf) = ap suc (length-overwrite xs zero buf)
  length-overwrite (x ∷ xs) (suc i) buf = ap suc (length-overwrite xs i buf)

  pub overwrite-nil : (xs : List A) (i : ℕ) → overwrite xs i [] ≡ xs
  unfolding overwrite
  overwrite-nil [] i = refl
  overwrite-nil (x ∷ xs) zero = refl
  overwrite-nil (x ∷ xs) (suc i) = ap (◌∷◌ x) (overwrite-nil xs i)

  -- A range that ends in the first array leaves the second alone.
  pub overwrite-append_left :
      (xs ys : List A) (i : ℕ) (buf : List A)
      → i + length buf ≤ length xs
      → overwrite (xs ++ ys) i buf ≡ overwrite xs i buf ++ ys
  unfolding overwrite
  overwrite-append_left [] ys i [] h = overwrite-nil ys i
  overwrite-append_left [] ys i (b ∷ buf) h = absurd (omega arith)
  overwrite-append_left (x ∷ xs) ys zero [] h = refl
  overwrite-append_left (x ∷ xs) ys zero (b ∷ buf) h =
      ap (◌∷◌ b) (overwrite-append_left xs ys zero buf (omega arith))
  overwrite-append_left (x ∷ xs) ys (suc i) buf h =
      ap (◌∷◌ x) (overwrite-append_left xs ys i buf (omega arith))

  -- A range over the border is written in two pieces.
  pub overwrite-append_both :
      (xs ys : List A) (i n : ℕ) (buf : List A)
      → i + n ≡ length xs
      → n ≤ length buf
      → overwrite (xs ++ ys) i buf ≡ overwrite xs i (take n buf) ++ overwrite ys 0 (drop n buf)
  unfolding overwrite
  overwrite-append_both [] ys zero zero buf h k = refl
  overwrite-append_both [] ys (suc i) n buf h k = absurd (omega arith)
  overwrite-append_both [] ys i (suc n) buf h k = absurd (omega arith)
  overwrite-append_both (x ∷ xs) ys zero zero buf h k = absurd (omega arith)
  overwrite-append_both (x ∷ xs) ys zero (suc n) [] h k = absurd (omega arith)
  overwrite-append_both (x ∷ xs) ys zero (suc n) (b ∷ buf) h k =
      ap (◌∷◌ b) (overwrite-append_both xs ys zero n buf (omega arith) (omega arith))
  overwrite-append_both (x ∷ xs) ys (suc i) n buf h k =
      ap (◌∷◌ x) (overwrite-append_both xs ys i n buf (omega arith) k)

  pub take-append_le : (n : ℕ) (xs ys : List A) → n ≤ length xs → take n (xs ++ ys) ≡ take n xs
  take-append_le zero xs ys h = refl
  take-append_le (suc n) [] ys h = absurd (omega arith)
  take-append_le (suc n) (x ∷ xs) ys h = ap (◌∷◌ x) (take-append_le n xs ys (omega arith))

  pub drop-append_le :
      (n : ℕ) (xs ys : List A) → n ≤ length xs → drop n (xs ++ ys) ≡ drop n xs ++ ys
  drop-append_le zero xs ys h = refl
  drop-append_le (suc n) [] ys h = absurd (omega arith)
  drop-append_le (suc n) (x ∷ xs) ys h = drop-append_le n xs ys (omega arith)

  pub slice-append_left :
      (xs ys : List A) (i n : ℕ) → i + n ≤ length xs → slice (xs ++ ys) i n ≡ slice xs i n
  slice-append_left xs ys i n h =
      ap (take n) (drop-append_le i xs ys (omega arith))
      ∙ take-append_le n (drop i xs) ys (omega (arith, length-drop i xs))

  -- A range over the border is read in two pieces.
  pub slice-append_both :
      (xs ys : List A) (i n k : ℕ)
      → i + n ≡ length xs
      → slice (xs ++ ys) i (n + k) ≡ slice xs i n ++ take k ys
  slice-append_both [] ys zero zero k h = rw zero-add
  slice-append_both [] ys (suc i) n k h = absurd (omega arith)
  slice-append_both [] ys i (suc n) k h = absurd (omega arith)
  slice-append_both (x ∷ xs) ys zero zero k h = absurd (omega arith)
  slice-append_both (x ∷ xs) ys zero (suc n) k h =
      rw suc-add (ap (◌∷◌ x) (slice-append_both xs ys zero n k (omega arith)))
  slice-append_both (x ∷ xs) ys (suc i) n k h = slice-append_both xs ys i n k (omega arith)

  pub length-slice : (xs : List A) (i n : ℕ) → i + n ≤ length xs → length (slice xs i n) ≡ n
  length-slice xs i n h = omega (arith, length-take n (drop i xs), length-drop i xs)

  drop-nil : (n : ℕ) → drop {A = A} n [] ≡ []
  drop-nil zero = refl
  drop-nil (suc n) = refl

  take-overwrite_front :
      (xs : List A) (size m : ℕ) (buf : List A)
      → m ≡ max size (length buf)
      → length buf ≤ length xs
      → take m (overwrite xs 0 buf) ≡ buf ++ drop (length buf) (take size xs)
  unfolding overwrite
  take-overwrite_front xs size m [] h k = rw overwrite-nil (ap (λ (t : ℕ). take t xs) (omega arith))
  take-overwrite_front [] size m (b ∷ buf) h k = absurd (omega arith)
  take-overwrite_front (x ∷ xs) size zero (b ∷ buf) h k = absurd (omega arith)
  take-overwrite_front (x ∷ xs) zero (suc m) (b ∷ buf) h k =
      ap (◌∷◌ b) (take-overwrite_front xs zero m buf (omega arith) (omega arith))
      ∙ ap (λ (t : List A). b ∷ (buf ++ t)) (drop-nil (length buf))
  take-overwrite_front (x ∷ xs) (suc size) (suc m) (b ∷ buf) h k =
      ap (◌∷◌ b) (take-overwrite_front xs size m buf (omega arith) (omega arith))

  -- What was overwritten is what is read back, and the rest of the sequence is as it was.
  pub take-overwrite :
      (xs : List A) (size i m : ℕ) (buf : List A)
      → i ≤ size
      → m ≡ max size (i + length buf)
      → i + length buf ≤ length xs
      → take m (overwrite xs i buf) ≡ splice (take size xs) i buf
  unfolding overwrite
  take-overwrite xs size zero m buf h e k =
      take-overwrite_front xs size m buf (omega arith) (omega arith)
  take-overwrite [] size (suc i) m buf h e k = absurd (omega arith)
  take-overwrite (x ∷ xs) zero (suc i) m buf h e k = absurd (omega arith)
  take-overwrite (x ∷ xs) (suc size) (suc i) zero buf h e k = absurd (omega arith)
  take-overwrite (x ∷ xs) (suc size) (suc i) (suc m) buf h e k =
      ap (◌∷◌ x) (take-overwrite xs size i m buf (omega arith) (omega arith) (omega arith))

  pub take-take : (n size : ℕ) (xs : List A) → n ≤ size → take n (take size xs) ≡ take n xs
  take-take zero size xs h = refl
  take-take (suc n) zero xs h = absurd (omega arith)
  take-take (suc n) (suc size) [] h = refl
  take-take (suc n) (suc size) (x ∷ xs) h = ap (◌∷◌ x) (take-take n size xs (omega arith))

  -- A range that lies within the first `size` elements.
  pub slice-take :
      (xs : List A) (size i n : ℕ) → i + n ≤ size → slice (take size xs) i n ≡ slice xs i n
  slice-take xs size zero n h = take-take n size xs (omega arith)
  slice-take xs zero (suc i) n h = absurd (omega arith)
  slice-take [] (suc size) (suc i) n h = refl
  slice-take (x ∷ xs) (suc size) (suc i) n h = slice-take xs size i n (omega arith)

  pub overwrite-append_right :
      (xs ys : List A) (i : ℕ) (buf : List A)
      → overwrite (xs ++ ys) (length xs + i) buf ≡ xs ++ overwrite ys i buf
  unfolding overwrite
  overwrite-append_right [] ys i buf = rw zero-add
  overwrite-append_right (x ∷ xs) ys i buf =
      rw suc-add (ap (◌∷◌ x) (overwrite-append_right xs ys i buf))

  pub slice-append_right :
      (xs ys : List A) (i n : ℕ) → slice (xs ++ ys) (length xs + i) n ≡ slice ys i n
  slice-append_right [] ys i n = rw zero-add
  slice-append_right (x ∷ xs) ys i n = rw suc-add (slice-append_right xs ys i n)

  pub take_of_length-le : (size : ℕ) (ys : List A) → length ys ≤ size → take size ys ≡ ys
  take_of_length-le zero [] _ = refl
  take_of_length-le (suc size) [] _ = refl
  take_of_length-le zero (y ∷ ys) le = absurd (omega arith)
  take_of_length-le (suc size) (y ∷ ys) le = rw (take_of_length-le size ys (omega arith)) refl

  pub drop_of_length-le : (n : ℕ) (xs : List A) → length xs ≤ n → drop n xs ≡ []
  drop_of_length-le zero [] h = refl
  drop_of_length-le zero (x ∷ xs) h = absurd (omega arith)
  drop_of_length-le (suc n) [] h = refl
  drop_of_length-le (suc n) (x ∷ xs) h = drop_of_length-le n xs (omega arith)

  pub drop-drop : (i n : ℕ) (xs : List A) → drop (i + n) xs ≡ drop n (drop i xs)
  drop-drop zero n xs = rw zero-add
  drop-drop (suc i) zero [] = rw suc-add
  drop-drop (suc i) (suc n) [] = rw suc-add
  drop-drop (suc i) n (x ∷ xs) = rw suc-add (drop-drop i n xs)

  -- From the place where `buf` was put on, it stands before what was behind it.
  pub drop-splice :
      (xs : List A) (i : ℕ) (buf : List A)
      → i ≤ length xs
      → drop i (splice xs i buf) ≡ buf ++ drop (length buf) (drop i xs)
  drop-splice xs zero buf h = refl
  drop-splice [] (suc i) buf h = absurd (omega arith)
  drop-splice (x ∷ xs) (suc i) buf h = drop-splice xs i buf (omega arith)
