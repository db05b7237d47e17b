-- ===== src/Bitmap/Crossing/Shared.antt =====
-- The two loops of cross, over words and over runs.
use Prim.Native.Nat.{bit_and}
use helens.Prelude.{
  ℕ, ◌+◌, ◌*◌, ◌/◌, ◌%◌, ◌^◌, ◌<◌, ◌≡◌, refl, sym, ap, ◌∙◌, Bool, true, false, ◌||◌, some, List, [],
  ◌∷◌, ◌++◌, append_assoc, arith, length, length-append, get_elem?, replicate, length-replicate,
  ltb, if◌then◌else◌,
}
use helens.Prelude.Maybe.{◌>>=◌}
use helens.Prelude.Bits.{bit_and-zero}
use helens.Bitmap.Compressed.{full, Piece, run, word, undefined}
use helens.Bitmap.Compressed.Decoding.{Decodes}
use helens.Bitmap.Compressed.Operators.{get_middle, place, not_empty, span, aligned}
use helens.Bitmap.Compressed.RoundTrip.{split_at}
use helens.Bitmap.Crossing.{scan_words, get_range, in_run, compress_cross, normal_cross}

-- Two words at one place have a bit in common.
abbrev pub shares : List ℕ → List ℕ → Bool
shares [] ys = false
shares (x ∷ xs) [] = false
shares (x ∷ xs) (y ∷ ys) = ltb 0 (bit_and x y) || shares xs ys

or_found : (p q : Bool) → (if p then some true else some q) ≡ some (p || q)
or_found p q = ground arith

pub normal_cross_lem :
    (xs ys : List ℕ) → length xs ≡ length ys → normal_cross xs ys ≡ some (shares xs ys)
unfolding normal_cross
normal_cross_lem [] ys h = refl
normal_cross_lem (x ∷ xs) [] h = absurd (omega arith)
normal_cross_lem (x ∷ xs) (y ∷ ys) h =
    rw (normal_cross_lem xs ys (omega arith)) (or_found (ltb 0 (bit_and x y)) (shares xs ys))

shares-append :
    (xs ys us vs : List ℕ)
    → length xs ≡ length us
    → shares (xs ++ ys) (us ++ vs) ≡ (shares xs us || shares ys vs)
shares-append [] ys [] vs h = refl
shares-append [] ys (u ∷ us) vs h = absurd (omega arith)
shares-append (x ∷ xs) ys [] vs h = absurd (omega arith)
shares-append (x ∷ xs) ys (u ∷ us) vs h =
    rw (shares-append xs ys us vs (omega arith)) (ground arith)

shares-zeros : (xs : List ℕ) → shares xs (replicate (length xs) 0) ≡ false
shares-zeros [] = refl
shares-zeros (x ∷ xs) = rw (bit_and-zero x, shares-zeros xs) refl

scan_words_lem :
    (pre mid post : List ℕ)
    → scan_words (length mid) true (length pre) (pre ++ (mid ++ post))
      ≡ some (shares mid (replicate (length mid) (full true)))
unfolding scan_words
scan_words_lem pre [] post = refl
scan_words_lem pre (y ∷ mid) post =
    let ones = replicate (length mid) (full true) in
    let behind : scan_words (length mid) true (length pre + 1) (pre ++ (y ∷ (mid ++ post)))
        ≡ some (shares mid ones) =
      ap (λ (k : ℕ). scan_words (length mid) true k (pre ++ (y ∷ (mid ++ post))))
        (sym (length-append pre (y ∷ [])))
      ∙ ap (scan_words (length mid) true (length (pre ++ y ∷ [])))
          (sym (append_assoc pre (y ∷ []) (mid ++ post)))
      ∙ scan_words_lem (pre ++ y ∷ []) mid post in
    rw (get_middle pre (mid ++ post) y, ◌>>=◌, behind)
      (or_found (ltb 0 (bit_and y (full true))) (shares mid ones))

get_range_lem :
    (pre mid post : List ℕ)
    → 14 * (length pre + length mid) < 2 ^ 32
    → get_range (14 * length pre) (14 * length mid) true (pre ++ (mid ++ post))
      ≡ some (shares mid (replicate (length mid) (full true)))
unfolding get_range
get_range_lem pre [] post fits = refl
get_range_lem pre (y ∷ mid) post fits =
    let n = length (y ∷ mid) in
    let d = pre ++ ((y ∷ mid) ++ post) in
    rw (not_empty (14 * n) (omega arith), aligned (length pre) n fits)
      (ap (λ (k : ℕ). scan_words k true (14 * length pre / 14) d) (span (length pre) n fits)
        ∙ ap (λ (k : ℕ). scan_words n true k d) (place (length pre))
        ∙ scan_words_lem pre (y ∷ mid) post)

in_run_lem :
    (v : Bool) (pre mid post : List ℕ)
    → 14 * (length pre + length mid) < 2 ^ 32
    → in_run v (14 * length pre) (14 * length mid) (pre ++ (mid ++ post))
      ≡ some (shares mid (replicate (length mid) (full v)))
in_run_lem true pre mid post fits = get_range_lem pre mid post fits
in_run_lem false pre mid post fits = ap some (sym (shares-zeros mid))

-- The loop has come to the words behind `pre`; it goes on behind `pre` and `mid`.
moved :
    (pre mid post : List ℕ) (ps : List Piece)
    → 14 * (length pre + length mid) < 2 ^ 32
    → compress_cross ((14 * length pre + 14 * length mid) % 2 ^ 32) ps (pre ++ (mid ++ post))
      ≡ compress_cross (14 * length (pre ++ mid)) ps ((pre ++ mid) ++ post)
moved pre mid post ps fits =
    ap (λ (t : ℕ). compress_cross t ps (pre ++ (mid ++ post)))
      (omega (arith, length-append pre mid))
    ∙ ap (compress_cross (14 * length (pre ++ mid)) ps) (sym (append_assoc pre mid post))

cross_run :
    (v : Bool) (ps : List Piece) (pre mid post rest : List ℕ)
    → 14 * (length pre + length mid) < 2 ^ 32
    → compress_cross (14 * length (pre ++ mid)) ps ((pre ++ mid) ++ post) ≡ some (shares post rest)
    → compress_cross (14 * length pre) (run v (14 * length mid) ∷ ps) (pre ++ (mid ++ post))
      ≡ some (shares (mid ++ post) (replicate (length mid) (full v) ++ rest))
unfolding compress_cross
cross_run v ps pre mid post rest fits ih =
    let ones = replicate (length mid) (full v) in
    rw (in_run_lem v pre mid post fits, ◌>>=◌, moved pre mid post ps fits ∙ ih)
      (or_found (shares mid ones) (shares post rest)
        ∙ ap some
            (sym (shares-append mid post ones rest (sym (length-replicate (length mid) (full v))))))

cross_word :
    (x y : ℕ) (ps : List Piece) (pre post rest : List ℕ)
    → 14 * (length pre + 1) < 2 ^ 32
    → compress_cross (14 * length (pre ++ y ∷ [])) ps ((pre ++ y ∷ []) ++ post)
      ≡ some (shares post rest)
    → compress_cross (14 * length pre) (word x ∷ ps) (pre ++ (y ∷ post))
      ≡ some (ltb 0 (bit_and y x) || shares post rest)
unfolding compress_cross
cross_word x y ps pre post rest fits ih =
    rw (here, ◌>>=◌, moved pre (y ∷ []) post ps fits ∙ ih)
      (or_found (ltb 0 (bit_and y x)) (shares post rest))
  where
    here : get_elem? (pre ++ (y ∷ post)) (14 * length pre / 14) ≡ some y
    here =
        ap (λ (k : ℕ). get_elem? (pre ++ (y ∷ post)) k) (place (length pre)) ∙ get_middle pre post y

pub compress_cross_lem :
    (ps : List Piece) (ws pre old : List ℕ)
    → Decodes ps ws
    → length old ≡ length ws
    → 14 * (length pre + length ws) < 2 ^ 32
    → compress_cross (14 * length pre) ps (pre ++ old) ≡ some (shares old ws)
unfolding compress_cross
compress_cross_lem [] ws pre [] d len fits = refl
compress_cross_lem [] ws pre (y ∷ old) d len fits = absurd (omega (arith, len, ap length d))
compress_cross_lem (undefined ∷ ps) ws pre old d len fits = absurd d
compress_cross_lem (run v count ∷ ps) ws pre old (n, rest, is_n, is_ws, d) len fits =
    let lengths : length ws ≡ n + length rest =
      ap length is_ws
      ∙ length-append (replicate n (full v)) rest
      ∙ ap (λ (k : ℕ). k + length rest) (length-replicate n (full v)) in
    let (mid, post, is_old, len_mid) = split_at n old (omega arith) in
    let loop = compress_cross (14 * length pre) in
    ap (λ (t : ℕ). loop (run v t ∷ ps) (pre ++ old)) (is_n ∙ ap (λ (t : ℕ). 14 * t) (sym len_mid))
    ∙ ap (λ l. loop (run v (14 * length mid) ∷ ps) (pre ++ l)) is_old
    ∙ cross_run v ps pre mid post rest (omega arith) (
        compress_cross_lem ps rest (pre ++ mid) post d
          (omega (arith, ap length is_old, length-append mid post))
          (omega (arith, length-append pre mid)))
    ∙ ap (λ l. some (shares l (replicate (length mid) (full v) ++ rest))) (sym is_old)
    ∙ ap (λ (k : ℕ). some (shares old (replicate k (full v) ++ rest))) len_mid
    ∙ ap (λ l. some (shares old l)) (sym is_ws)
compress_cross_lem (word x ∷ ps) ws pre [] (rest, is_ws, d) len fits =
    absurd (omega (arith, len, ap length is_ws))
compress_cross_lem (word x ∷ ps) ws pre (y ∷ old) (rest, is_ws, d) len fits =
    cross_word x y ps pre old rest (omega (arith, ap length is_ws)) (
      compress_cross_lem ps rest (pre ++ y ∷ []) old d (omega (arith, ap length is_ws))
        (omega (arith, ap length is_ws, length-append pre (y ∷ []))))
    ∙ ap (λ l. some (shares (y ∷ old) l)) (sym is_ws)
