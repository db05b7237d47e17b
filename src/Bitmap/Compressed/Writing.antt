-- ===== src/Bitmap/Compressed/Writing.antt =====
-- The words that `compress_from` writes, read back by `pieces`.
use helens.Prelude.{
  ℕ, zero, suc, ◌+◌, ◌*◌, ◌^◌, ◌≤◌, ◌<◌, ◌≡◌, refl, sym, ap, ◌∙◌, Bool, true, false, not, ◌&&◌,
  List, [], ◌∷◌, ◌++◌, append-nil, arith, length, replicate, All, inl, inr, ◌⊎◌, subst,
}
use helens.Bitmap.Compressed.{
  is_run, full, run_word, flush, Kind, uniform, mixed, kind, same, compress_from, closed, pieces,
}
use helens.Bitmap.Compressed.Words.{IsPlain, plain_run, value_of-run_word, full-IsPlain, kind_lem}
use helens.Bitmap.Compressed.Decoding.{
  Decodes, starts, same_refl, flush_run, word-Decodes, flush-Decodes,
}

-- What is written for a run of `v` does not go on with a run of the other value.
flush-starts :
    (v u : Bool) (n : ℕ) (out : List ℕ)
    → same u v ≡ false
    → 1 ≤ n
    → starts u (flush v (14 * n) ++ out) ≡ false
unfolding flush
flush-starts v u zero out other h = absurd (omega arith)
flush-starts v u (suc zero) out other h = rw (plain_run (full v) (full-IsPlain v)) refl
flush-starts v u (suc (suc n)) out other h =
    ap (λ l. starts u (l ++ out)) (flush_run v (suc (suc n)) (omega arith))
    ∙ no_start (is_run (run_word v (14 * suc (suc n)))) (value_of-run_word v (14 * suc (suc n)))
  where
    no_start : {x : Bool} (r : Bool) → x ≡ v → (r && same u x) ≡ false
    no_start r e = ground (arith, e, other)

-- The word goes on with the run, or ends it with a run of the other value, or is mixed.
goes_on :
    (v : Bool) (n w : ℕ) (ws : List ℕ)
    → kind w ≡ uniform v
    → compress_from v (14 * n) (w ∷ ws) ≡ compress_from v (14 * suc n) ws
unfolding compress_from
goes_on v n w ws e =
    rw (e, compress_from, same_refl v) (ap (λ (t : ℕ). compress_from v t ws) one_more)
  where
    one_more : 14 * n + 14 ≡ 14 * suc n
    one_more = omega arith

turns :
    (v : Bool) (n w : ℕ) (ws : List ℕ)
    → kind w ≡ uniform (not v)
    → compress_from v (14 * n) (w ∷ ws) ≡ flush v (14 * n) ++ compress_from (not v) 14 ws
unfolding compress_from
turns true n w ws e = rw (e, compress_from) refl
turns false n w ws e = rw (e, compress_from) refl

breaks :
    (v : Bool) (n w : ℕ) (ws : List ℕ)
    → kind w ≡ mixed
    → compress_from v (14 * n) (w ∷ ws) ≡ flush v (14 * n) ++ (w ∷ compress_from v (14 * 0) ws)
unfolding compress_from
breaks v n w ws e = rw (e, compress_from) refl

Kind-cases : (v : Bool) (k : Kind) → (k ≡ uniform v) ⊎ ((k ≡ uniform (not v)) ⊎ (k ≡ mixed))
Kind-cases true (uniform true) = inl refl
Kind-cases true (uniform false) = inr (inl refl)
Kind-cases false (uniform true) = inr (inl refl)
Kind-cases false (uniform false) = inl refl
Kind-cases v mixed = inr (inr refl)

other_run : (v : Bool) → same (not v) v ≡ false
other_run true = refl
other_run false = refl

compress_from-starts :
    (v : Bool) (n : ℕ) (ws : List ℕ) → 1 ≤ n → starts (not v) (compress_from v (14 * n) ws) ≡ false
unfolding compress_from
compress_from-starts v n [] h =
    ap (starts (not v)) (sym (append-nil (flush v (14 * n))))
    ∙ flush-starts v (not v) n [] (other_run v) h
compress_from-starts v n (w ∷ ws) h = elim (Kind-cases v (kind w)) [
  | inl e ↦
      ap (starts (not v)) (goes_on v n w ws e) ∙ compress_from-starts v (suc n) ws (omega arith)
  | inr (inl e) ↦
      ap (starts (not v)) (turns v n w ws e)
      ∙ flush-starts v (not v) n (compress_from (not v) 14 ws) (other_run v) h
  | inr (inr e) ↦
      ap (starts (not v)) (breaks v n w ws e)
      ∙ flush-starts v (not v) n (w ∷ compress_from v (14 * 0) ws) (other_run v) h
]

not-not : (v : Bool) → not (not v) ≡ v
not-not true = refl
not-not false = refl

replicate-snoc : (n a : ℕ) (ws : List ℕ) → replicate (suc n) a ++ ws ≡ replicate n a ++ (a ∷ ws)
replicate-snoc zero a ws = refl
replicate-snoc (suc n) a ws = ap (◌∷◌ a) (replicate-snoc n a ws)

starts_plain : (v : Bool) (w : ℕ) (out : List ℕ) → IsPlain w → starts v (w ∷ out) ≡ false
starts_plain v w out plain = rw (plain_run w plain) refl

-- Reading what compress writes gives the run so far, and the words.
pub compress_from-Decodes :
    (v : Bool) (n : ℕ) (ws : List ℕ)
    → All IsPlain ws
    → 14 * (n + length ws) < 2 ^ 32
    → Decodes (pieces closed (compress_from v (14 * n) ws)) (replicate n (full v) ++ ws)
unfolding compress_from pieces
compress_from-Decodes v n [] plain fits =
    subst (λ l. Decodes (pieces closed l) (replicate n (full v) ++ []))
      (append-nil (flush v (14 * n))) (flush-Decodes v n [] [] (omega arith) refl refl)
compress_from-Decodes v n (w ∷ ws) (here, plain) fits = elim (Kind-cases v (kind w)) [
  | inl e ↦
      subst (λ l. Decodes (pieces closed l) (replicate n (full v) ++ w ∷ ws))
        (sym (goes_on v n w ws e))
        (subst (λ l. Decodes (pieces closed (compress_from v (14 * suc n) ws)) l)
          (replicate-snoc n (full v) ws
            ∙ ap (λ (t : ℕ). replicate n (full v) ++ (t ∷ ws)) (sym (kind_lem w v here e)))
          (compress_from-Decodes v (suc n) ws plain (omega arith)))
  | inr (inl e) ↦
      subst (λ l. Decodes (pieces closed l) (replicate n (full v) ++ w ∷ ws))
        (sym (turns v n w ws e))
        (flush-Decodes v n (compress_from (not v) 14 ws) (w ∷ ws) (omega arith)
          (subst (λ (x : Bool). starts x (compress_from (not v) 14 ws) ≡ false) (not-not v)
            (compress_from-starts (not v) 1 ws (omega arith)))
          (subst (λ (t : ℕ). Decodes (pieces closed (compress_from (not v) 14 ws)) (t ∷ ws))
            (sym (kind_lem w (not v) here e))
            (compress_from-Decodes (not v) 1 ws plain (omega arith))))
  | inr (inr e) ↦
      subst (λ l. Decodes (pieces closed l) (replicate n (full v) ++ w ∷ ws))
        (sym (breaks v n w ws e))
        (flush-Decodes v n (w ∷ compress_from v (14 * 0) ws) (w ∷ ws) (omega arith)
          (starts_plain v w (compress_from v (14 * 0) ws) here)
          (word-Decodes w (compress_from v (14 * 0) ws) ws here
            (compress_from-Decodes v 0 ws plain (omega arith))))
]
