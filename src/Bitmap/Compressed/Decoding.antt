-- ===== src/Bitmap/Compressed/Decoding.antt =====
-- What the words of a compressed bitmap come to: `pieces` reads back a run that `flush` writes.
use Prim.Native.Nat.{bit_or}
use native.Mathlib.Nat.{mod-eq_of_lt, div-add-mod}
use helens.Prelude.{
  ℕ, zero, suc, ◌+◌, ◌*◌, ◌/◌, ◌%◌, ◌^◌, ◌≤◌, ◌<◌, ◌≡◌, refl, sym, ap, ◌∙◌, Bool, true, false, ◌&&◌,
  List, [], ◌∷◌, ◌++◌, arith, replicate, lt→ltb, ltb, ◌==◌, inl, inr, Bool-cases, subst,
}
use helens.Prelude.Bits.{bit_or-shifted, pow-add}
use helens.Bitmap.Bits.{pow_mono}
use helens.Bitmap.Compressed.{
  low, is_run, value_of, full, run_word, chunks, flush, same, Piece, run, word, undefined, shifts,
  Open, closed, opened, finish, joins, extend, pieces,
}
use helens.Bitmap.Compressed.Words.{
  IsPlain, low_plain, plain_run, is_run-run_word, value_of-run_word, low-run_word, full-IsPlain,
}

-- The words that the pieces stand for
abbrev pub Decodes : List Piece → List ℕ → Type 0
Decodes [] ws = ws ≡ []
Decodes (undefined ∷ ps) ws = ⊥
Decodes (run v count ∷ ps) ws =
    (n : ℕ) × (rest : List ℕ) × (count ≡ 14 * n)
    × (ws ≡ replicate n (full v) ++ rest)
    × Decodes ps rest
Decodes (word x ∷ ps) ws = (rest : List ℕ) × (ws ≡ x ∷ rest) × Decodes ps rest

-- The list begins with a word that a run of `v` would take in.
abbrev pub starts : Bool → List ℕ → Bool
starts v [] = false
starts v (w ∷ ws) = is_run w && same v (value_of w)

-- One word under `pieces`, by what it is.
pieces_join :
    (o : Open) (w : ℕ) (ws : List ℕ)
    → joins o w ≡ true
    → shifts o ≡ true
    → pieces o (w ∷ ws) ≡ pieces (extend o w) ws
unfolding pieces
pieces_join o w ws e e' = rw (e, pieces, e') refl

pieces_run :
    (o : Open) (w : ℕ) (ws : List ℕ)
    → joins o w ≡ false
    → is_run w ≡ true
    → pieces o (w ∷ ws) ≡ finish o ++ pieces (opened (value_of w) 1 (low w)) ws
unfolding pieces
pieces_run o w ws e r = rw (e, pieces, r) refl

pieces_word :
    (o : Open) (w : ℕ) (ws : List ℕ)
    → joins o w ≡ false
    → is_run w ≡ false
    → pieces o (w ∷ ws) ≡ finish o ++ (word (low w) ∷ pieces closed ws)
unfolding pieces
pieces_word o w ws e r = rw (e, pieces, r) refl

-- A run ends where the next word does not belong to it.
run_ends :
    (v : Bool) (n count : ℕ) (out : List ℕ)
    → starts v out ≡ false
    → pieces (opened v n count) out ≡ run v count ∷ pieces closed out
unfolding pieces
run_ends v n count [] h = refl
run_ends v n count (w ∷ ws) h = elim (Bool-cases (is_run w)) [
  | inl e ↦
      pieces_run (opened v n count) w ws h e
      ∙ ap (λ l. run v count ∷ l) (sym (pieces_run closed w ws refl e))
  | inr e ↦
      pieces_word (opened v n count) w ws h e
      ∙ ap (λ l. run v count ∷ l) (sym (pieces_word closed w ws refl e))
]

split_count : (c p : ℕ) → c * p ≡ c % 2 ^ 14 * p + c / 2 ^ 14 * (2 ^ 14 * p)
split_count c p = omega (arith, ap (λ (t : ℕ). t * p) (div-add-mod c (2 ^ 14)))

pub same_refl : (v : Bool) → same v v ≡ true
same_refl true = refl
same_refl false = refl

shift_fourteen : (n : ℕ) → 2 ^ (14 * suc n) ≡ 2 ^ 14 * 2 ^ (14 * n)
shift_fourteen n = ap (λ (t : ℕ). 2 ^ t) one_more ∙ pow-add 14 (14 * n)
  where
    one_more : 14 * suc n ≡ 14 + 14 * n
    one_more = omega arith

-- A piece of 14 bits stays below the next power.
piece_fits : (r p acc : ℕ) → r < 2 ^ 14 → acc < p → acc + r * p < 2 ^ 14 * p
piece_fits r p acc h small = grind arith

joined : (v : Bool) (c : ℕ) → (is_run (run_word v c) && same v (value_of (run_word v c))) ≡ true
joined v c = and_true (is_run-run_word v c) (ap (same v) (value_of-run_word v c) ∙ same_refl v)
  where
    and_true : {a b : Bool} → a ≡ true → b ≡ true → (a && b) ≡ true
    and_true e f = ground arith

-- A word with a bit of a count that has 32 bits is the third of a run at most.
shift_fits :
    (v : Bool) (n acc c : ℕ)
    → 0 < c
    → acc + c * 2 ^ (14 * n) < 2 ^ 32
    → shifts (opened v n acc) ≡ true
shift_fits v n acc c pos fits = elim (Bool-cases (ltb (14 * n) 32)) [
  | inl e ↦ e
  | inr e ↦
      let big : 32 < 14 * n = ground arith in
      absurd (too_much c (2 ^ (14 * n)) pos (pow_mono 32 (14 * n) big) (omega arith))
]
  where
    too_much : (c p : ℕ) → 0 < c → 2 ^ 32 < p → c * p < 2 ^ 32 → ⊥
    too_much c p pos big small = grind arith

-- One more word of a run, with a count that has 32 bits.
chunk_joins :
    (v : Bool) (n acc c : ℕ) (out : List ℕ)
    → 0 < c
    → acc < 2 ^ (14 * n)
    → acc + c * 2 ^ (14 * n) < 2 ^ 32
    → pieces (opened v n acc) (run_word v c ∷ out)
      ≡ pieces (opened v (suc n) (acc + c % 2 ^ 14 * 2 ^ (14 * n))) out
chunk_joins v n acc c out pos small fits =
    pieces_join (opened v n acc) (run_word v c) out (joined v c) (shift_fits v n acc c pos fits)
    ∙ ap (λ (t : ℕ). pieces (opened v (suc n) t) out)
        (ap (λ (t : ℕ). bit_or acc (t * 2 ^ (14 * n) % 2 ^ 32)) (low-run_word v c)
          ∙ ap (bit_or acc) (mod-eq_of_lt (omega (arith, split_count c (2 ^ (14 * n)))))
          ∙ bit_or-shifted (14 * n) (c % 2 ^ 14) acc small)

nothing_more : (acc c n : ℕ) → c ≡ 0 → acc ≡ acc + c * 2 ^ (14 * n)
nothing_more acc c n e = omega (arith, ap (λ (t : ℕ). t * 2 ^ (14 * n)) e)

-- The words of a count that the rounds are enough for go on with a run.
chunks_join :
    (rounds : ℕ) (v : Bool) (n acc c : ℕ) (out : List ℕ)
    → acc < 2 ^ (14 * n)
    → acc + c * 2 ^ (14 * n) < 2 ^ 32
    → c < 2 ^ (14 * rounds)
    → (n' : ℕ) × (pieces (opened v n acc) (chunks rounds v c ++ out)
        ≡ pieces (opened v n' (acc + c * 2 ^ (14 * n))) out)
unfolding chunks
chunks_join zero v n acc c out small fits enough =
    (n, ap (λ (t : ℕ). pieces (opened v n t) out) (nothing_more acc c n (omega arith)))
chunks_join (suc rounds) v n acc c out small fits enough = elim (Bool-cases (c == 0)) [
  | inl e ↦ (
    n,
    rw e (ap (λ (t : ℕ). pieces (opened v n t) out) (nothing_more acc c n (ground (arith, e)))),
  )
  | inr e ↦
      let acc' = acc + c % 2 ^ 14 * 2 ^ (14 * n) in
      let scaled : c / 2 ^ 14 * 2 ^ (14 * suc n) ≡ c / 2 ^ 14 * (2 ^ 14 * 2 ^ (14 * n)) =
        ap (λ (t : ℕ). c / 2 ^ 14 * t) (shift_fourteen n) in
      let total : acc' + c / 2 ^ 14 * 2 ^ (14 * suc n) ≡ acc + c * 2 ^ (14 * n) =
        omega (arith, split_count c (2 ^ (14 * n))) in
      let (n', ran) =
        chunks_join rounds v (suc n) acc' (c / 2 ^ 14) out
          (omega (
            arith,
            shift_fourteen n,
            piece_fits (c % 2 ^ 14) (2 ^ (14 * n)) acc (omega arith) small,
          ))
          (omega arith) (omega (arith, shift_fourteen rounds)) in
      (
        n',
        rw e (
            chunk_joins v n acc c (chunks rounds v (c / 2 ^ 14) ++ out) (ground (arith, e)) small
              fits
            ∙ ran
            ∙ ap (λ (t : ℕ). pieces (opened v n' t) out) total),
      )
]

pub flush_run :
    (v : Bool) (n : ℕ)
    → 2 ≤ n
    → flush v (14 * n) ≡ run_word v (14 * n) ∷ chunks 4 v (14 * n / 2 ^ 14)
unfolding flush chunks
flush_run v n h = rw (lt→ltb 1 (14 * n / 14) (omega arith), not_zero (14 * n) (omega arith)) refl
  where
    not_zero : (c : ℕ) → 0 < c → (c == 0) ≡ false
    not_zero c h = ground arith

-- The run that is written is read back.
pub run_decodes :
    (v : Bool) (n : ℕ) (out : List ℕ)
    → 2 ≤ n
    → 14 * n < 2 ^ 32
    → starts v out ≡ false
    → pieces closed (flush v (14 * n) ++ out) ≡ run v (14 * n) ∷ pieces closed out
run_decodes v n out two fits ends =
    let c = 14 * n in
    let (n', ran) =
      chunks_join 4 v 1 (c % 2 ^ 14) (c / 2 ^ 14) out (omega arith) (omega arith) (omega arith) in
    ap (λ l. pieces closed (l ++ out)) (flush_run v n two)
    ∙ pieces_run closed (run_word v c) (chunks 4 v (c / 2 ^ 14) ++ out) refl (is_run-run_word v c)
    ∙ ap (λ (u : Bool). pieces (opened u 1 (low (run_word v c))) (chunks 4 v (c / 2 ^ 14) ++ out))
        (value_of-run_word v c)
    ∙ ap (λ (t : ℕ). pieces (opened v 1 t) (chunks 4 v (c / 2 ^ 14) ++ out)) (low-run_word v c)
    ∙ ran
    ∙ run_ends v n' (c % 2 ^ 14 + c / 2 ^ 14 * 2 ^ (14 * 1)) out ends
    ∙ ap (λ (t : ℕ). run v t ∷ pieces closed out) whole
  where
    whole : 14 * n % 2 ^ 14 + 14 * n / 2 ^ 14 * 2 ^ (14 * 1) ≡ 14 * n
    whole = omega arith

pub word-Decodes :
    (w : ℕ) (out ws : List ℕ)
    → IsPlain w
    → Decodes (pieces closed out) ws
    → Decodes (pieces closed (w ∷ out)) (w ∷ ws)
word-Decodes w out ws plain rest =
    subst (λ l. Decodes l (w ∷ ws)) (sym (pieces_word closed w out refl (plain_run w plain)))
      (ws, ap (λ (t : ℕ). t ∷ ws) (sym (low_plain w plain)), rest)

pub flush-Decodes :
    (v : Bool) (n : ℕ) (out ws : List ℕ)
    → 14 * n < 2 ^ 32
    → starts v out ≡ false
    → Decodes (pieces closed out) ws
    → Decodes (pieces closed (flush v (14 * n) ++ out)) (replicate n (full v) ++ ws)
unfolding flush
flush-Decodes v zero out ws fits ends rest = rest
flush-Decodes v (suc zero) out ws fits ends rest =
    word-Decodes (full v) out ws (full-IsPlain v) rest
flush-Decodes v (suc (suc n)) out ws fits ends rest =
    subst (λ l. Decodes l (replicate (suc (suc n)) (full v) ++ ws))
      (sym (run_decodes v (suc (suc n)) out (omega arith) fits ends))
      (suc (suc n), ws, refl, refl, rest)
