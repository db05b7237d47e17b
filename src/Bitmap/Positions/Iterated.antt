-- ===== src/Bitmap/Positions/Iterated.antt =====
-- The iterator: where next ends, from any position.
use helens.Prelude.{
  ℕ, zero, suc, ◌+◌, ◌-◌, ◌*◌, ◌/◌, ◌%◌, ◌≤◌, ◌<◌, min, ◌≡◌, refl, sym, ap, ◌∙◌, Bool, true, false,
  some, List, [], ◌∷◌, arith, length, get_elem?, take, drop, take-append-drop, length-take,
  length-drop, subst, ltb, ◌==◌, if◌then◌else◌, Bool-cases, inl, inr, ◌⊎◌,
}
use helens.Prelude.Maybe.{◌>>=◌}
use helens.Bitmap.{Bitmap}
use helens.Bitmap.Laws.{has_bit}
use helens.Bitmap.Positions.{find_bit, find_words, advance}
use helens.Bitmap.Positions.Passing.{
  Reads, Reads-suc, ReadsAll, set_in, set_in-at, set_in-ReadsAll, has_bit-zero,
}

-- No index from `p` on and before `q` passes the test.
abbrev pub Clear : (ℕ → Bool) → ℕ → ℕ → Type 0
Clear f p q = (j : ℕ) → p ≤ j → j < q → f j ≡ false

Clear-suc : (f : ℕ → Bool) (p q : ℕ) → f p ≡ false → Clear f (suc p) q → Clear f p q
Clear-suc f p q here h j le lt = elim (Bool-cases (p == j)) [
  | inl e ↦ ap f {y = p} (ground arith) ∙ here
  | inr e ↦ h j (ground arith) lt
]

-- What the loop over the bits of a word comes to.
abbrev Ended : (ℕ → Bool) → ℕ → ℕ → ℕ → Bool × ℕ → Type 0
Ended f rounds p size r =
    ((q : ℕ) × (r ≡ (true, q)) × (p ≤ q) × (q < size) × (f q ≡ true) × Clear f p q)
    ⊎ ((r ≡ (false, p + min rounds (size - p))) × Clear f p (p + min rounds (size - p)))

find_bit_lem :
    (f : ℕ → Bool) (rounds n p size w : ℕ)
    → Reads f rounds n p w
    → Ended f rounds p size (find_bit rounds n p size w)
unfolding find_bit
find_bit_lem f zero n p size w h = inr (
  ap (λ (t : ℕ). (false, t)) {y = p + min 0 (size - p)} (omega arith),
  λ j le lt. absurd (omega arith),
)
find_bit_lem f (suc rounds) n p size w h =
    let (here, next) = Reads-suc f rounds n p w h in
    elim (Bool-cases (ltb p size)) [
      | inl e ↦ elim (Bool-cases (has_bit n w)) [
        | inl is ↦ inl (
          p,
          rw (e, is) refl,
          omega arith,
          ground arith,
          here ∙ is,
          λ j le lt. absurd (omega arith),
        )
        | inr is ↦ elim (find_bit_lem f rounds (suc n) (suc p) size w next) [
          | inl (q, ran, le, small, set, clear) ↦
              inl (q, rw (e, is) ran, omega arith, small, set, Clear-suc f p q (here ∙ is) clear)
          | inr (ran, clear) ↦
              let more : p < size = ground arith in
              let there : suc p + min rounds (size - suc p) ≡ p + min (suc rounds) (size - p) =
                omega arith in
              inr (
                rw (e, is) (ran ∙ ap (λ (t : ℕ). (false, t)) there),
                subst (Clear f p) there
                    (Clear-suc f p (suc p + min rounds (size - suc p)) (here ∙ is) clear),
              )
        ]
      ]
      | inr e ↦
          let done : size ≤ p = ground arith in
          inr (
            rw (e) (ap (λ (t : ℕ). (false, t)) {y = p + min (suc rounds) (size - p)} (omega arith)),
            λ j le lt. absurd (omega arith),
          )
    ]

get_elem?-in_range : (xs : List ℕ) (k : ℕ) → k < length xs → (x : ℕ) × (get_elem? xs k ≡ some x)
get_elem?-in_range [] k h = absurd (omega arith)
get_elem?-in_range (x ∷ xs) zero h = (x, refl)
get_elem?-in_range (x ∷ xs) (suc k) h = get_elem?-in_range xs k (omega arith)

-- `q` is the first index from `p` on that passes the test, or lies behind all.
abbrev pub NextSet : (ℕ → Bool) → ℕ → ℕ → ℕ → Type 0
NextSet f size p q =
    (p ≤ q) × ((j : ℕ) → p ≤ j → j < q → j < size → f j ≡ false) × (q < size → f q ≡ true)

-- No index from `p` on and before `r` passes the test, and `q` is the next from there.
NextSet-from :
    (f : ℕ → Bool) (size p r q : ℕ) → p ≤ r → Clear f p r → NextSet f size r q → NextSet f size p q
NextSet-from f size p r q le clear (le', none_before, set) = (
  omega arith,
  λ j a b c. elim (Bool-cases (ltb j r)) [
    | inl e ↦ clear j a (ground arith)
    | inr e ↦ none_before j (ground arith) b c
  ],
  set,
)

NextSet-behind : (f : ℕ → Bool) (size p : ℕ) → size ≤ p → NextSet f size p p
NextSet-behind f size p h =
    (omega arith, λ j a b c. absurd (omega arith), λ lt. absurd (omega arith))

find_words_stops : (p size : ℕ) (ws : List ℕ) → size ≤ p → find_words p size ws ≡ p
unfolding find_words
find_words_stops p size [] h = refl
find_words_stops p size (w ∷ ws) h = rw (behind) refl
  where
    behind : ltb p size ≡ false
    behind = ground arith

-- A search in the bits of a word goes on with `g` behind them.
module _ (f : ℕ → Bool) (size : ℕ) (g : ℕ → ℕ) (stops : (t : ℕ) → size ≤ t → g t ≡ t) where
  search_on :
      (rounds p : ℕ)
      → (p + rounds ≤ size → NextSet f size (p + rounds) (g (p + rounds)))
      → let there = p + min rounds (size - p) in NextSet f size there (g there)
  search_on rounds p h = elim (Bool-cases (ltb size (p + rounds))) [
    | inl e ↦
        let there = p + min rounds (size - p) in
        let behind : size ≤ there = ground arith in
        subst (NextSet f size there) (sym (stops there behind)) (NextSet-behind f size there behind)
    | inr e ↦
        let fits : p + rounds ≤ size = ground arith in
        subst (λ (t : ℕ). NextSet f size t (g t)) {x = p + rounds} {y = p + min rounds (size - p)}
          (omega arith) (h fits)
  ]

  abbrev outcome : Bool × ℕ → ℕ
  outcome r = if r.0 then r.1 else g r.1

  search_lem :
      (rounds n p w : ℕ)
      → Reads f rounds n p w
      → (p + rounds ≤ size → NextSet f size (p + rounds) (g (p + rounds)))
      → NextSet f size p (outcome (find_bit rounds n p size w))
  search_lem rounds n p w here h = elim (find_bit_lem f rounds n p size w here) [
    | inl (q, ran, le, small, set, clear) ↦
        subst (NextSet f size p) (ap outcome (sym ran)) (le, λ j a b c. clear j a b, λ lt. set)
    | inr (ran, clear) ↦
        let there = p + min rounds (size - p) in
        subst (NextSet f size p) (ap outcome (sym ran))
          (NextSet-from f size p there (g there) (omega arith) clear (search_on rounds p h))
  ]

find_words_lem :
    (f : ℕ → Bool) (p size : ℕ) (ws : List ℕ)
    → ReadsAll f p ws
    → size ≤ p + 14 * length ws
    → NextSet f size p (find_words p size ws)
unfolding find_words
find_words_lem f p size [] h le = NextSet-behind f size p (omega arith)
find_words_lem f p size (w ∷ ws) (here, h) le =
    let ih = find_words_lem f (p + 14) size ws h (omega arith) in
    elim (Bool-cases (ltb p size)) [
      | inl e ↦ elim (Bool-cases (w == 0)) [
        | inl is ↦
            let skips : find_words p size (w ∷ ws) ≡ find_words (p + 14) size ws =
              rw (e, is) refl in
            subst (NextSet f size p) (sym skips) (
              NextSet-from f size p (p + 14) (find_words (p + 14) size ws) (omega arith)
                (empty (ground arith)) ih)
        | inr is ↦
            let looks : find_words p size (w ∷ ws)
                ≡ outcome f size (λ t. find_words t size ws) (λ t. find_words_stops t size ws)
                    (find_bit 14 0 p size w) =
              rw (e, is) refl in
            subst (NextSet f size p) (sym looks) (
              search_lem f size (λ t. find_words t size ws) (λ t. find_words_stops t size ws) 14 0 p
                w here (λ _. ih))
      ]
      | inr e ↦
          let behind : size ≤ p = ground arith in
          subst (NextSet f size p) (sym (find_words_stops p size (w ∷ ws) behind))
            (NextSet-behind f size p behind)
    ]
  where
    empty : w ≡ 0 → Clear f p (p + 14)
    empty is j le lt =
        ap f {y = p + (j - p)} (omega arith)
        ∙ here (j - p) (omega arith)
        ∙ ap (has_bit (0 + (j - p))) is
        ∙ has_bit-zero (0 + (j - p))

module _ (b : Bitmap) (enough : b.size ≤ 14 * length b.words) where
  -- The search from the first bit of a word
  abbrev from_word : ℕ → ℕ
  from_word t = find_words t b.size (drop (t / 14) b.words)

  from_word_lem : (t : ℕ) → t % 14 ≡ 0 → t ≤ b.size → NextSet (set_in b) b.size t (from_word t)
  from_word_lem t aligned le =
      let i = t / 14 in
      let pre = take i b.words in
      let taken : length pre ≡ i = omega (arith, length-take i b.words) in
      find_words_lem (set_in b) t b.size (drop i b.words)
        (subst (λ (p : ℕ). ReadsAll (set_in b) p (drop i b.words)) {x = 14 * length pre}
          (omega arith) (set_in-ReadsAll b pre (drop i b.words) (sym (take-append-drop i b.words))))
        (omega (arith, length-drop i b.words))

  pub advance_lem :
      (p : ℕ) → p ≤ b.size → (q : ℕ) × (advance p b ≡ some q) × NextSet (set_in b) b.size p q
  unfolding advance
  advance_lem p le = elim (Bool-cases (p % 14 == 0)) [
    | inl e ↦ (from_word p, rw (e) refl, from_word_lem p (ground arith) le)
    | inr e ↦
        let inside : p / 14 < length b.words = ground arith in
        let (w, there) = get_elem?-in_range b.words (p / 14) inside in
        let rounds = 14 - p % 14 in
        let r = find_bit rounds (p % 14) p b.size w in
        (
          if r.0 then r.1 else from_word r.1,
          rw (e, there, ◌>>=◌) refl,
          search_lem (set_in b) b.size from_word
              (λ t. find_words_stops t b.size (drop (t / 14) b.words)) rounds (p % 14) p w
              (λ k lt.
                set_in-at b (p + k) w (ap (get_elem? b.words) {y = p / 14} (omega arith) ∙ there)
                ∙ ap (λ (t : ℕ). has_bit t w) {y = p % 14 + k} (omega arith))
              (λ fits. from_word_lem (p + rounds) (omega arith) fits),
        )
  ]
