-- ===== src/Bitmap/Foreach/Called.antt =====
-- foreach, and what listPosAsc lists.
use helens.Prelude.{
  ℕ, zero, suc, ◌+◌, ◌*◌, ◌/◌, ◌≡◌, refl, sym, ap, ◌∙◌, Bool, true, false, ◌&&◌, Option, some, List,
  [], ◌∷◌, ◌++◌, append_assoc, length, ◌-◌, ◌^◌, ◌≤◌, ltb, ◌==◌, if◌then◌else◌, Bool-cases, inl,
  inr,
}
use helens.Prelude.Maybe.{◌>>=◌, >>=-eq-some}
use helens.Bitmap.{Bitmap}
use helens.Bitmap.Laws.{has_bit}
use helens.Bitmap.Positions.{
  word_positions, pos_after, tail_positions, group_positions, group_after, list_groups,
  list_pos_asc,
}
use helens.Bitmap.Positions.Passing.{passing, set_in}
use helens.Bitmap.Positions.Visited.{visited, positions_lem}
use helens.Bitmap.Foreach.{Calls, then_on, each_bit, each_tail, each_word, each_group, foreach}

module _ (cb : ℕ → Bool) where
  -- What a call-back gets of a list, and whether it has said true to all.
  abbrev calls_of : List ℕ → Calls
  calls_of [] = ([], true)
  calls_of (x ∷ xs) = then_on (x ∷ [], cb x) (calls_of xs)

  -- A list up to the first item that the call-back refuses, that item included
  abbrev pub up_to : List ℕ → List ℕ
  up_to [] = []
  up_to (x ∷ xs) = if cb x then x ∷ up_to xs else x ∷ []

  calls_of-up_to : (xs : List ℕ) → (calls_of xs).0 ≡ up_to xs
  calls_of-up_to [] = refl
  calls_of-up_to (x ∷ xs) = elim (Bool-cases (cb x)) [
    | inl e ↦ rw (e) (ap (◌∷◌ x) (calls_of-up_to xs))
    | inr e ↦ rw (e) refl
  ]

  then_on_assoc : (a b c : Calls) → then_on (then_on a b) c ≡ then_on a (then_on b c)
  then_on_assoc (x, true) (y, true) (z, p) = ap (λ l. (l, p)) (append_assoc x y z)
  then_on_assoc (x, true) (y, false) c = refl
  then_on_assoc (x, false) b c = refl

  calls_of-append : (xs ys : List ℕ) → calls_of (xs ++ ys) ≡ then_on (calls_of xs) (calls_of ys)
  calls_of-append [] ys = refl
  calls_of-append (x ∷ xs) ys =
      ap (then_on (x ∷ [], cb x)) (calls_of-append xs ys)
      ∙ sym (then_on_assoc (x ∷ [], cb x) (calls_of xs) (calls_of ys))

  if-calls_of :
      (p : Bool) (xs ys : List ℕ)
      → (if p then calls_of xs else calls_of ys) ≡ calls_of (if p then xs else ys)
  if-calls_of true xs ys = refl
  if-calls_of false xs ys = refl

  each_bit_lem :
      (rounds n p size w : ℕ)
      → each_bit cb rounds n p size w ≡ calls_of (word_positions rounds n p size w)
  unfolding each_bit word_positions
  each_bit_lem zero n p size w = refl
  each_bit_lem (suc rounds) n p size w = rw (each_bit_lem rounds (suc n) (suc p) size w) (
      ap (λ c. if ltb p size then c else ([], true))
        (if-calls_of (has_bit n w) (p ∷ word_positions rounds (suc n) (suc p) size w)
          (word_positions rounds (suc n) (suc p) size w))
      ∙ if-calls_of (ltb p size)
          (if has_bit n w
            then p ∷ word_positions rounds (suc n) (suc p) size w
            else word_positions rounds (suc n) (suc p) size w)
          [])

  each_tail_lem :
      (p size : ℕ) (ws : List ℕ) → each_tail cb p size ws ≡ calls_of (tail_positions p size ws)
  unfolding each_tail tail_positions
  each_tail_lem p size [] = refl
  each_tail_lem p size (w ∷ ws) =
      let after = pos_after 14 p size in
      let pushed = word_positions 14 0 p size w in
      rw (each_tail_lem (p + 14) size ws, each_bit_lem 14 0 p size w, each_tail_lem after size ws)
        (ap (λ c. if w == 0 then calls_of (tail_positions (p + 14) size ws) else c)
            (sym (calls_of-append pushed (tail_positions after size ws)))
          ∙ if-calls_of (w == 0) (tail_positions (p + 14) size ws)
              (pushed ++ tail_positions after size ws))

  each_word_lem :
      (p size : ℕ) (ws : List ℕ) → each_word cb p size ws ≡ calls_of (group_positions p size ws)
  unfolding each_word group_positions
  each_word_lem p size [] = refl
  each_word_lem p size (w ∷ ws) =
      let after = pos_after 14 p size in
      rw (each_bit_lem 14 0 p size w, each_word_lem after size ws)
        (sym (calls_of-append (word_positions 14 0 p size w) (group_positions after size ws)))

  run_or_stop :
      (c : Calls) (l : List ℕ)
      → (if c.1 then some (then_on c (calls_of l)) else some c) ≡ some (then_on c (calls_of l))
  run_or_stop (called, true) l = refl
  run_or_stop (called, false) l = refl

  abbrev map_calls : Option (List ℕ) → Option Calls
  map_calls m = m >>= (λ l. some (calls_of l))

  -- A group behind which the others are listed, or an access outside comes.
  behind_group :
      (l m : List ℕ)
      → (if (calls_of l).1
          then some (calls_of m) >>= (λ r. some (then_on (calls_of l) r))
          else some (calls_of l))
        ≡ some (calls_of (l ++ m))
  behind_group l m = run_or_stop (calls_of l) m ∙ ap some (sym (calls_of-append l m))

  each_group_lem :
      (rounds p size : ℕ) (ws listed : List ℕ)
      → list_groups rounds p size ws ≡ some listed
      → each_group cb rounds p size ws ≡ some (calls_of listed)
  unfolding each_group list_groups
  each_group_lem zero p size ws listed e = ap some (each_tail_lem p size ws) ∙ ap map_calls e
  each_group_lem (suc rounds) p size (a ∷ b ∷ c ∷ d ∷ ws) listed e =
      elim (Bool-cases (a == 0 && b == 0 && c == 0 && d == 0)) [
        | inl is ↦
            (let skips : list_groups (suc rounds) p size (a ∷ b ∷ c ∷ d ∷ ws)
                  ≡ list_groups rounds (p + 56) size ws =
                rw (is) refl in
              rw (is) (each_group_lem rounds (p + 56) size ws listed (sym skips ∙ e)))
        | inr is ↦
            let group = a ∷ b ∷ c ∷ d ∷ [] in
            let after = group_after p size group in
            let pushed = group_positions p size group in
            let pushes : list_groups (suc rounds) p size (a ∷ b ∷ c ∷ d ∷ ws)
                ≡ (list_groups rounds after size ws >>= λ ps. some (pushed ++ ps)) =
              rw (is) refl in
            let (ps, ran, is_listed) =
              >>=-eq-some (list_groups rounds after size ws) (λ ps. some (pushed ++ ps))
                (sym pushes ∙ e) in
            rw (is, each_word_lem p size group, each_group_lem rounds after size ws ps ran)
              (behind_group pushed ps ∙ ap map_calls is_listed)
      ]
  each_group_lem (suc rounds) p size [] listed e = cc
  each_group_lem (suc rounds) p size (a ∷ []) listed e = cc
  each_group_lem (suc rounds) p size (a ∷ b ∷ []) listed e = cc
  each_group_lem (suc rounds) p size (a ∷ b ∷ c ∷ []) listed e = cc

  foreach_lem :
      (b : Bitmap) (listed : List ℕ)
      → list_pos_asc b ≡ some listed
      → foreach cb b ≡ some (up_to listed)
  unfolding foreach list_pos_asc
  foreach_lem b listed e =
      rw (each_group_lem (b.size / 56) 0 b.size b.words listed e, ◌>>=◌)
        (ap some (calls_of-up_to listed))

-- Of a bitmap with words for its size, which is at most 2^31 - 14: listPosAsc lists the indices below
-- the size at which get finds 1, in order; a loop from begin() on until `!` is false visits the same
-- indices and ends after at most m_size + 1 steps; and foreach calls the call-back with the same
-- indices in order, up to the first for which it returns false.
pub indices_lem :
    (b : Bitmap) (cb : ℕ → Bool)
    → b.size ≤ 14 * length b.words
    → b.size ≤ 2 ^ 31 - 14
    → (list_pos_asc b ≡ some (passing (set_in b) b.size 0))
      × (visited (b.size + 1) 0 b ≡ some (passing (set_in b) b.size 0))
      × (foreach cb b ≡ some (up_to cb (passing (set_in b) b.size 0)))
indices_lem b cb enough fits =
    let (listed, ran) = positions_lem b enough fits in
    (listed, ran, foreach_lem cb b (passing (set_in b) b.size 0) listed)
