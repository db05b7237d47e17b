-- ===== src/Bitmap/Positions/Listed.antt =====
-- listPosAsc, and the indices at which get finds 1.
use helens.Prelude.{
  ℕ, zero, suc, ◌+◌, ◌-◌, ◌*◌, ◌/◌, ◌≤◌, ◌<◌, min, ◌≡◌, refl, sym, ap, ◌∙◌, Bool, true, false, ◌&&◌,
  some, List, [], ◌∷◌, ◌++◌, arith, length, replicate, subst, ltb, ◌==◌, if◌then◌else◌, Bool-cases,
  inl, inr,
}
use helens.Bitmap.{Bitmap}
use helens.Bitmap.Positions.{
  word_positions, pos_after, tail_positions, group_positions, group_after, list_groups,
  list_pos_asc,
}
use helens.Bitmap.Positions.Passing.{
  passing, passing_at, passing-add, Reads, Reads-suc, zero_word, ReadsAll, zero_words, set_in,
  set_in-ReadsAll,
}

pos_after_lem : (rounds p size : ℕ) → pos_after rounds p size ≡ p + min rounds (size - p)
unfolding pos_after
pos_after_lem zero p size = omega arith
pos_after_lem (suc rounds) p size = ground (arith, pos_after_lem rounds (suc p) size)

word_positions_lem :
    (f : ℕ → Bool) (rounds n p size w : ℕ)
    → Reads f rounds n p w
    → word_positions rounds n p size w ≡ passing f (min rounds (size - p)) p
unfolding word_positions
word_positions_lem f zero n p size w h = passing_at f {m = 0} (omega arith) refl
word_positions_lem f (suc rounds) n p size w h =
    let (here, next) = Reads-suc f rounds n p w h in
    let ih = word_positions_lem f rounds (suc n) (suc p) size w next in
    elim (Bool-cases (ltb p size)) [
      | inl e ↦
          let more : p < size = ground arith in
          let length_lem : min (suc rounds) (size - p) ≡ suc (min rounds (size - suc p)) =
            omega arith in
          rw (e, ih, sym here) (sym (passing_at f length_lem refl))
      | inr e ↦
          let done : size ≤ p = ground arith in rw (e) (passing_at f {m = 0} (omega arith) refl)
    ]

skip_or_push :
    (w : ℕ) (p q r : List ℕ) → (w ≡ 0 → p ≡ []) → q ≡ r → (if w == 0 then q else p ++ r) ≡ p ++ r
skip_or_push w p q r h e = elim (Bool-cases (w == 0)) [
  | inl is ↦ rw (is, h (ground arith)) e
  | inr is ↦ rw (is) refl
]

word_stops : (rounds n p size w : ℕ) → size ≤ p → word_positions rounds n p size w ≡ []
unfolding word_positions
word_stops zero n p size w h = refl
word_stops (suc rounds) n p size w h = rw (behind) refl
  where
    behind : ltb p size ≡ false
    behind = ground arith

tail_stops : (p size : ℕ) (ws : List ℕ) → size ≤ p → tail_positions p size ws ≡ []
unfolding tail_positions
tail_stops p size [] h = refl
tail_stops p size (w ∷ ws) h =
    let next : tail_positions (pos_after 14 p size) size ws ≡ [] =
      ap (λ (t : ℕ). tail_positions t size ws) {y = p} (omega (arith, pos_after_lem 14 p size))
      ∙ tail_stops p size ws h in
    rw (word_stops 14 0 p size w h, next)
      (skip_or_push w [] (tail_positions (p + 14) size ws) [] (λ e. refl)
        (tail_stops (p + 14) size ws (omega arith)))

tail_positions_lem :
    (f : ℕ → Bool) (p size : ℕ) (ws : List ℕ)
    → ReadsAll f p ws
    → size ≤ p + 14 * length ws
    → tail_positions p size ws ≡ passing f (size - p) p
unfolding tail_positions
tail_positions_lem f p size [] h le = passing_at f {m = 0} (omega arith) refl
tail_positions_lem f p size (w ∷ ws) (here, h) le =
    let m = min 14 (size - p) in
    let after = passing f (size - p - m) (p + m) in
    let behind : tail_positions (p + 14) size ws ≡ after = elim (Bool-cases (ltb size (p + 14))) [
      | inl e ↦
          tail_stops (p + 14) size ws (ground arith)
          ∙ passing_at f {m = 0} {n = size - p - m} {p = p + m} (ground arith) refl
      | inr e ↦
          tail_positions_lem f (p + 14) size ws h (omega arith)
          ∙ passing_at f {n = size - p - m} {q = p + m} (ground arith) (ground arith)
    ] in
    let next : tail_positions (pos_after 14 p size) size ws ≡ after =
      elim (Bool-cases (ltb size (p + 14))) [
        | inl e ↦
            tail_stops (pos_after 14 p size) size ws (ground (arith, pos_after_lem 14 p size))
            ∙ passing_at f {m = 0} {n = size - p - m} {p = p + m} (ground arith) refl
        | inr e ↦
            ap (λ (t : ℕ). tail_positions t size ws) {y = p + 14}
              (ground (arith, pos_after_lem 14 p size))
            ∙ behind
      ] in
    rw (word_positions_lem f 14 0 p size w here, next)
      (skip_or_push w (passing f m p) (tail_positions (p + 14) size ws) after
          (λ e. zero_word f m p w here e (omega arith)) behind
        ∙ sym (passing-add f m (size - p - m) p)
        ∙ passing_at f {n = size - p} (omega arith) refl)

-- A group that lies within the size
group_positions_lem :
    (f : ℕ → Bool) (p size : ℕ) (ws : List ℕ)
    → ReadsAll f p ws
    → p + 14 * length ws ≤ size
    → (group_positions p size ws ≡ passing f (14 * length ws) p)
      × (group_after p size ws ≡ p + 14 * length ws)
unfolding group_positions group_after
group_positions_lem f p size [] h le = (refl, omega arith)
group_positions_lem f p size (w ∷ ws) (here, h) le =
    let (listed, after) = group_positions_lem f (p + 14) size ws h (omega arith) in
    let moved : pos_after 14 p size ≡ p + 14 = omega (arith, pos_after_lem 14 p size) in
    (
      rw
          (
            word_positions_lem f 14 0 p size w here
                ∙ passing_at f {n = 14} {q = p} (omega arith) refl,
            ap (λ (t : ℕ). group_positions t size ws) moved ∙ listed,
          )
          (sym (passing-add f 14 (14 * length ws) p)
            ∙ passing_at f {n = 14 * length (w ∷ ws)} {q = p} (omega arith) refl),
      ap (λ (t : ℕ). group_after t size ws) moved ∙ after ∙ omega arith,
    )

all_zero :
    (a b c d : ℕ)
    → (a == 0 && b == 0 && c == 0 && d == 0) ≡ true
    → a ∷ b ∷ c ∷ d ∷ [] ≡ replicate 4 0
all_zero a b c d e =
    let is_a : a ≡ 0 = ground arith in
    let is_b : b ≡ 0 = ground arith in
    let is_c : c ≡ 0 = ground arith in
    let is_d : d ≡ 0 = ground arith in rw (is_a, is_b, is_c, is_d) refl

-- Four words at a time, as many groups as the size has
list_groups_lem :
    (f : ℕ → Bool) (rounds p size : ℕ) (ws : List ℕ)
    → ReadsAll f p ws
    → p + 56 * rounds ≤ size
    → size ≤ p + 14 * length ws
    → list_groups rounds p size ws ≡ some (passing f (size - p) p)
unfolding list_groups
list_groups_lem f zero p size ws h fits le = ap some (tail_positions_lem f p size ws h le)
list_groups_lem f (suc rounds) p size (a ∷ b ∷ c ∷ d ∷ ws) (h0, (h1, (h2, (h3, h)))) fits le =
    let group = a ∷ b ∷ c ∷ d ∷ [] in
    let (listed, after) =
      group_positions_lem f p size group (h0, (h1, (h2, (h3, tt)))) (omega arith) in
    let ih =
      list_groups_lem f rounds (p + 56) size ws (subst (λ (t : ℕ). ReadsAll f t ws) (omega arith) h)
        (omega arith) (omega arith) in
    let all : some (passing f 56 p ++ passing f (size - (p + 56)) (p + 56))
        ≡ some (passing f (size - p) p) =
      ap some (
        sym (passing-add f 56 (size - (p + 56)) p)
        ∙ passing_at f {n = size - p} {q = p} (omega arith) refl) in
    elim (Bool-cases (a == 0 && b == 0 && c == 0 && d == 0)) [
      | inl e ↦
          (let empty : passing f 56 p ≡ [] =
              zero_words f 4 p
                (subst (ReadsAll f p) (all_zero a b c d e) (h0, (h1, (h2, (h3, tt))))) in
            rw (e)
              (ih ∙ ap (λ l. some (l ++ passing f (size - (p + 56)) (p + 56))) (sym empty) ∙ all))
      | inr e ↦ rw (e, ap (λ (t : ℕ). list_groups rounds t size ws) after ∙ ih, listed) all
    ]
list_groups_lem f (suc rounds) p size [] h fits le = absurd (omega arith)
list_groups_lem f (suc rounds) p size (a ∷ []) h fits le = absurd (omega arith)
list_groups_lem f (suc rounds) p size (a ∷ b ∷ []) h fits le = absurd (omega arith)
list_groups_lem f (suc rounds) p size (a ∷ b ∷ c ∷ []) h fits le = absurd (omega arith)

pub list_pos_asc_lem :
    (b : Bitmap)
    → b.size ≤ 14 * length b.words
    → list_pos_asc b ≡ some (passing (set_in b) b.size 0)
unfolding list_pos_asc
list_pos_asc_lem b enough =
    list_groups_lem (set_in b) (b.size / 56) 0 b.size b.words (set_in-ReadsAll b [] b.words refl)
      (omega arith) (omega arith)
    ∙ ap some (passing_at (set_in b) {m = b.size - 0} {n = b.size} {p = 0} (omega arith) refl)
