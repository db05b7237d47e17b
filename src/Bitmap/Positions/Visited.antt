-- ===== src/Bitmap/Positions/Visited.antt =====
-- A loop with the iterator, `for(it = begin(); !it; it.next())`, and listPosAsc.
use helens.Prelude.{
  ℕ, zero, suc, ◌+◌, ◌-◌, ◌*◌, ◌^◌, ◌≤◌, ◌<◌, ◌≡◌, refl, sym, ap, ◌∙◌, Bool, Option, none, some,
  List, [], ◌∷◌, ◌++◌, arith, length, ltb, if◌then◌else◌, Bool-cases, inl, inr,
}
use helens.Prelude.Maybe.{◌>>=◌}
use helens.Bitmap.{Bitmap}
use helens.Bitmap.Positions.{advance, at_index, list_pos_asc}
use helens.Bitmap.Positions.Listed.{list_pos_asc_lem}
use helens.Bitmap.Positions.Passing.{
  passing, passing_at, passing-add, passing_none, passing_first, set_in,
}
use helens.Bitmap.Positions.Iterated.{NextSet, advance_lem}

-- What the loop visits, from `++m_pos` on.
abbrev pub visited : ℕ → ℕ → Bitmap → Option (List ℕ)
visited zero m_pos b = none
visited (suc fuel) m_pos b = advance m_pos b >>= λ q.
    let rest = visited fuel (suc q) b in
    if at_index q b then rest >>= (λ ps. some (q ∷ ps)) else some []

module _ (f : ℕ → Bool) (size p q : ℕ) (next : NextSet f size p q) where
  passing_up_to : q ≤ size → passing f (q - p) p ≡ []
  passing_up_to le =
      passing_none f (q - p) p
        (λ k lt. next.1 (p + k) (omega arith) (omega arith) (omega (arith, next.0)))

  passing-NextSet : q < size → passing f (size - p) p ≡ q ∷ passing f (size - suc q) (suc q)
  passing-NextSet lt =
      let le = next.0 in
      passing_at f {n = q - p + suc (size - suc q)} {q = p} (omega arith) refl
      ∙ passing-add f (q - p) (suc (size - suc q)) p
      ∙ ap (λ l. l ++ passing f (suc (size - suc q)) (p + (q - p))) (passing_up_to (omega arith))
      ∙ passing_at f {m = suc (size - suc q)} {p = p + (q - p)} {q = q} refl (omega arith)
      ∙ passing_first f (size - suc q) q (next.2 lt)

  passing-NextSet_none : size ≤ q → passing f (size - p) p ≡ []
  passing-NextSet_none le =
      passing_none f (size - p) p (λ k lt. next.1 (p + k) (omega arith) (omega arith) (omega arith))

visited_lem :
    (b : Bitmap) (fuel p : ℕ)
    → b.size ≤ 14 * length b.words
    → p ≤ b.size
    → b.size - p < fuel
    → visited fuel p b ≡ some (passing (set_in b) (b.size - p) p)
visited_lem b zero p enough le more = absurd (omega arith)
visited_lem b (suc fuel) p enough le more =
    let (q, ran, next) = advance_lem b enough p le in
    let not_before = next.0 in
    elim (Bool-cases (ltb q b.size)) [
      | inl e ↦
          let small : q < b.size = ground arith in
          rw (visited, ran, ◌>>=◌, e, visited_lem b fuel (suc q) enough (omega arith) (omega arith))
            (ap some (sym (passing-NextSet (set_in b) b.size p q next small)))
      | inr e ↦
          rw (visited, ran, ◌>>=◌, e)
            (ap some (sym (passing-NextSet_none (set_in b) b.size p q next (ground arith))))
    ]

pub positions_lem :
    (b : Bitmap)
    → b.size ≤ 14 * length b.words
    → b.size ≤ 2 ^ 31 - 14
    → (list_pos_asc b ≡ some (passing (set_in b) b.size 0))
      × (visited (b.size + 1) 0 b ≡ some (passing (set_in b) b.size 0))
positions_lem b enough fits = (
  list_pos_asc_lem b enough,
  ap (λ (t : ℕ). visited t 0 b) {y = suc b.size} (omega arith)
      ∙ visited_lem b (suc b.size) 0 enough (omega arith) (omega arith)
      ∙ ap some (passing_at (set_in b) {n = b.size} {q = 0} (omega arith) refl),
)
