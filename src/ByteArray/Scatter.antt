-- ===== src/ByteArray/Scatter.antt =====
-- The loops of `write` and of `setPosition`, against one flat array.
use helens.Prelude.{
  ℕ, zero, suc, ◌+◌, ◌-◌, ◌*◌, ◌≤◌, ◌<◌, ◌≡◌, refl, sym, ap, ◌∙◌, inl, inr, true, false, some, List,
  [], ◌∷◌, ◌++◌, arith, length, take, drop, flatten, length-append, length-drop, append_assoc,
  append-nil, Bool-cases, leb, leb→le, ltb, ltb→lt,
}
use helens.Prelude.Slices.{
  overwrite, overwrite-append_left, overwrite-append_both, overwrite-nil, length-overwrite,
}
use helens.ByteArray.{Node, Chain, scatter, seek, step_past}
use helens.ByteArray.Loops.{PointsAt, length-snoc, append-step_past, step_past-PointsAt, not_leb}
use helens.ByteArray.Valid.{Uniform, Uniform-append, flatten-append}

pub record Scattered (base : ℕ) (before : List Node) (npos : ℕ) (buf : List ℕ) (here : List Node)
    (c : Chain) : Type 0 where
  pub runs : scatter before npos buf here ≡ some c
  pub written : flatten (c.0 ++ c.1) ≡ flatten before ++ overwrite (flatten here) npos buf
  pub uniform : Uniform base (c.0 ++ c.1)
  pub blocks : length (c.0 ++ c.1) ≡ length (before ++ here)
  pub points : PointsAt base c (length before * base + npos + length buf)

module _ (base : ℕ) (before : List Node) (npos : ℕ) (b : ℕ) (bs : List ℕ) (n : Node)
    (rest : List Node) (size_n : length n ≡ base) (inside : npos < base) (ub : Uniform base before)
    (ur : Uniform base rest) where
  scatter-fits :
      leb (length (b ∷ bs)) (length n - npos) ≡ true
      → Scattered base before npos
          (b ∷ bs)
          (n ∷ rest)
          (step_past before (overwrite n npos (b ∷ bs)) rest (npos + length (b ∷ bs)))
  unfolding scatter flatten
  scatter-fits fits = record {
    runs = rw fits;
    written =
        ap flatten (append-step_past before written_n rest end)
        ∙ flatten-append before (written_n ∷ rest)
        ∙ ap (◌++◌ (flatten before))
            (sym (overwrite-append_left n (flatten rest) npos (b ∷ bs) (omega (arith, fit))));
    uniform =
        rw (append-step_past before written_n rest end)
          (Uniform-append base before (written_n ∷ rest) ub (same_length, ur));
    blocks =
        ap length (append-step_past before written_n rest end)
        ∙ omega (arith, length-append before (written_n ∷ rest), length-append before (n ∷ rest));
    points = omega (
      arith,
      fit,
      step_past-PointsAt base before written_n rest end same_length (omega arith)
          (omega (arith, fit)),
    );
  }
    where
      written_n : Node
      written_n = overwrite n npos (b ∷ bs)

      end : ℕ
      end = npos + length (b ∷ bs)

      same_length : length written_n ≡ base
      same_length = length-overwrite n npos (b ∷ bs) ∙ size_n

      fit : length (b ∷ bs) ≤ length n - npos
      fit = leb→le _ _ fits

  scatter-next :
      leb (length (b ∷ bs)) (length n - npos) ≡ false
      → {c : Chain}
      → Scattered base
          (before ++ overwrite n npos (take (length n - npos) (b ∷ bs)) ∷ [])
          0
          (drop (length n - npos) (b ∷ bs))
          rest
          c
      → Scattered base before npos (b ∷ bs) (n ∷ rest) c
  unfolding scatter flatten
  scatter-next over s = record {
    runs = rw over s.runs;
    written =
        s.written
        ∙ simp (flatten-append, append-nil, append_assoc)
            (ap (◌++◌ (flatten before)) (
              sym (
                overwrite-append_both n (flatten rest) npos ncap (b ∷ bs) (omega arith)
                  (omega (arith, left_over)))));
    uniform = s.uniform;
    blocks = omega (arith, s.blocks, length-append {0});
    points = omega (
      arith,
      s.points,
      left_over,
      length-snoc base before (overwrite n npos (take ncap (b ∷ bs))),
      length-drop ncap (b ∷ bs),
    );
  }
    where
      ncap : ℕ
      ncap = length n - npos

      left_over : ncap < length (b ∷ bs)
      left_over = not_leb _ _ over

-- The loop of `write` overwrites a range of the flat memory, and the blocks keep their sizes.
pub scatter_lem :
    (base : ℕ) (before : List Node) (npos : ℕ) (buf : List ℕ) (here : List Node)
    → Uniform base before
    → Uniform base here
    → npos < base
    → npos + length buf ≤ length here * base
    → (c : Chain) × Scattered base before npos buf here c
unfolding scatter
scatter_lem base before npos [] here ub u h k = (
  (before, here),
  record {
    runs = refl;
    written = flatten-append before here ∙ ap (◌++◌ (flatten before)) (sym (overwrite-nil _ _));
    uniform = Uniform-append base before here ub u;
    blocks = refl;
    points = omega arith;
  },
)
scatter_lem base before npos (b ∷ bs) [] ub u h k = absurd (omega arith)
scatter_lem base before npos (b ∷ bs) (n ∷ rest) ub u h k =
    elim (Bool-cases (leb (length (b ∷ bs)) (length n - npos))) [
      | inl fits ↦ (_, scatter-fits base before npos b bs n rest u.0 h ub u.1 fits)
      | inr over ↦
          let (c, s) =
            scatter_lem base (before ++ overwrite n npos (take (length n - npos) (b ∷ bs)) ∷ []) 0
              (drop (length n - npos) (b ∷ bs)) rest
              (Uniform-append base before (overwrite n npos (take (length n - npos) (b ∷ bs)) ∷ [])
                ub (length-overwrite n npos _ ∙ u.0, tt))
              u.1 (omega arith)
              (omega (arith, length-drop (length n - npos) (b ∷ bs), not_leb _ _ over)) in
          (c, scatter-next base before npos b bs n rest u.0 h ub u.1 over s)
    ]

positive_factor : (x base w : ℕ) → 0 < w → w ≤ x * base → 0 < x
positive_factor zero base w h k = absurd (omega arith)
positive_factor (suc x) base w h k = omega arith

-- The loop of `setPosition` stops in the block of the position.
pub seek_lem :
    (base : ℕ) (before : List Node) (v : ℕ) (here : List Node)
    → 0 < base
    → 0 < length here
    → Uniform base here
    → v ≤ length here * base
    → (c : Chain) × (seek before v here ≡ some c)
      × (c.0 ++ c.1 ≡ before ++ here)
      × PointsAt base c (length before * base + v)
unfolding seek
seek_lem base before v [] pos l u k = absurd (omega arith)
seek_lem base before v (n ∷ rest) pos l u k = elim (Bool-cases (ltb (length n) v)) [
  | inl over ↦
      let beyond = ltb→lt _ _ over in
      let (c, e, same, pts) =
        seek_lem base (before ++ n ∷ []) (v - length n) rest pos
          (positive_factor (length rest) base (v - length n) (omega arith) (omega arith)) u.1
          (omega arith) in
      (
        c,
        rw over e,
        same ∙ append_assoc before (n ∷ []) rest,
        omega (arith, pts, length-snoc base before n),
      )
  | inr inside ↦ (
    step_past before n rest v,
    rw inside,
    append-step_past before n rest v,
    step_past-PointsAt base before n rest v u.0 pos (ground arith),
  )
]
