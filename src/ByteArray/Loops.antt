-- ===== src/ByteArray/Loops.antt =====
-- The loops over the chain of blocks, against one flat array.
use helens.Prelude.{
  ℕ, zero, suc, ◌+◌, ◌-◌, ◌*◌, ◌≤◌, ◌<◌, ◌≡◌, refl, sym, ap, ◌∙◌, inl, inr, some, List, [], ◌∷◌,
  ◌++◌, arith, length, flatten, length-append, append_assoc, Bool-cases, false, leb, ◌==◌,
}
use helens.Prelude.Slices.{slice, slice-append_both, slice-append_left}
use helens.ByteArray.{Node, Chain, gather, step_past}
use helens.ByteArray.Valid.{Uniform}

-- `m_cur` is the block of the position `p`, or null if `p` is the end of the chain.
abbrev pub PointsAt : ℕ → Chain → ℕ → Type 0
PointsAt base c p = (length c.0 * base ≤ p) × (p < length c.0 * base + base)

pub length-snoc :
    (base : ℕ) (ns : List Node) (n : Node) → length (ns ++ n ∷ []) * base ≡ length ns * base + base
length-snoc base ns n = rw length-append (omega arith)

pub append-step_past :
    (before : List Node) (n : Node) (rest : List Node) (e : ℕ)
    → (step_past before n rest e).0 ++ (step_past before n rest e).1 ≡ before ++ n ∷ rest
append-step_past before n rest e = elim (Bool-cases (length n == e)) [
  | inl at_end ↦ rw at_end (append_assoc before (n ∷ []) rest)
  | inr inside ↦ rw inside
]

pub step_past-PointsAt :
    (base : ℕ) (before : List Node) (n : Node) (rest : List Node) (e : ℕ)
    → length n ≡ base
    → 0 < base
    → e ≤ base
    → PointsAt base (step_past before n rest e) (length before * base + e)
step_past-PointsAt base before n rest e u pos le = elim (Bool-cases (length n == e)) [
  | inl at_end ↦ rw at_end (ground (arith, length-snoc base before n))
  | inr inside ↦ rw inside (ground arith)
]

pub not_leb : (a b : ℕ) → leb a b ≡ false → b < a
not_leb a b h = ground arith

-- The room that a block has from `npos` on does not hold `n` bytes, so they go on in the next one.
slice-next :
    (b ms : List ℕ) (npos n : ℕ)
    → npos ≤ length b
    → length b ≤ npos + n
    → slice (b ++ ms) npos n ≡ slice b npos (length b - npos) ++ slice ms 0 (n - (length b - npos))
slice-next b ms npos n h k =
    ap (slice (b ++ ms) npos) total
    ∙ slice-append_both b ms npos (length b - npos) (n - (length b - npos)) (omega arith)
  where
    total : n ≡ length b - npos + (n - (length b - npos))
    total = omega arith

abbrev Gathered : ℕ → List Node → ℕ → ℕ → List Node → Type 0
Gathered base before npos n here =
    (c : Chain) × (gather before npos n here ≡ some (slice (flatten here) npos n, c))
    × (c.0 ++ c.1 ≡ before ++ here)
    × PointsAt base c (length before * base + npos + n)

gather-next :
    (base : ℕ) (before : List Node) (npos n : ℕ) (b : Node) (rest : List Node)
    → length b ≡ base
    → npos < base
    → leb (suc n) (length b - npos) ≡ false
    → Gathered base (before ++ b ∷ []) 0 (suc n - (length b - npos)) rest
    → Gathered base before npos (suc n) (b ∷ rest)
unfolding gather flatten
gather-next base before npos n b rest u h over (c, e, same, pts) = (
  c,
  rw (over, e)
      (ap (λ (t : List ℕ). some (t, c))
        (sym (slice-next b (flatten rest) npos (suc n) (omega arith) (ground arith)))),
  same ∙ append_assoc before (b ∷ []) rest,
  omega (arith, length-snoc base before b, not_leb _ _ over),
)

-- The loop of `read` takes a range out of the flat memory and changes no block.
pub gather_lem :
    (base : ℕ) (before : List Node) (npos n : ℕ) (here : List Node)
    → Uniform base here
    → npos < base
    → npos + n ≤ length here * base
    → Gathered base before npos n here
unfolding gather flatten
gather_lem base before npos zero here u h k = ((before, here), refl, refl, omega arith)
gather_lem base before npos (suc n) [] u h k = absurd (omega arith)
gather_lem base before npos (suc n) (b ∷ rest) u h k =
    elim (Bool-cases (leb (suc n) (length b - npos))) [
      | inl fits ↦ (
        step_past before b rest (npos + suc n),
        rw fits (
            ap (λ (t : List ℕ). some (t, step_past before b rest (npos + suc n)))
              (sym (slice-append_left b (flatten rest) npos (suc n) (ground arith)))),
        append-step_past before b rest _,
        omega (
          arith,
          step_past-PointsAt base before b rest (npos + suc n) u.0 (omega arith) (ground arith),
        ),
      )
      | inr over ↦ gather-next base before npos n b rest u.0 h over (
          gather_lem base (before ++ b ∷ []) 0 (suc n - (length b - npos)) rest u.1 (omega arith)
            (ground arith))
    ]
