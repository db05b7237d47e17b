-- ===== src/Bitmap/Foreach/Tests.antt =====
-- foreach at concrete inputs.
use helens.Prelude.{ℕ, ◌≡◌, Bool, false, some, [], ◌∷◌, arith, ltb}
use helens.Bitmap.{Bitmap, get}
use helens.Bitmap.Positions.{list_pos_asc}
use helens.Bitmap.Positions.Visited.{visited}
use helens.Bitmap.Foreach.{foreach}
use helens.Bitmap.Foreach.Called.{indices_lem}

-- Five words, of which the last one has a bit behind the size
abbrev sparse : Bitmap
sparse = record { compress = false; size = 60; words = 4 ∷ 0 ∷ 8193 ∷ 0 ∷ 24 ∷ [] }

-- It refuses what is not below 30.
abbrev below_thirty : ℕ → Bool
below_thirty j = ltb j 30

indices_lem_example :
    (list_pos_asc sparse ≡ some (2 ∷ 28 ∷ 41 ∷ 59 ∷ []))
    × (visited 61 0 sparse ≡ some (2 ∷ 28 ∷ 41 ∷ 59 ∷ []))
    × (foreach below_thirty sparse ≡ some (2 ∷ 28 ∷ 41 ∷ []))
unfolding get
indices_lem_example = indices_lem sparse below_thirty (omega arith) (omega arith)
