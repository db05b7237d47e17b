-- ===== src/Bitmap/Positions/Tests.antt =====
-- The indices of a bitmap at concrete inputs.
use helens.Prelude.{◌≡◌, refl, false, some, [], ◌∷◌}
use helens.Bitmap.{Bitmap}
use helens.Bitmap.Positions.{
  word_positions, pos_after, tail_positions, group_positions, group_after, list_groups,
  list_pos_asc, find_bit, find_words, advance,
}
use helens.Bitmap.Positions.Visited.{visited}

-- Five words, of which the last one has a bit behind the size
abbrev sparse : Bitmap
sparse = record { compress = false; size = 60; words = 4 ∷ 0 ∷ 8193 ∷ 0 ∷ 24 ∷ [] }

list_pos_asc-sparse : list_pos_asc sparse ≡ some (2 ∷ 28 ∷ 41 ∷ 59 ∷ [])
unfolding list_pos_asc list_groups group_positions group_after tail_positions word_positions
    pos_after
list_pos_asc-sparse = refl

visited-sparse : visited 61 0 sparse ≡ some (2 ∷ 28 ∷ 41 ∷ 59 ∷ [])
unfolding advance find_words find_bit
visited-sparse = refl
