-- ===== src/Bitmap/Foreach.antt =====
-- Helens/ds/bitmap.cc: foreach, which calls a call-back with the indices of a bitmap that is not
-- compressed until the call-back returns false. A loop gives the indices that the call-back got, and
-- whether it goes on. The positions stay in 32 bits where the size is at most 2^32 - 14.
pub mod Called
mod Tests
use helens.Prelude.{
  ℕ, zero, suc, ◌+◌, ◌*◌, ◌/◌, Bool, true, false, ◌&&◌, Option, none, some, List, [], ◌∷◌, ◌++◌,
  ltb, ◌==◌, if◌then◌else◌,
}
use helens.Prelude.Maybe.{◌>>=◌}
use helens.Bitmap.{Bitmap, value_size}
use helens.Bitmap.Laws.{has_bit}
use helens.Bitmap.Positions.{pos_after, group_after}

abbrev pub Calls : Type 0
Calls = List ℕ × Bool

-- What comes behind a loop that has not returned.
abbrev pub then_on : Calls → Calls → Calls
then_on (called, true) (called', on) = (called ++ called', on)
then_on (called, false) rest = (called, false)

module _ (cb : ℕ → Bool) where
  unfoldable pub each_bit : ℕ → ℕ → ℕ → ℕ → ℕ → Calls
  each_bit zero n cur_pos size w = ([], true)
  each_bit (suc rounds) n cur_pos size w =
      let rest = each_bit rounds (suc n) (suc cur_pos) size w in
      if ltb cur_pos size
      then if has_bit n w then then_on (cur_pos ∷ [], cb cur_pos) rest else rest
      else ([], true)

  -- The words that are left behind the groups of four
  unfoldable pub each_tail : ℕ → ℕ → List ℕ → Calls
  each_tail cur_pos size [] = ([], true)
  each_tail cur_pos size (w ∷ ws) =
      let skipped = each_tail (cur_pos + value_size) size ws in
      let rest = each_tail (pos_after value_size cur_pos size) size ws in
      if w == 0 then skipped else then_on (each_bit value_size 0 cur_pos size w) rest

  -- The words of a group, one by one
  unfoldable pub each_word : ℕ → ℕ → List ℕ → Calls
  each_word cur_pos size [] = ([], true)
  each_word cur_pos size (w ∷ ws) =
      then_on (each_bit value_size 0 cur_pos size w)
        (each_word (pos_after value_size cur_pos size) size ws)

  unfoldable pub each_group : ℕ → ℕ → ℕ → List ℕ → Option Calls
  each_group zero cur_pos size ws = some (each_tail cur_pos size ws)
  each_group (suc rounds) cur_pos size (a ∷ b ∷ c ∷ d ∷ ws) =
      let group = a ∷ b ∷ c ∷ d ∷ [] in
      let calls = each_word cur_pos size group in
      let skipped = each_group rounds (cur_pos + 4 * value_size) size ws in
      let rest = each_group rounds (group_after cur_pos size group) size ws in
      if a == 0 && b == 0 && c == 0 && d == 0
      then skipped
      else if calls.1
      then rest >>= (λ r. some (then_on calls r))
      else some calls
  each_group (suc rounds) cur_pos size _ = none

  unfoldable pub foreach : Bitmap → Option (List ℕ)
  foreach b = each_group (b.size / (4 * value_size)) 0 b.size b.words >>= (λ calls. some calls.0)
