-- ===== src/Bitmap/Positions.antt =====
-- Helens/ds/bitmap.cc: listPosAsc and the iterator, which go over the indices of a bitmap that is not
-- compressed. The positions do not wrap: they stay in 32 bits where the size is at most 2^32 - 14, and
-- in the iterator's int32_t where it is at most 2^31 - 14. `none` is an access outside of m_data.
pub mod Passing
pub mod Listed
pub mod Iterated
pub mod Visited
mod Tests
use Prim.Native.Nat.{bit_and}
use helens.Prelude.{
  ℕ, zero, suc, ◌+◌, ◌-◌, ◌*◌, ◌/◌, ◌%◌, Bool, true, false, ◌&&◌, Option, none, some, List, [], ◌∷◌,
  ◌++◌, get_elem?, drop, ltb, ◌==◌, if◌then◌else◌,
}
use helens.Prelude.Maybe.{◌>>=◌}
use helens.Bitmap.{Bitmap, value_size}
use helens.Bitmap.Laws.{has_bit}

-- `for(n = 0; n < VALUE_SIZE && cur_pos < m_size; ++n, ++cur_pos)`: what is pushed, and cur_pos after it.
unfoldable pub word_positions : ℕ → ℕ → ℕ → ℕ → ℕ → List ℕ
word_positions zero n cur_pos size w = []
word_positions (suc rounds) n cur_pos size w =
    let rest = word_positions rounds (suc n) (suc cur_pos) size w in
    if ltb cur_pos size then if has_bit n w then cur_pos ∷ rest else rest else []

unfoldable pub pos_after : ℕ → ℕ → ℕ → ℕ
pos_after zero cur_pos size = cur_pos
pos_after (suc rounds) cur_pos size =
    let rest = pos_after rounds (suc cur_pos) size in if ltb cur_pos size then rest else cur_pos

-- The words that are left behind the groups of four
unfoldable pub tail_positions : ℕ → ℕ → List ℕ → List ℕ
tail_positions cur_pos size [] = []
tail_positions cur_pos size (w ∷ ws) =
    let skipped = tail_positions (cur_pos + value_size) size ws in
    let pushed = word_positions value_size 0 cur_pos size w in
    let rest = tail_positions (pos_after value_size cur_pos size) size ws in
    if w == 0 then skipped else pushed ++ rest

-- The words of a group, one by one
unfoldable pub group_positions : ℕ → ℕ → List ℕ → List ℕ
group_positions cur_pos size [] = []
group_positions cur_pos size (w ∷ ws) =
    word_positions value_size 0 cur_pos size w
    ++ group_positions (pos_after value_size cur_pos size) size ws

unfoldable pub group_after : ℕ → ℕ → List ℕ → ℕ
group_after cur_pos size [] = cur_pos
group_after cur_pos size (w ∷ ws) = group_after (pos_after value_size cur_pos size) size ws

-- Four words at a time, which are skipped if the 64 bits are 0.
unfoldable pub list_groups : ℕ → ℕ → ℕ → List ℕ → Option (List ℕ)
list_groups zero cur_pos size ws = some (tail_positions cur_pos size ws)
list_groups (suc rounds) cur_pos size (a ∷ b ∷ c ∷ d ∷ ws) =
    let group = a ∷ b ∷ c ∷ d ∷ [] in
    let skipped = list_groups rounds (cur_pos + 4 * value_size) size ws in
    let rest = list_groups rounds (group_after cur_pos size group) size ws in
    if a == 0 && b == 0 && c == 0 && d == 0
    then skipped
    else rest >>= (λ ps. some (group_positions cur_pos size group ++ ps))
list_groups (suc rounds) cur_pos size _ = none

unfoldable pub list_pos_asc : Bitmap → Option (List ℕ)
list_pos_asc b = list_groups (b.size / (4 * value_size)) 0 b.size b.words

-- The loops of next over the bits of a word: whether it returns, and m_pos.
unfoldable pub find_bit : ℕ → ℕ → ℕ → ℕ → ℕ → Bool × ℕ
find_bit zero n m_pos size w = (false, m_pos)
find_bit (suc rounds) n m_pos size w =
    let rest = find_bit rounds (suc n) (suc m_pos) size w in
    if ltb m_pos size then if has_bit n w then (true, m_pos) else rest else (false, m_pos)

unfoldable pub find_words : ℕ → ℕ → List ℕ → ℕ
find_words m_pos size [] = m_pos
find_words m_pos size (w ∷ ws) =
    let skipped = find_words (m_pos + value_size) size ws in
    let (found, there) = find_bit value_size 0 m_pos size w in
    let rest = find_words there size ws in
    if ltb m_pos size then if w == 0 then skipped else if found then there else rest else m_pos

-- next behind `++m_pos`; the constructor calls it with m_pos = -1.
unfoldable pub advance : ℕ → Bitmap → Option ℕ
advance m_pos b =
    let left = m_pos % value_size in
    let from_word = some (find_words m_pos b.size (drop (m_pos / value_size) b.words)) in
    let in_word = get_elem? b.words (m_pos / value_size) >>= λ w.
    let (found, there) = find_bit (value_size - left) left m_pos b.size w in
    let rest = find_words there b.size (drop (there / value_size) b.words) in
    some (if found then there else rest) in
    if left == 0 then from_word else in_word

-- `operator!`, which says whether the iterator stands at an index.
abbrev pub at_index : ℕ → Bitmap → Bool
at_index m_pos b = ltb m_pos b.size
