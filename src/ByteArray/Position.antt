-- ===== src/ByteArray/Position.antt =====
-- `setPosition` and `clear` as operations on the flat contents.
use helens.Prelude.{ℕ, ◌≤◌, max, ◌≡◌, refl, false, [], ◌++◌, arith, ltb}
use helens.ByteArray.{ByteArray, done, set_position}
use helens.ByteArray.Scatter.{seek_lem}
use helens.ByteArray.Valid.{IsValid, memory}
use helens.ByteArray.Laws.{Kept}

-- `setPosition` goes to any place within the capacity; behind the data it makes the contents
-- longer.
pub record Moved (p : ℕ) (s s' : ByteArray) : Type 0 where
  pub valid : IsValid s'
  pub kept : Kept s s'
  pub position : s'.position ≡ p
  pub size : s'.size ≡ max s.size p
  pub memory : memory s' ≡ memory s

pub set_position_lem :
    (p : ℕ) (s : ByteArray)
    → IsValid s
    → p ≤ s.capacity
    → (s' : ByteArray) × (set_position p s ≡ done tt s') × Moved p s s'
unfolding set_position
set_position_lem p s v le =
    let (c, e, same, pts) =
      seek_lem s.base_size [] p (s.before ++ s.here) v.positive v.rooted v.uniform
        (omega (arith, v.sized)) in
    (
      record s { position = p; size = max s.size p; before = c.0; here = c.1 },
      rw (inside, e),
      record {
        valid = record {
          positive = v.positive;
          rooted = rw same v.rooted;
          uniform = rw same v.uniform;
          sized = rw same v.sized;
          within = omega arith;
          bounded = omega (arith, v.bounded);
          cursor_low = omega (arith, pts.0);
          cursor_high = omega (arith, pts.1);
        };
        kept = record { base_size = refl; endian = refl };
        position = refl;
        size = refl;
        memory = rw same;
      },
    )
  where
    inside : ltb s.capacity p ≡ false
    inside = ground (arith, le)
