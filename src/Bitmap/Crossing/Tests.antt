-- ===== src/Bitmap/Crossing/Tests.antt =====
-- cross at concrete inputs.
use helens.Prelude.{ℕ, ◌≡◌, refl, Bool, true, false, some, [], ◌∷◌, arith}
use helens.Bitmap.{Bitmap, get}
use helens.Bitmap.Compressed.{compress}
use helens.Bitmap.Compressed.RoundTrip.{IsWhole}
use helens.Bitmap.Crossing.{cross}
use helens.Bitmap.Crossing.Found.{cross_lem}

-- 28 zeros, 14 ones and a single bit
abbrev late : Bitmap
late = record { compress = false; size = 56; words = 0 ∷ 0 ∷ 16383 ∷ 8 ∷ [] }

abbrev early : Bitmap
early = record { compress = false; size = 56; words = 1 ∷ 2 ∷ 0 ∷ 24 ∷ [] }

late-IsWhole : IsWhole late
late-IsWhole = record { plain = refl; counted = refl; words = omega arith; fits = omega arith }

early-IsWhole : IsWhole early
early-IsWhole = record { plain = refl; counted = refl; words = omega arith; fits = omega arith }

cross_lem_example :
    (r : Bool) × (cross early late ≡ some r)
    × (cross early (compress late) ≡ some r)
    × (r ≡ true → (j : ℕ) × (get j early ≡ some true) × (get j late ≡ some true))
    × ((j : ℕ) → get j early ≡ some true → get j late ≡ some true → r ≡ true)
cross_lem_example = cross_lem early late early-IsWhole late-IsWhole refl
