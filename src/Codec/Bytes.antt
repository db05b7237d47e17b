-- ===== src/Codec/Bytes.antt =====
-- The bytes of an integer in a byte order, and what `writeFuint…` and `readFuint…` put and take.
use mathlib.Core.Path.{ap₂}
use native.Mathlib.Nat.{pow-suc}
use helens.Prelude.{
  ℕ, zero, suc, ◌+◌, ◌*◌, ◌/◌, ◌%◌, ◌^◌, ◌<◌, ◌≡◌, refl, sym, ap, subst, All, All-append, ◌∙◌, List,
  [], ◌∷◌, arith, length, reverse, reverse-reverse, length-append, reverse-append, if◌then◌else◌,
}
use helens.ByteArray.{ByteArray, Machine, Endian, little, big, done, read, set_position, ◌>>◌}
use helens.ByteArray.Valid.{IsValid}
use helens.ByteArray.Write.{Wrote, write_lem}
use helens.ByteArray.Stream.{Takes, read-Takes, round_trip, bind-done}
use helens.Codec.{to_le, from_le, image, value, byteswap, same_endian, write_fuint, read_fuint}

pub length-to_le : (w v : ℕ) → length (to_le w v) ≡ w
unfolding to_le
length-to_le zero v = refl
length-to_le (suc w) v = ap suc (length-to_le w (v / 256))

pub from_le-to_le : (w v : ℕ) → v < 256 ^ w → from_le (to_le w v) ≡ v
unfolding to_le from_le
from_le-to_le zero zero h = refl
from_le-to_le zero (suc v) h = absurd (omega arith)
from_le-to_le (suc w) v h = omega (arith, from_le-to_le w (v / 256) (omega (arith, pow-suc 256 w)))

-- The digits of a number that is put together from bytes.
pub to_le-from_le : (bs : List ℕ) → All (λ b. b < 256) bs → to_le (length bs) (from_le bs) ≡ bs
unfolding to_le from_le
to_le-from_le [] h = refl
to_le-from_le (b ∷ bs) h = ap₂ ◌∷◌ low (ap (to_le (length bs)) high ∙ to_le-from_le bs h.1)
  where
    low : (b + 256 * from_le bs) % 256 ≡ b
    low = omega arith

    high : (b + 256 * from_le bs) / 256 ≡ from_le bs
    high = omega arith

All-to_le : (w v : ℕ) → All (λ b. b < 256) (to_le w v)
unfolding to_le
All-to_le zero v = tt
All-to_le (suc w) v = (omega arith, All-to_le w (v / 256))

All-reverse : (xs : List ℕ) → All (λ b. b < 256) xs → All (λ b. b < 256) (reverse xs)
All-reverse [] h = tt
All-reverse (x ∷ xs) h =
    subst (All (λ b. b < 256)) (sym (reverse-append (x ∷ []) xs))
      (All-append (λ b. b < 256) (reverse xs) (x ∷ []) (All-reverse xs h.1) (h.0, tt))

length-reverse : (xs : List ℕ) → length (reverse xs) ≡ length xs
length-reverse [] = refl
length-reverse (x ∷ xs) = omega (
  arith,
  ap length (reverse-append (x ∷ []) xs),
  length-append (reverse xs) (x ∷ []),
  length-reverse xs,
)

-- A number in the byte order that the array is set to, whatever the host's order is.
pub encode : Endian → ℕ → ℕ → List ℕ
unfolding image
encode = image

pub length-encode : (e : Endian) (w v : ℕ) → length (encode e w v) ≡ w
unfolding encode
length-encode little w v = length-to_le w v
length-encode big w v = length-reverse (to_le w v) ∙ length-to_le w v

to_le-byteswap : (w v : ℕ) → to_le w (byteswap w v) ≡ reverse (to_le w v)
unfolding byteswap
to_le-byteswap w v =
    ap (λ (t : ℕ). to_le t (from_le (reverse (to_le w v))))
      (sym (length-reverse (to_le w v) ∙ length-to_le w v))
    ∙ to_le-from_le (reverse (to_le w v)) (All-reverse (to_le w v) (All-to_le w v))

byteswap_twice : (w v : ℕ) → v < 256 ^ w → byteswap w (byteswap w v) ≡ v
unfolding byteswap
byteswap_twice w v h =
    ap (λ (t : List ℕ). from_le (reverse t)) (to_le-byteswap w v)
    ∙ ap from_le (reverse-reverse (to_le w v))
    ∙ from_le-to_le w v h

-- The image that `writeFuint…` hands to `write` is the number in the array's order.
pub written_image :
    (e host : Endian) (w v : ℕ)
    → image host w (if same_endian e host then v else byteswap w v) ≡ encode e w v
unfolding encode same_endian
written_image little little w v = refl
written_image little big w v = ap reverse (to_le-byteswap w v) ∙ reverse-reverse (to_le w v)
written_image big little w v = to_le-byteswap w v
written_image big big w v = refl

-- And what `readFuint…` makes of such an image is the number.
pub read_image :
    (e host : Endian) (w v : ℕ)
    → v < 256 ^ w
    → (if same_endian e host
        then value host (encode e w v)
        else byteswap w (value host (encode e w v)))
      ≡ v
unfolding encode same_endian value byteswap
read_image little little w v h = from_le-to_le w v h
read_image little big w v h = byteswap_twice w v h
read_image big little w v h = byteswap_twice w v h
read_image big big w v h = ap from_le (reverse-reverse (to_le w v)) ∙ from_le-to_le w v h

module _ (m : Machine) where
  -- `writeFint16` to `writeFuint64` put the `w` bytes of the number in the array's byte order, on
  -- every host.
  pub write_fuint_lem :
      (w v : ℕ) (s : ByteArray)
      → IsValid s
      → (s' : ByteArray) × (write_fuint m w v s ≡ done tt s') × Wrote (encode s.endian w v) s s'
  unfolding write_fuint
  write_fuint_lem w v s h = rw written_image (write_lem m (encode s.endian w v) s h)

  -- `readFint16` to `readFuint64` take them back.
  pub read_fuint-Takes :
      (e : Endian) (w v : ℕ) → 0 < w → v < 256 ^ w → Takes e (read_fuint m w) (encode e w v) v
  unfolding read_fuint
  read_fuint-Takes e w v pos h rest s u =
      let (s', ran, u') =
        read-Takes e (encode e w v) (omega (arith, length-encode e w v)) rest s u in
      let ran_w = ap (λ (t : ℕ). read t s) (sym (length-encode e w v)) ∙ ran in
      (
        s',
        bind-done (read w) _ ran_w
            ∙ ap (λ (t : ℕ). done t s')
                (ap (λ (o : Endian). decoded o) u.order ∙ read_image e m.host w v h),
        u',
      )
    where
      decoded : Endian → ℕ
      decoded o =
          if same_endian o m.host
          then value m.host (encode e w v)
          else byteswap w (value m.host (encode e w v))

  -- A number is read back as it was written, in either byte order and on every host.
  pub fuint_round_trip :
      (w v : ℕ) (s : ByteArray)
      → IsValid s
      → 0 < w
      → v < 256 ^ w
      → (s' : ByteArray) × ((do write_fuint m w v; set_position s.position; read_fuint m w) s
          ≡ done v s')
        × IsValid s'
  fuint_round_trip w v s h pos fits =
      round_trip (write_fuint m w v) (read_fuint m w) (encode s.endian w v) v s h
        (write_fuint_lem w v s h) (read_fuint-Takes s.endian w v pos fits)
