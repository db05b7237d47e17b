-- ===== src/Codec.antt =====
-- Helens/bytearray.cc and endian.h: integers of fixed and of variable length, and strings. A value
-- of a `w`-byte integer type is its bit pattern, a number below 256 ^ w; a float or a double is
-- the bit pattern that `memcpy` moves.
pub mod Bytes
pub mod Zigzag
pub mod Varint
pub mod VarintTrip
mod Tests
use Prim.Native.Nat.{bit_and, bit_or, bit_xor}
use mathlib.Core.Option
use helens.Prelude.{
  ℕ, zero, suc, ◌+◌, ◌-◌, ◌*◌, ◌/◌, ◌%◌, ◌^◌, Bool, true, false, Option, none, some, List, [], ◌∷◌,
  reverse, ltb, if◌then◌else◌, length,
}
use helens.ByteArray.{
  ByteArray, Machine, Endian, little, big, Outcome, done, out_of_range, fault, M, ◌>>=◌, ◌>>◌,
  return, read, write,
}

-- The digits of a number to base 256, lowest first, and back.
pub to_le : ℕ → ℕ → List ℕ
to_le zero v = []
to_le (suc w) v = v % 256 ∷ to_le w (v / 256)

pub from_le : List ℕ → ℕ
from_le [] = 0
from_le (b ∷ bs) = b + 256 * from_le bs

-- The memory of a `w`-byte integer in the host's byte order, and back.
pub image : Endian → ℕ → ℕ → List ℕ
image little w v = to_le w v
image big w v = reverse (to_le w v)

pub value : Endian → List ℕ → ℕ
value little bs = from_le bs
value big bs = from_le (reverse bs)

-- `bswap_16`, `bswap_32` and `bswap_64`
pub byteswap : ℕ → ℕ → ℕ
byteswap w v = from_le (reverse (to_le w v))

pub same_endian : Endian → Endian → Bool
same_endian little little = true
same_endian big big = true
same_endian _ _ = false

pub encode_zigzag32 : ℕ → ℕ
encode_zigzag32 v =
    if ltb v (2 ^ 31) then v * 2 % 2 ^ 32 else ((2 ^ 32 - v) % 2 ^ 32 * 2 + 2 ^ 32 - 1) % 2 ^ 32

pub encode_zigzag64 : ℕ → ℕ
encode_zigzag64 v =
    if ltb v (2 ^ 63) then v * 2 % 2 ^ 64 else ((2 ^ 64 - v) % 2 ^ 64 * 2 + 2 ^ 64 - 1) % 2 ^ 64

pub decode_zigzag32 : ℕ → ℕ
decode_zigzag32 v = bit_xor (v / 2) ((2 ^ 32 - bit_and v 1) % 2 ^ 32)

pub decode_zigzag64 : ℕ → ℕ
decode_zigzag64 v = bit_xor (v / 2) ((2 ^ 64 - bit_and v 1) % 2 ^ 64)

-- The loop that fills `tmp`; `none` is a write behind the `n` bytes that `tmp` has left.
pub varint : ℕ → ℕ → Option (List ℕ)
varint zero v = none
varint (suc n) v =
    let further = Option.map (λ bs. bit_or (bit_and v 127) 128 ∷ bs) (varint n (v / 2 ^ 7)) in
    if ltb v 0x80 then some (v % 256 ∷ []) else further

-- `readFuint8`, and `readFint8` on bit patterns
pub read_fuint8 : M ℕ
read_fuint8 = do bs ← read 1; return (from_le bs)

-- The loop of `readUint32` and `readUint64`: the rounds left, the shift and the result so far.
pub read_varint : ℕ → ℕ → ℕ → ℕ → M ℕ
read_varint bits zero i result = return result
read_varint bits (suc rounds) i result = do
  b ← read_fuint8
  elim (ltb b 0x80) [
    | true ↦ return (bit_or result (b * 2 ^ i % 2 ^ bits))
    | false ↦ read_varint bits rounds (i + 7) (bit_or result (bit_and b 127 * 2 ^ i % 2 ^ bits))
  ]

-- `i = 0, 7, 14, 21, 28`
pub read_uint32 : M ℕ
read_uint32 = read_varint 32 5 0 0

-- `i = 0, 7, …, 63`
pub read_uint64 : M ℕ
read_uint64 = read_varint 64 10 0 0

pub read_int32 : M ℕ
read_int32 = do v ← read_uint32; return (decode_zigzag32 v)

pub read_int64 : M ℕ
read_int64 = do v ← read_uint64; return (decode_zigzag64 v)

module _ (m : Machine) where
  open m use {host}

  -- `writeFint8` and `writeFuint8`: one byte, in any order
  pub write_fuint8 : ℕ → M (Unit {0})
  write_fuint8 v = write m (to_le 1 v)

  -- `writeFint16` to `writeFuint64`, which differ in the width `w`
  pub write_fuint : ℕ → ℕ → M (Unit {0})
  write_fuint w v s =
      write m (image host w (if same_endian s.endian host then v else byteswap w v)) s

  -- `readFint16` to `readFuint64`
  pub read_fuint : ℕ → M ℕ
  read_fuint w s =
      (do
        bs ← read w
        return (if same_endian s.endian host then value host bs else byteswap w (value host bs)))
        s

  pub write_uint32 : ℕ → M (Unit {0})
  write_uint32 v s = elim (varint 5 v) [ none ↦ fault | some bs ↦ write m bs s ]

  pub write_uint64 : ℕ → M (Unit {0})
  write_uint64 v s = elim (varint 10 v) [ none ↦ fault | some bs ↦ write m bs s ]

  pub write_int32 : ℕ → M (Unit {0})
  write_int32 v = write_uint32 (encode_zigzag32 v)

  pub write_int64 : ℕ → M (Unit {0})
  write_int64 v = write_uint64 (encode_zigzag64 v)

  -- `writeFloat`, `writeDouble`, `readFloat` and `readDouble`
  pub write_float : ℕ → M (Unit {0})
  write_float = write_fuint 4

  pub write_double : ℕ → M (Unit {0})
  write_double = write_fuint 8

  pub read_float : M ℕ
  read_float = read_fuint 4

  pub read_double : M ℕ
  read_double = read_fuint 8

  -- `writeStringF16`, `F32` and `F64`: the size, cut to `w` bytes, before the string
  pub write_string_f : ℕ → List ℕ → M (Unit {0})
  write_string_f w str = do write_fuint w (length str % 256 ^ w); write m str

  pub read_string_f : ℕ → M (List ℕ)
  read_string_f w = do len ← read_fuint w; read len

  pub write_string_vint : List ℕ → M (Unit {0})
  write_string_vint str = do write_uint64 (length str % 2 ^ 64); write m str

  pub write_string_without_length : List ℕ → M (Unit {0})
  write_string_without_length str = write m str

pub read_string_vint : M (List ℕ)
read_string_vint = do len ← read_uint64; read len
