-- ===== src/Codec/Tests.antt =====
-- Runs of the codecs at concrete inputs.
use helens.Prelude.{◌≡◌, refl, some, [], ◌∷◌, arith}
use helens.ByteArray.{ByteArray, done, set_position, ◌>>◌}
use helens.ByteArray.Valid.{IsValid}
use helens.ByteArray.Tests.{x86, sample, sample-IsValid}
use helens.Codec.{
  to_le, from_le, varint, byteswap, encode_zigzag32, decode_zigzag32, encode_zigzag64,
  decode_zigzag64, write_fuint, read_fuint, write_uint32, read_uint32, write_int32, read_int32,
  write_int64, read_int64,
}
use helens.Codec.Bytes.{fuint_round_trip}
use helens.Codec.Zigzag.{decode_zigzag32-encode_zigzag32, decode_zigzag64-encode_zigzag64}
use helens.Codec.VarintTrip.{uint32_round_trip, int32_round_trip, int64_round_trip}

-- 300 is 0xac 0x02.
varint_300 : varint 5 300 ≡ some (0xac ∷ 0x02 ∷ [])
unfolding varint
varint_300 = refl

swapped : byteswap 4 0x01020304 ≡ 0x04030201
unfolding byteswap to_le from_le
swapped = refl

-- -1 and 1
zigzag_signs : (encode_zigzag32 0xffff_ffff ≡ 1) × (encode_zigzag32 1 ≡ 2)
unfolding encode_zigzag32
zigzag_signs = (refl, refl)

fuint_round_trip_example :
    (s' : ByteArray) × ((do
      write_fuint x86 4 0x01020304
      set_position sample.position
      read_fuint x86 4)
        sample
      ≡ done 0x01020304 s')
    × IsValid s'
fuint_round_trip_example =
    fuint_round_trip x86 4 0x01020304 sample sample-IsValid (omega arith) (omega arith)

decode_zigzag32-encode_zigzag32_example :
    decode_zigzag32 (encode_zigzag32 0xffff_fff0) ≡ 0xffff_fff0
decode_zigzag32-encode_zigzag32_example = decode_zigzag32-encode_zigzag32 0xffff_fff0 (omega arith)

decode_zigzag64-encode_zigzag64_example :
    decode_zigzag64 (encode_zigzag64 0x8000_0000_0000_0000) ≡ 0x8000_0000_0000_0000
decode_zigzag64-encode_zigzag64_example =
    decode_zigzag64-encode_zigzag64 0x8000_0000_0000_0000 (omega arith)

uint32_round_trip_example :
    (s' : ByteArray) × ((do write_uint32 x86 300; set_position sample.position; read_uint32) sample
      ≡ done 300 s')
    × IsValid s'
uint32_round_trip_example = uint32_round_trip x86 300 sample sample-IsValid (omega arith)

int32_round_trip_example :
    (s' : ByteArray) × ((do write_int32 x86 0xffff_fffe; set_position sample.position; read_int32)
        sample
      ≡ done 0xffff_fffe s')
    × IsValid s'
int32_round_trip_example = int32_round_trip x86 0xffff_fffe sample sample-IsValid (omega arith)

int64_round_trip_example :
    (s' : ByteArray) × ((do write_int64 x86 70000; set_position sample.position; read_int64) sample
      ≡ done 70000 s')
    × IsValid s'
int64_round_trip_example = int64_round_trip x86 70000 sample sample-IsValid (omega arith)
