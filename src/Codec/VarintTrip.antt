-- ===== src/Codec/VarintTrip.antt =====
-- `writeUint32` and its kin against `readUint32` and its kin, on an array.
use helens.Prelude.{ℕ, ◌^◌, ◌≤◌, ◌<◌, ◌≡◌, ap, ◌∙◌, some, List, arith, length}
use helens.ByteArray.{ByteArray, Machine, done, set_position, ◌>>=◌, ◌>>◌, return}
use helens.ByteArray.Valid.{IsValid}
use helens.ByteArray.Write.{Wrote, write_lem}
use helens.ByteArray.Stream.{Takes, round_trip, bind-done}
use helens.Codec.{
  varint, read_uint32, read_uint64, read_int32, read_int64, write_uint32, write_uint64, write_int32,
  write_int64, encode_zigzag32, encode_zigzag64, decode_zigzag32, decode_zigzag64,
}
use helens.Codec.Varint.{varint_total, read_uint32-Takes, read_uint64-Takes}
use helens.Codec.Zigzag.{
  encode_zigzag32-lt, encode_zigzag64-lt, decode_zigzag32-encode_zigzag32,
  decode_zigzag64-encode_zigzag64,
}

module _ (m : Machine) where
  -- `writeUint32` puts between one and 5 bytes.
  pub write_uint32_lem :
      (v : ℕ) (s : ByteArray)
      → IsValid s
      → v < 2 ^ 32
      → (bs : List ℕ) × (varint 5 v ≡ some bs)
        × (0 < length bs)
        × (length bs ≤ 5)
        × (s' : ByteArray) × (write_uint32 m v s ≡ done tt s')
        × Wrote bs s s'
  unfolding write_uint32
  write_uint32_lem v s h fits =
      let (bs, e, some_bytes, le) = varint_total 5 v (omega arith) (omega arith) in
      let (s', ran, w) = write_lem m bs s h in
      (bs, e, some_bytes, le, s', rw (e, write_uint32) ran, w)

  -- Every 32-bit number is read back from the variable-length code that was written.
  pub uint32_round_trip :
      (v : ℕ) (s : ByteArray)
      → IsValid s
      → v < 2 ^ 32
      → (s' : ByteArray) × ((do write_uint32 m v; set_position s.position; read_uint32) s
          ≡ done v s')
        × IsValid s'
  uint32_round_trip v s h fits =
      let (bs, e, _, _, s', ran, w) = write_uint32_lem v s h fits in
      round_trip (write_uint32 m v) read_uint32 bs v s h (s', ran, w)
        (read_uint32-Takes s.endian v bs fits e)

  -- So is every signed one, through its zigzag code.
  pub int32_round_trip :
      (v : ℕ) (s : ByteArray)
      → IsValid s
      → v < 2 ^ 32
      → (s' : ByteArray) × ((do write_int32 m v; set_position s.position; read_int32) s ≡ done v s')
        × IsValid s'
  unfolding write_int32 read_int32
  int32_round_trip v s h fits =
      let (bs, e, _, _, s', ran, w) =
        write_uint32_lem (encode_zigzag32 v) s h (encode_zigzag32-lt v) in
      round_trip (write_uint32 m (encode_zigzag32 v))
        (do code ← read_uint32; return (decode_zigzag32 code)) bs v s h (s', ran, w) (decoded bs e)
    where
      decoded :
          (bs : List ℕ)
          → varint 5 (encode_zigzag32 v) ≡ some bs
          → Takes s.endian (do code ← read_uint32; return (decode_zigzag32 code)) bs v
      decoded bs e rest t u =
          let (t', ran, u') =
            read_uint32-Takes s.endian (encode_zigzag32 v) bs (encode_zigzag32-lt v) e rest t u in
          (
            t',
            bind-done read_uint32 _ ran
                ∙ ap (λ (x : ℕ). done x t') (decode_zigzag32-encode_zigzag32 v fits),
            u',
          )

  -- `writeUint64` puts between one and 10 bytes.
  pub write_uint64_lem :
      (v : ℕ) (s : ByteArray)
      → IsValid s
      → v < 2 ^ 64
      → (bs : List ℕ) × (varint 10 v ≡ some bs)
        × (0 < length bs)
        × (length bs ≤ 10)
        × (s' : ByteArray) × (write_uint64 m v s ≡ done tt s')
        × Wrote bs s s'
  unfolding write_uint64
  write_uint64_lem v s h fits =
      let (bs, e, some_bytes, le) = varint_total 10 v (omega arith) (omega arith) in
      let (s', ran, w) = write_lem m bs s h in
      (bs, e, some_bytes, le, s', rw (e, write_uint64) ran, w)

  -- Every 64-bit number is read back from the variable-length code that was written.
  pub uint64_round_trip :
      (v : ℕ) (s : ByteArray)
      → IsValid s
      → v < 2 ^ 64
      → (s' : ByteArray) × ((do write_uint64 m v; set_position s.position; read_uint64) s
          ≡ done v s')
        × IsValid s'
  uint64_round_trip v s h fits =
      let (bs, e, _, _, s', ran, w) = write_uint64_lem v s h fits in
      round_trip (write_uint64 m v) read_uint64 bs v s h (s', ran, w)
        (read_uint64-Takes s.endian v bs fits e)

  -- So is every signed one, through its zigzag code.
  pub int64_round_trip :
      (v : ℕ) (s : ByteArray)
      → IsValid s
      → v < 2 ^ 64
      → (s' : ByteArray) × ((do write_int64 m v; set_position s.position; read_int64) s ≡ done v s')
        × IsValid s'
  unfolding write_int64 read_int64
  int64_round_trip v s h fits =
      let (bs, e, _, _, s', ran, w) =
        write_uint64_lem (encode_zigzag64 v) s h (encode_zigzag64-lt v) in
      round_trip (write_uint64 m (encode_zigzag64 v))
        (do code ← read_uint64; return (decode_zigzag64 code)) bs v s h (s', ran, w) (decoded bs e)
    where
      decoded :
          (bs : List ℕ)
          → varint 10 (encode_zigzag64 v) ≡ some bs
          → Takes s.endian (do code ← read_uint64; return (decode_zigzag64 code)) bs v
      decoded bs e rest t u =
          let (t', ran, u') =
            read_uint64-Takes s.endian (encode_zigzag64 v) bs (encode_zigzag64-lt v) e rest t u in
          (
            t',
            bind-done read_uint64 _ ran
                ∙ ap (λ (x : ℕ). done x t') (decode_zigzag64-encode_zigzag64 v fits),
            u',
          )
