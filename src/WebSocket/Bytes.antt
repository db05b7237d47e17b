-- ===== src/WebSocket/Bytes.antt =====
-- The bytes of a frame: its head, its length and its masked data.
use native.Mathlib.Nat.{mod-eq_of_lt}
use helens.Prelude.{
  ℕ, suc, ◌+◌, ◌*◌, ◌/◌, ◌%◌, ◌^◌, ◌≤◌, ◌<◌, ◌≡◌, refl, ap, inl, inr, Bool, true, false, List, [],
  ◌∷◌, append-nil, arith, length, get_or, ltb, ◌==◌, if◌then◌else◌, Bool-cases, subst,
}
use helens.Prelude.Bits.{bit_xor_twice}
use helens.ByteArray.{Endian, little, big}
use helens.Codec.{image, value}
use helens.Codec.Bytes.{encode, length-encode, written_image, read_image}
use helens.Stream.{read_fix_size, write_fix_size}
use helens.Stream.Laws.{Moves}
use helens.Stream.Exchange.{
  Sends, Takes, then-Takes, return-Sends, return-Takes, read_fix_size-Takes, write_fix_size-Sends,
}
use helens.WebSocket.{
  FrameHead, bit, head_image, head_value, apply_mask, payload_code, byteswap_on_little, read_number,
  read_length, read_mask, unmask, write_length, write_mask,
}

bit_back : (b : Bool) (n : ℕ) → n < 128 → (1 == (n + 128 * bit b) / 128 % 2) ≡ b
bit_back true n h = ground arith
bit_back false n h = ground arith

low_back : (b : Bool) (n m : ℕ) → m < 128 → (m + 128 * bit b) % 128 ≡ m
low_back true n m h = omega arith
low_back false n m h = omega arith

opcode_back : (b : Bool) (n : ℕ) → n < 16 → (n % 16 + 128 * bit b) % 16 ≡ n
opcode_back true n h = omega arith
opcode_back false n h = omega arith

-- The fields of a head come back from its two bytes.
pub head_value-head_image :
    (h : FrameHead) → h.opcode < 16 → h.payload < 128 → head_value (head_image h) ≡ h
unfolding head_value head_image
head_value-head_image h small fits =
    rw
      (
        opcode_back h.fin h.opcode small,
        bit_back h.fin (h.opcode % 16) (omega arith),
        low_back h.mask 0 (h.payload % 128) (omega arith),
        bit_back h.mask (h.payload % 128) (omega arith),
        mod-eq_of_lt fits,
      )
      refl

-- The mask applied twice is gone.
pub apply_mask_twice :
    (mask : List ℕ) (i : ℕ) (bs : List ℕ) → apply_mask mask i (apply_mask mask i bs) ≡ bs
unfolding apply_mask
apply_mask_twice mask i [] = refl
apply_mask_twice mask i (b ∷ bs) =
    rw (bit_xor_twice b (get_or mask (i % 4) 0), apply_mask_twice mask (suc i) bs) refl

pub length-apply_mask :
    (mask : List ℕ) (i : ℕ) (bs : List ℕ) → length (apply_mask mask i bs) ≡ length bs
unfolding apply_mask
length-apply_mask mask i [] = refl
length-apply_mask mask i (b ∷ bs) = ap suc (length-apply_mask mask (suc i) bs)

pub unmask_twice : (b : Bool) (mask bs : List ℕ) → unmask b mask (unmask b mask bs) ≡ bs
unfolding unmask
unmask_twice true mask bs = apply_mask_twice mask 0 bs
unmask_twice false mask bs = refl

pub length-unmask : (b : Bool) (mask bs : List ℕ) → length (unmask b mask bs) ≡ length bs
unfolding unmask
length-unmask true mask bs = length-apply_mask mask 0 bs
length-unmask false mask bs = refl

-- The bytes of a size behind the head, in network order.
abbrev pub length_bytes : ℕ → List ℕ
length_bytes size =
    if ltb size 126 then [] else if ltb size 65536 then encode big 2 size else encode big 8 size

abbrev pub key_bytes : Bool → List ℕ → List ℕ
key_bytes true key = key
key_bytes false key = []

pub number_written :
    (host : Endian) (w v : ℕ) → image host w (byteswap_on_little host w v) ≡ encode big w v
unfolding byteswap_on_little
number_written host w v = written_image big host w v

number_read :
    (host : Endian) (w v : ℕ)
    → v < 256 ^ w
    → byteswap_on_little host w (value host (encode big w v)) ≡ v
unfolding byteswap_on_little
number_read little w v h = read_image big little w v h
number_read big w v h = read_image big big w v h

below : (n m : ℕ) → ltb n m ≡ true → n < m
below n m h = ground arith

not_code : (n m : ℕ) → ltb n 126 ≡ true → 126 ≤ m → (n == m) ≡ false
not_code n m h k = ground arith

pub code_lt : (n : ℕ) → payload_code n < 128
unfolding payload_code
code_lt n = ground arith

pub length-length_bytes : (n : ℕ) → length (length_bytes n) ≤ 8
length-length_bytes n = ground (arith, length-encode big 2 n, length-encode big 8 n)

pub length-key_bytes : (b : Bool) (key : List ℕ) → length key ≡ 4 → length (key_bytes b key) ≤ 4
length-key_bytes true key h = omega arith
length-key_bytes false key h = omega arith

module _ (piece : ℕ → ℕ) (moves : Moves piece) (host : Endian) where
  number-Sends :
      (w v : ℕ)
      → 0 < w
      → w < 9
      → Sends
          (write_fix_size piece (image host w (byteswap_on_little host w v)))
          (encode big w v)
          tt
  number-Sends w v pos small = rw (number_written host w v) (
      write_fix_size-Sends piece moves (encode big w v) (omega (arith, length-encode big w v))
        (omega (arith, length-encode big w v)))

  number-Takes :
      (w v : ℕ) → 0 < w → w < 9 → v < 256 ^ w → Takes (read_number piece host w) (encode big w v) v
  unfolding read_number
  number-Takes w v pos small fits =
      subst (Takes (read_number piece host w) (encode big w v)) (number_read host w v fits) (
        subst
          (λ t.
            Takes (read_number piece host w) t
              (byteswap_on_little host w (value host (encode big w v))))
          (append-nil (encode big w v))
          (then-Takes (read_fix_size piece w) _ (encode big w v) [] (encode big w v) _
            (read_fix_size-Takes piece moves w (encode big w v) (length-encode big w v) pos
              (omega arith))
            (return-Takes _)))

  pub write_length-Sends :
      (size : ℕ)
      → size < 2 ^ 64
      → Sends (write_length piece host (payload_code size) size) (length_bytes size) tt
  unfolding write_length payload_code
  write_length-Sends size h = elim (Bool-cases (ltb size 126)) [
    | inl e ↦
        rw (e, not_code size 126 e (omega arith), not_code size 127 e (omega arith))
          (return-Sends tt)
    | inr e ↦ elim (Bool-cases (ltb size 65536)) [
      | inl e' ↦
          rw (e, e', mod-eq_of_lt (below size 65536 e'))
            (number-Sends 2 size (omega arith) (omega arith))
      | inr e' ↦ rw (e, e') (number-Sends 8 size (omega arith) (omega arith))
    ]
  ]

  pub read_length-Takes :
      (size : ℕ)
      → size < 2 ^ 64
      → Takes (read_length piece host (payload_code size)) (length_bytes size) size
  unfolding read_length payload_code
  read_length-Takes size h = elim (Bool-cases (ltb size 126)) [
    | inl e ↦
        rw (e, not_code size 126 e (omega arith), not_code size 127 e (omega arith))
          (return-Takes size)
    | inr e ↦ elim (Bool-cases (ltb size 65536)) [
      | inl e' ↦ rw (e, e') (number-Takes 2 size (omega arith) (omega arith) (below size 65536 e'))
      | inr e' ↦ rw (e, e') (number-Takes 8 size (omega arith) (omega arith) h)
    ]
  ]

  pub write_mask-Sends :
      (b : Bool) (key : List ℕ)
      → length key ≡ 4
      → Sends (write_mask piece host b key) (key_bytes b key) tt
  unfolding write_mask
  write_mask-Sends true key h = write_fix_size-Sends piece moves key (omega arith) (omega arith)
  write_mask-Sends false key h = return-Sends tt

  pub read_mask-Takes :
      (b : Bool) (key : List ℕ)
      → length key ≡ 4
      → (mask : List ℕ) × Takes (read_mask piece host b) (key_bytes b key) mask
        × ((xs : List ℕ) → unmask b mask (unmask b key xs) ≡ xs)
  unfolding read_mask unmask
  read_mask-Takes true key h = (
    key,
    read_fix_size-Takes piece moves 4 key h (omega arith) (omega arith),
    λ xs. unmask_twice true key xs,
  )
  read_mask-Takes false key h = (_, return-Takes _, λ xs. unmask_twice false key xs)
