-- ===== src/WebSocket/Empty.antt =====
-- Messages and control frames without data.
use helens.Prelude.{
  ℕ, ◌≤◌, ◌≡◌, refl, Bool, true, false, none, some, List, [], ◌++◌, arith, length, length-append,
}
use helens.ByteArray.{Endian}
use helens.Stream.{Stream, ◌>>◌, write_fix_size, close}
use helens.Stream.Laws.{Moves, write_nothing}
use helens.Stream.Exchange.{
  sent, Breaks, then-Breaks, Breaks-then, fails-Breaks, write_fix_size-Sends,
}
use helens.WebSocket.{
  FrameHead, head_image, payload_code, unmask, apply_mask, frame_head, write_length, write_mask,
  send_frame, send, closed_on_failure,
}
use helens.WebSocket.Bytes.{
  length_bytes, key_bytes, write_length-Sends, write_mask-Sends, length-key_bytes,
}

no_bytes :
    (piece : ℕ → ℕ) (client : Bool) (key : List ℕ) (s : Stream)
    → write_fix_size piece (unmask client key []) s ≡ some (none, s)
unfolding unmask apply_mask
no_bytes piece true key s = write_nothing piece s
no_bytes piece false key s = write_nothing piece s

length-head_image : (h : FrameHead) → length (head_image h) ≡ 2
unfolding head_image
length-head_image h = refl

module _ (piece : ℕ → ℕ) (moves : Moves piece) (host : Endian) where
  send_frame-Breaks :
      (opcode : ℕ) (client fin : Bool) (key : List ℕ)
      → length key ≡ 4
      → Breaks (send_frame piece host (record { opcode = opcode; m_data = [] }) client fin key) (
          head_image (frame_head opcode client fin 0)
          ++ (length_bytes 0 ++ (key_bytes client key ++ [])))
  unfolding send_frame ◌>>◌
  send_frame-Breaks opcode client fin key four =
      then-Breaks (write_fix_size piece head) _ head _ tt
        (write_fix_size-Sends piece moves head (omega (arith, two)) (omega (arith, two)))
        (then-Breaks (write_length piece host (payload_code 0) 0) _ (length_bytes 0) _ tt
          (write_length-Sends piece moves host 0 (omega arith))
          (then-Breaks (write_mask piece host client key) _ (key_bytes client key) [] tt
            (write_mask-Sends piece moves host client key four)
            (Breaks-then (write_fix_size piece (unmask client key [])) _ [] (
              fails-Breaks (write_fix_size piece (unmask client key []))
                (no_bytes piece client key)))))
    where
      head : List ℕ
      head = head_image (frame_head opcode client fin 0)

      two : length head ≡ 2
      two = length-head_image (frame_head opcode client fin 0)

  -- An empty message is sent as its head and its mask; the write of its no bytes counts as a
  -- failure, so the stream is closed and the call returns -1.
  pub send_empty :
      (opcode : ℕ) (client fin : Bool) (key : List ℕ) (s : Stream)
      → length key ≡ 4
      → 6 ≤ s.writable
      → (out : List ℕ) × (send piece host (record { opcode = opcode; m_data = [] }) client fin key s
          ≡ some (none, close (sent out s)))
  unfolding send closed_on_failure
  send_empty opcode client fin key s four room = (
    head ++ (length_bytes 0 ++ (key_bytes client key ++ [])),
    rw
        (send_frame-Breaks opcode client fin key four s (
          omega (
            arith,
            length-append head (key_bytes client key ++ []),
            length-append (key_bytes client key) [],
            length-head_image (frame_head opcode client fin 0),
            length-key_bytes client key four,
          )))
        refl,
  )
    where
      head : List ℕ
      head = head_image (frame_head opcode client fin 0)
