-- ===== src/WebSocket/RoundTrip.antt =====
-- `WSSendMessage` against the peer's `WSRecvMessage`.
use helens.Prelude.{
  ℕ, suc, ◌+◌, ◌%◌, ◌^◌, ◌≤◌, ◌<◌, ◌≡◌, refl, sym, subst, Bool, true, false, not, ◌&&◌, some, List,
  [], ◌++◌, arith, length, length-append, leb, ◌==◌,
}
use helens.ByteArray.{Endian}
use helens.Stream.{Stream, ◌>>◌, read_fix_size, write_fix_size}
use helens.Stream.Laws.{Moves}
use helens.Stream.Exchange.{
  sent, Sends, Takes, then-Sends, then-Takes, return-Sends, return-Takes, read_fix_size-Takes,
  write_fix_size-Sends,
}
use helens.WebSocket.{
  FrameHead, head_image, payload_code, unmask, frame_head, write_length, write_mask, read_length,
  read_mask, Message, Next, next, receive_payload, receive_data, dispatch, receive_frame,
  receive_loop, receive, after_frame, send_frame, send, closed_on_failure, ping_code, bin_frame,
}
use helens.WebSocket.Bytes.{
  head_value-head_image, length-unmask, length_bytes, key_bytes, code_lt, write_length-Sends,
  read_length-Takes, write_mask-Sends, read_mask-Takes, length-length_bytes, length-key_bytes,
}

-- The frame of a message on the wire.
abbrev pub wire : Message → Bool → Bool → List ℕ → List ℕ
wire msg client fin key =
    head_image (frame_head msg.opcode client fin (length msg.m_data))
    ++ (length_bytes (length msg.m_data)
        ++ (key_bytes client key ++ (unmask client key msg.m_data ++ [])))

length-head_image : (h : FrameHead) → length (head_image h) ≡ 2
unfolding head_image
length-head_image h = refl

length-wire :
    (msg : Message) (client : Bool) (key : List ℕ)
    → length key ≡ 4
    → length (wire msg client true key) ≤ length msg.m_data + 14
length-wire msg client key four = omega (
  arith,
  length-head_image (frame_head msg.opcode client true n),
  length-append (head_image (frame_head msg.opcode client true n))
      (length_bytes n ++ (key_bytes client key ++ (unmask client key msg.m_data ++ []))),
  length-append (length_bytes n) (key_bytes client key ++ (unmask client key msg.m_data ++ [])),
  length-append (key_bytes client key) (unmask client key msg.m_data ++ []),
  length-append (unmask client key msg.m_data) [],
  length-length_bytes n,
  length-key_bytes client key four,
  length-unmask client key msg.m_data,
)
  where
    n : ℕ
    n = length msg.m_data

within : (n max : ℕ) → n < 2 ^ 31 → n < max → leb max ((0 + n) % 2 ^ 64) ≡ false
within n max small fits = ground arith

accepted :
    (client : Bool) (h : FrameHead) → h.mask ≡ client → (not (not client) && not h.mask) ≡ false
accepted client h e = ground arith

not_ping : (n : ℕ) → n ≤ bin_frame → (n == ping_code) ≡ false
not_ping n h = ground arith

le→leb : (n m : ℕ) → n ≤ m → leb n m ≡ true
le→leb n m h = ground arith

module _ (piece : ℕ → ℕ) (moves : Moves piece) (host : Endian) where
  send_frame-Sends :
      (msg : Message) (client fin : Bool) (key : List ℕ)
      → 0 < length msg.m_data
      → length msg.m_data < 2 ^ 31
      → length key ≡ 4
      → Sends
          (send_frame piece host msg client fin key)
          (wire msg client fin key)
          (length msg.m_data + 2)
  unfolding send_frame ◌>>◌
  send_frame-Sends msg client fin key pos small four =
      then-Sends (write_fix_size piece head) _ head _ tt _
        (write_fix_size-Sends piece moves head (omega (arith, two)) (omega (arith, two)))
        (then-Sends (write_length piece host (payload_code n) n) _ (length_bytes n) _ tt _
          (write_length-Sends piece moves host n (omega arith))
          (then-Sends (write_mask piece host client key) _ (key_bytes client key) _ tt _
            (write_mask-Sends piece moves host client key four)
            (then-Sends (write_fix_size piece masked) _ masked [] tt _
              (write_fix_size-Sends piece moves masked (omega (arith, same)) (omega (arith, same)))
              (return-Sends (n + 2)))))
    where
      n : ℕ
      n = length msg.m_data

      head : List ℕ
      head = head_image (frame_head msg.opcode client fin n)

      masked : List ℕ
      masked = unmask client key msg.m_data

      two : length head ≡ 2
      two = length-head_image (frame_head msg.opcode client fin n)

      same : length masked ≡ n
      same = length-unmask client key msg.m_data

  -- The peer of the sender: a server demands a mask, which a client sets.
  receive_payload-Takes :
      (msg : Message) (client : Bool) (key : List ℕ) (max : ℕ)
      → 0 < length msg.m_data
      → length msg.m_data < 2 ^ 31
      → length msg.m_data < max
      → length key ≡ 4
      → (msg.opcode == 0) ≡ false
      → Takes
          (receive_payload piece host max
            (frame_head msg.opcode client true (length msg.m_data))
            0
            []
            (length msg.m_data))
          (key_bytes client key ++ (unmask client key msg.m_data ++ []))
          (Next.finish msg)
  unfolding receive_payload next frame_head
  receive_payload-Takes msg client key max pos small fits four op =
      let (mask, taken, back) = read_mask-Takes piece moves host client key four in
      rw (within (length msg.m_data) max small fits) (
        then-Takes (read_mask piece host client) _ (key_bytes client key)
          (unmask client key msg.m_data ++ []) mask (Next.finish msg) taken
          (then-Takes (read_fix_size piece (length msg.m_data)) _ (unmask client key msg.m_data) []
            (unmask client key msg.m_data) (Next.finish msg)
            (read_fix_size-Takes piece moves (length msg.m_data) (unmask client key msg.m_data)
              (length-unmask client key msg.m_data) pos small)
            (rw (op, back msg.m_data) (return-Takes (Next.finish msg)))))

  receive_data-Takes :
      (msg : Message) (client : Bool) (key : List ℕ) (max : ℕ)
      → 0 < length msg.m_data
      → length msg.m_data < 2 ^ 31
      → length msg.m_data < max
      → length key ≡ 4
      → (msg.opcode == 0) ≡ false
      → Takes
          (receive_data piece host
            (not client)
            max
            (frame_head msg.opcode client true (length msg.m_data))
            0
            [])
          (length_bytes (length msg.m_data)
            ++ (key_bytes client key ++ (unmask client key msg.m_data ++ [])))
          (Next.finish msg)
  unfolding receive_data frame_head
  receive_data-Takes msg client key max pos small fits four op =
      rw (accepted client (frame_head msg.opcode client true (length msg.m_data)) refl) (
        then-Takes (read_length piece host (payload_code (length msg.m_data))) _
          (length_bytes (length msg.m_data)) _ (length msg.m_data) (Next.finish msg)
          (read_length-Takes piece moves host (length msg.m_data) (omega arith))
          (receive_payload-Takes msg client key max pos small fits four op))

  receive_frame-Takes :
      (msg : Message) (client : Bool) (key : List ℕ) (max : ℕ)
      → 0 < length msg.m_data
      → length msg.m_data < 2 ^ 31
      → length msg.m_data < max
      → length key ≡ 4
      → 0 < msg.opcode
      → msg.opcode ≤ bin_frame
      → Takes
          (receive_frame piece host (not client) max 0 [])
          (wire msg client true key)
          (Next.finish msg)
  unfolding receive_frame dispatch frame_head
  receive_frame-Takes msg client key max pos small fits four low high =
      let head = frame_head msg.opcode client true (length msg.m_data) in
      then-Takes (read_fix_size piece 2) _ (head_image head) _ (head_image head) (Next.finish msg)
        (read_fix_size-Takes piece moves 2 (head_image head) (length-head_image head) (omega arith)
          (omega arith))
        (subst
          (λ h.
            Takes (dispatch piece host (not client) max 0 [] h)
              (length_bytes (length msg.m_data)
                ++ (key_bytes client key ++ (unmask client key msg.m_data ++ [])))
              (Next.finish msg))
          (sym (head_value-head_image head (omega arith) (code_lt (length msg.m_data))))
          (rw (not_ping msg.opcode high, le→leb msg.opcode bin_frame high)
            (receive_data-Takes msg client key max pos small fits four (ground arith))))

  -- A message of text or bytes that is not empty, shorter than 2^31 bytes and than the peer's limit, is
  -- sent over a stream that takes 14 bytes more than the message has, and received as it was sent: masked
  -- by a client, with any mask of four bytes, or not by a server, in either host byte order, in whatever
  -- pieces the streams move it. What comes behind it is left for the next call. Fuel for one frame is
  -- enough.
  pub send_then_receive :
      (msg : Message) (client : Bool) (key rest : List ℕ) (max fuel : ℕ) (s r : Stream)
      → 0 < length msg.m_data
      → length msg.m_data < 2 ^ 31
      → length msg.m_data < max
      → length key ≡ 4
      → 0 < msg.opcode
      → msg.opcode ≤ bin_frame
      → length msg.m_data + 14 ≤ s.writable
      → (out : List ℕ) × (send piece host msg client true key s
          ≡ some (some (length msg.m_data + 2), sent out s))
        × (receive piece host (suc fuel) (not client) max (record r { incoming = out ++ rest })
            ≡ some (some msg, record r { incoming = rest }))
  unfolding send closed_on_failure receive receive_loop after_frame
  send_then_receive msg client key rest max fuel s r pos small fits four low high room = (
    wire msg client true key,
    rw
        (send_frame-Sends msg client true key pos small four s
          (omega (arith, length-wire msg client key four)))
        refl,
    rw
        (receive_frame-Takes msg client key max pos small fits four low high
          (record r { incoming = wire msg client true key ++ rest }) rest refl)
        refl,
  )
