-- ===== src/WebSocket.antt =====
-- Helens/http/ws_session.cc: `WSRecvMessage`, `WSSendMessage`, `WSPing` and `WSPong` on a stream. The
-- first byte of a head has the opcode in its low four bits and `fin` in the highest; the second the
-- payload in its low seven and `mask` in the highest, as the compilers lay out `WSFrameHead`.
pub mod Bytes
pub mod RoundTrip
pub mod Empty
mod Tests
use Prim.Native.Nat.{bit_xor}
use helens.Prelude.{
  ℕ, zero, suc, ◌+◌, ◌-◌, ◌*◌, ◌/◌, ◌%◌, ◌^◌, Bool, true, false, not, ◌&&◌, ◌||◌, Option, none,
  some, List, [], ◌∷◌, ◌++◌, length, get_or, ltb, leb, ◌==◌, if◌then◌else◌,
}
use helens.ByteArray.{Endian, little, big}
use helens.Codec.{image, value, byteswap, same_endian}
use helens.Stream.{Stream, R, return, fail, ◌>>=◌, ◌>>◌, read_fix_size, write_fix_size, close}

-- `WSFrameHead` without the reserved bits, which nothing looks at
pub record FrameHead : Type 0 where
  pub opcode : ℕ
  pub fin : Bool
  pub payload : ℕ
  pub mask : Bool

abbrev pub bit : Bool → ℕ
bit true = 1
bit false = 0

unfoldable pub head_image : FrameHead → List ℕ
head_image h = (h.opcode % 16 + 128 * bit h.fin) ∷ (h.payload % 128 + 128 * bit h.mask) ∷ []

unfoldable pub head_value : List ℕ → FrameHead
head_value bs = record {
  opcode = get_or bs 0 0 % 16;
  fin = 1 == get_or bs 0 0 / 128 % 2;
  payload = get_or bs 1 0 % 128;
  mask = 1 == get_or bs 1 0 / 128 % 2;
}

abbrev pub text_frame : ℕ
text_frame = 1

abbrev pub bin_frame : ℕ
bin_frame = 2

abbrev pub ping_code : ℕ
ping_code = 9

abbrev pub pong_code : ℕ
pong_code = 10

-- `data[i] ^= mask[i % 4]` from the place `i` on
unfoldable pub apply_mask : List ℕ → ℕ → List ℕ → List ℕ
apply_mask mask i [] = []
apply_mask mask i (b ∷ bs) = bit_xor b (get_or mask (i % 4) 0) ∷ apply_mask mask (suc i) bs

-- `WSFrameMessage`
pub record Message : Type 0 where
  pub opcode : ℕ
  pub m_data : List ℕ

-- After a frame the loop goes on, with the opcode and the data so far, or returns a message.
pub data Next : Type 0 where
  go_on : ℕ → List ℕ → Next
  finish : Message → Next

-- The size as it stands in a head
unfoldable pub payload_code : ℕ → ℕ
payload_code size = if ltb size 126 then size else if ltb size 65536 then 126 else 127

unfoldable pub control_head : ℕ → FrameHead
control_head code = record { opcode = code; fin = true; payload = 0; mask = false }

-- A failure is the `break`, behind which the stream is closed.
unfoldable pub after_frame :
    Option (Option Next × Stream) → (ℕ → List ℕ → R Message) → Option (Option Message × Stream)
after_frame none further = none
after_frame (some (none, s)) further = some (none, close s)
after_frame (some (some (Next.finish m), s)) further = some (some m, s)
after_frame (some (some (Next.go_on opcode received), s)) further = further opcode received s

unfoldable pub closed_on_failure : Option (Option ℕ × Stream) → Option (Option ℕ × Stream)
closed_on_failure none = none
closed_on_failure (some (none, s)) = some (none, close s)
closed_on_failure (some (some n, s)) = some (some n, s)

-- `byteswapOnLittleEndian`
unfoldable pub byteswap_on_little : Endian → ℕ → ℕ → ℕ
byteswap_on_little host w v = if same_endian big host then v else byteswap w v

unfoldable pub unmask : Bool → List ℕ → List ℕ → List ℕ
unmask true mask bs = apply_mask mask 0 bs
unmask false mask bs = bs

unfoldable pub next : FrameHead → ℕ → List ℕ → Next
next head opcode received =
    let opcode' = if opcode == 0 && not (head.opcode == 0) then head.opcode else opcode in
    if head.fin
    then Next.finish (record { opcode = opcode'; m_data = received })
    else Next.go_on opcode' received

unfoldable pub frame_head : ℕ → Bool → Bool → ℕ → FrameHead
frame_head opcode client fin size = record {
  opcode = opcode;
  fin = fin;
  payload = payload_code size;
  mask = client;
}

module _ (piece : ℕ → ℕ) (host : Endian) where
  -- A `w`-byte length behind the head
  unfoldable pub read_number : ℕ → R ℕ
  read_number w = do bs ← read_fix_size piece w; return (byteswap_on_little host w (value host bs))

  unfoldable pub read_length : ℕ → R ℕ
  read_length payload =
      if payload == 126
      then read_number 2
      else if payload == 127
      then read_number 8
      else return payload

  -- `char mask[4] = {0}`, read if there is one
  unfoldable pub read_mask : Bool → R (List ℕ)
  read_mask true = read_fix_size piece 4
  read_mask false = return (0 ∷ 0 ∷ 0 ∷ 0 ∷ [])

  -- A frame with data, behind its length
  unfoldable pub receive_payload : ℕ → FrameHead → ℕ → List ℕ → ℕ → R Next
  receive_payload max head opcode received len =
      if leb max ((length received + len) % 2 ^ 64) then fail else do
        mask ← read_mask head.mask
        bs ← read_fix_size piece len
        return (next head opcode (received ++ unmask head.mask mask bs))

  unfoldable pub receive_data : Bool → ℕ → FrameHead → ℕ → List ℕ → R Next
  receive_data client max head opcode received =
      if not client && not head.mask
      then fail
      else do len ← read_length head.payload; receive_payload max head opcode received len

  -- `WSPing` and `WSPong`: the head is all that is sent.
  unfoldable pub send_control : ℕ → R (Unit {0})
  send_control code = write_fix_size piece (head_image (control_head code))

  unfoldable pub dispatch : Bool → ℕ → ℕ → List ℕ → FrameHead → R Next
  dispatch client max opcode received head =
      if head.opcode == ping_code
      then send_control pong_code >> return (Next.go_on opcode received)
      else if leb head.opcode bin_frame
      then receive_data client max head opcode received
      else return (Next.go_on opcode received)

  -- One round of the loop of `WSRecvMessage`; a failure is a `break`.
  unfoldable pub receive_frame : Bool → ℕ → ℕ → List ℕ → R Next
  receive_frame client max opcode received = do
    bs ← read_fix_size piece 2
    dispatch client max opcode received (head_value bs)

  -- `WSRecvMessage`, with fuel for the frames; `max` is the configured `websocket.message.max_size`.
  unfoldable pub receive_loop : ℕ → Bool → ℕ → ℕ → List ℕ → R Message
  receive_loop zero client max opcode received s = none
  receive_loop (suc fuel) client max opcode received s =
      after_frame (receive_frame client max opcode received s)
        (λ opcode' received'. receive_loop fuel client max opcode' received')

  unfoldable pub receive : ℕ → Bool → ℕ → R Message
  receive fuel client max = receive_loop fuel client max 0 []

  unfoldable pub write_length : ℕ → ℕ → R (Unit {0})
  write_length payload size =
      if payload == 126
      then write_fix_size piece (image host 2 (byteswap_on_little host 2 (size % 2 ^ 16)))
      else if payload == 127
      then write_fix_size piece (image host 8 (byteswap_on_little host 8 size))
      else return tt

  unfoldable pub write_mask : Bool → List ℕ → R (Unit {0})
  write_mask true key = write_fix_size piece key
  write_mask false key = return tt

  -- The writes of `WSSendMessage`. `key` is the mask that `rand` gives; a client's message keeps
  -- the masked bytes.
  unfoldable pub send_frame : Message → Bool → Bool → List ℕ → R ℕ
  send_frame msg client fin key = do
    write_fix_size piece (head_image (frame_head msg.opcode client fin (length msg.m_data)))
    write_length (payload_code (length msg.m_data)) (length msg.m_data)
    write_mask client key
    write_fix_size piece (unmask client key msg.m_data)
    return (length msg.m_data + 2)

  -- `WSSendMessage`; `none` is its -1.
  unfoldable pub send : Message → Bool → Bool → List ℕ → Stream → Option (Option ℕ × Stream)
  send msg client fin key s = closed_on_failure (send_frame msg client fin key s)
