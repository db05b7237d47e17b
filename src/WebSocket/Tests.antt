-- ===== src/WebSocket/Tests.antt =====
-- Runs of the frames at concrete inputs.
use helens.Prelude.{ℕ, ◌≡◌, refl, true, false, some, List, [], ◌∷◌, ◌++◌, arith, min}
use helens.ByteArray.{little}
use helens.Stream.{Stream, read_fix_size}
use helens.Stream.Laws.{Moves, read_fix_size_lem}
use helens.Stream.Exchange.{sent}
use helens.WebSocket.{Message, send, receive}
use helens.WebSocket.RoundTrip.{send_then_receive}

-- A connection that moves at most three bytes at a time.
abbrev three : ℕ → ℕ
three n = min 3 n

three-Moves : Moves three
three-Moves = record { some_byte = λ n h. omega arith; no_more = λ n. omega arith }

abbrev quiet : Stream
quiet = record { incoming = []; outgoing = []; writable = 100; closed = false }

abbrev ready : Stream
ready = record quiet { incoming = 1 ∷ 2 ∷ 3 ∷ 4 ∷ 5 ∷ 6 ∷ [] }

abbrev hello : Message
hello = record { opcode = 1; m_data = 104 ∷ 101 ∷ 108 ∷ 108 ∷ 111 ∷ [] }

abbrev key : List ℕ
key = 55 ∷ 250 ∷ 33 ∷ 61 ∷ []

read_fix_size_lem_example :
    read_fix_size three 5 ready
    ≡ some (some (1 ∷ 2 ∷ 3 ∷ 4 ∷ 5 ∷ []), record ready { incoming = 6 ∷ [] })
read_fix_size_lem_example =
    read_fix_size_lem three three-Moves ready (1 ∷ 2 ∷ 3 ∷ 4 ∷ 5 ∷ []) (6 ∷ []) refl (omega arith)
      (omega arith)

send_then_receive_example :
    (out : List ℕ) × (send three little hello true true key quiet ≡ some (some 7, sent out quiet))
    × (receive three little 1 false 100 (record quiet { incoming = out ++ 9 ∷ [] })
        ≡ some (some hello, record quiet { incoming = 9 ∷ [] }))
send_then_receive_example =
    send_then_receive three three-Moves little hello true key (9 ∷ []) 100 0 quiet quiet
      (omega arith) (omega arith) (omega arith) refl (omega arith) (omega arith) (omega arith)
