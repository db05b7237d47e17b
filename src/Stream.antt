-- ===== src/Stream.antt =====
-- Helens/stream.cc: `readFixSize` and `writeFixSize` on a buffer. `read` and `write` are virtual:
-- one call moves at most `piece n` of `n` bytes, and none when the peer has closed.
pub mod Laws
pub mod Exchange
use helens.Prelude.{
  ℕ, zero, suc, ◌+◌, ◌-◌, ◌%◌, ◌^◌, min, Bool, true, false, ◌&&◌, Option, none, some, List, [], ◌∷◌,
  ◌++◌, length, take, drop, ltb, leb, ◌==◌, if◌then◌else◌,
}

-- The bytes that the peer will still send, those it got, and how many more it will take.
pub record Stream : Type 0 where
  pub incoming : List ℕ
  pub outgoing : List ℕ
  pub writable : ℕ
  pub closed : Bool

-- A computation on a stream: `none` is fuel that ran out, and a result `none` a failure.
abbrev pub R : Type 0 → Type 0
R A = Stream → Option (Option A × Stream)

unfoldable pub return : {A : Type 0} → A → R A
return a s = some (some a, s)

unfoldable pub fail : {A : Type 0} → R A
fail s = some (none, s)

pub bind_result :
    {A B : Type 0} → Option (Option A × Stream) → (A → R B) → Option (Option B × Stream)
bind_result none f = none
bind_result (some (none, s)) f = some (none, s)
bind_result (some (some a, s)) f = f a s

infixl 30 ◌>>=◌
unfoldable pub ◌>>=◌ : {A B : Type 0} → R A → (A → R B) → R B
(m >>= f) s = bind_result (m s) f

infixl 30 ◌>>◌
unfoldable pub ◌>>◌ : {A B : Type 0} → R A → R B → R B
m >> k = m >>= (λ _. k)

-- Whether the `int` that a 64-bit length is returned as is positive.
unfoldable pub positive_int : ℕ → Bool
positive_int n = ltb 0 (n % 2 ^ 32) && ltb (n % 2 ^ 32) (2 ^ 31)

-- A length that is negative as an `int64_t` moves nothing.
unfoldable pub signed_length : ℕ → ℕ
signed_length n = if ltb n (2 ^ 63) then n else 0

pub got_more : List ℕ → Option (Option (List ℕ) × List ℕ) → Option (Option (List ℕ) × List ℕ)
got_more bs none = none
got_more bs (some (none, rest)) = some (none, rest)
got_more bs (some (some more, rest)) = some (some (bs ++ more), rest)

module _ (piece : ℕ → ℕ) where
  -- `while(left > 0)`, with fuel for the rounds; the bytes read, and those that are left
  pub read_loop : ℕ → ℕ → List ℕ → Option (Option (List ℕ) × List ℕ)
  read_loop zero left incoming = if left == 0 then some (some [], incoming) else none
  read_loop (suc fuel) left incoming =
      let len = min (piece left) (length incoming) in
      let more = got_more (take len incoming) (read_loop fuel (left - len) (drop len incoming)) in
      if left == 0
      then some (some [], incoming)
      else if len == 0
      then some (none, incoming)
      else more

  pub read_result :
      ℕ → Stream → Option (Option (List ℕ) × List ℕ) → Option (Option (List ℕ) × Stream)
  read_result n s none = none
  read_result n s (some (none, rest)) = some (none, record s { incoming = rest })
  read_result n s (some (some bs, rest)) =
      some (if positive_int n then some bs else none, record s { incoming = rest })

  -- `readFixSize(buffer, n) <= 0` is a failure, as its callers have it.
  pub read_fix_size : ℕ → R (List ℕ)
  read_fix_size n s = read_result n s (read_loop (signed_length n) (signed_length n) s.incoming)

  -- What the loop of `writeFixSize` has written, how much the peer takes after it, and whether all
  -- was written.
  pub write_loop : ℕ → List ℕ → List ℕ → ℕ → Option (Bool × List ℕ × ℕ)
  write_loop zero buffer outgoing writable =
      if length buffer == 0 then some (true, outgoing, writable) else none
  write_loop (suc fuel) buffer outgoing writable =
      let len = min (piece (length buffer)) writable in
      let more = write_loop fuel (drop len buffer) (outgoing ++ take len buffer) (writable - len) in
      if length buffer == 0
      then some (true, outgoing, writable)
      else if len == 0
      then some (false, outgoing, writable)
      else more

  pub write_result : ℕ → Stream → Option (Bool × List ℕ × ℕ) → Option (Option (Unit {0}) × Stream)
  write_result n s none = none
  write_result n s (some (false, out, left)) =
      some (none, record s { outgoing = out; writable = left })
  write_result n s (some (true, out, left)) =
      some (if positive_int n then some tt else none, record s { outgoing = out; writable = left })

  -- `writeFixSize(buffer, length) <= 0` is a failure.
  pub write_fix_size : List ℕ → R (Unit {0})
  write_fix_size buffer s =
      write_result (length buffer) s (write_loop (length buffer) buffer s.outgoing s.writable)

pub close : Stream → Stream
close s = record s { closed = true }
