-- ===== src/Stream/Laws.antt =====
-- `readFixSize` and `writeFixSize` over a connection that moves the bytes in pieces.
use helens.Prelude.{
  ℕ, zero, suc, ◌-◌, ◌^◌, ◌≤◌, ◌<◌, min, ◌≡◌, refl, sym, ap, true, false, none, some, List, [], ◌∷◌,
  ◌++◌, append-nil, append_assoc, arith, length, take, drop, length-drop, take-append-drop, ◌==◌,
}
use helens.Prelude.Slices.{take-append_le, drop-append_le}
use helens.Stream.{
  Stream, R, positive_int, signed_length, got_more, read_loop, read_result, read_fix_size,
  write_loop, write_result, write_fix_size, bind_result, ◌>>=◌,
}

pub bind-some :
    {A B : Type 0} (m : R A) (f : A → R B) {s s' : Stream} {a : A}
    → m s ≡ some (some a, s')
    → (m >>= f) s ≡ f a s'
unfolding ◌>>=◌ bind_result
bind-some m f e = rw e refl

-- A call of `read` or `write` for some bytes moves at least one, and no more than it was asked to.
pub record Moves (piece : ℕ → ℕ) : Type 0 where
  pub some_byte : (n : ℕ) → 0 < n → 0 < piece n
  pub no_more : (n : ℕ) → piece n ≤ n

test-false : (n : ℕ) → 0 < n → (n == 0) ≡ false
test-false n h = ground arith

positive : (n : ℕ) → 0 < n → n < 2 ^ 31 → positive_int n ≡ true
unfolding positive_int
positive n pos small = ground arith

same_length : (n : ℕ) → n < 2 ^ 31 → signed_length n ≡ n
unfolding signed_length
same_length n small = ground arith

module _ (piece : ℕ → ℕ) where
  -- One round that moves `len` of the bytes.
  read_round :
      (fuel len : ℕ) (bs rest : List ℕ)
      → min (piece (length bs)) (length (bs ++ rest)) ≡ len
      → 0 < len
      → len ≤ length bs
      → read_loop piece fuel (length (drop len bs)) (drop len bs ++ rest)
        ≡ some (some (drop len bs), rest)
      → read_loop piece (suc fuel) (length bs) (bs ++ rest) ≡ some (some bs, rest)
  unfolding read_loop got_more
  read_round fuel len bs rest moved pos le ih =
      rw
        (
          test-false (length bs) (omega arith),
          moved,
          test-false len pos,
          left,
          drop-append_le len bs rest le,
          ih,
          take-append_le len bs rest le,
          take-append-drop len bs,
        )
        refl
    where
      left : length bs - len ≡ length (drop len bs)
      left = sym (length-drop len bs)

  write_round :
      (fuel len : ℕ) (buffer outgoing : List ℕ) (writable : ℕ)
      → min (piece (length buffer)) writable ≡ len
      → 0 < len
      → len ≤ length buffer
      → write_loop piece fuel (drop len buffer) (outgoing ++ take len buffer) (writable - len)
        ≡ some (
          true,
          (outgoing ++ take len buffer) ++ drop len buffer,
          writable - len - length (drop len buffer),
        )
      → write_loop piece (suc fuel) buffer outgoing writable
        ≡ some (true, outgoing ++ buffer, writable - length buffer)
  unfolding write_loop
  write_round fuel len buffer outgoing writable moved pos le ih =
      rw
        (
          test-false (length buffer) (omega arith),
          moved,
          test-false len pos,
          ih,
          append_assoc outgoing (take len buffer) (drop len buffer),
          take-append-drop len buffer,
          left,
        )
        refl
    where
      left : writable - len - length (drop len buffer) ≡ writable - length buffer
      left = omega (arith, length-drop len buffer)

module _ (piece : ℕ → ℕ) (moves : Moves piece) where
  read_loop_lem :
      (fuel : ℕ) (bs rest : List ℕ)
      → length bs ≤ fuel
      → read_loop piece fuel (length bs) (bs ++ rest) ≡ some (some bs, rest)
  unfolding read_loop
  read_loop_lem zero [] rest h = refl
  read_loop_lem zero (b ∷ bs) rest h = absurd (omega arith)
  read_loop_lem (suc fuel) [] rest h = refl
  read_loop_lem (suc fuel) (b ∷ bs) rest h =
      let some_byte = moves.some_byte (suc (length bs)) (omega arith) in
      let no_more = moves.no_more (suc (length bs)) in
      let len = min (piece (suc (length bs))) (suc (length (bs ++ rest))) in
      read_round piece fuel len (b ∷ bs) rest refl (omega arith) (omega arith)
        (read_loop_lem fuel (drop len (b ∷ bs)) rest (omega (arith, length-drop len (b ∷ bs))))

  write_loop_lem :
      (fuel : ℕ) (buffer outgoing : List ℕ) (writable : ℕ)
      → length buffer ≤ fuel
      → length buffer ≤ writable
      → write_loop piece fuel buffer outgoing writable
        ≡ some (true, outgoing ++ buffer, writable - length buffer)
  unfolding write_loop
  write_loop_lem zero [] outgoing writable h k =
      rw (append-nil outgoing) (ap (λ (t : ℕ). some (true, outgoing, t)) (omega arith))
  write_loop_lem zero (b ∷ buffer) outgoing writable h k = absurd (omega arith)
  write_loop_lem (suc fuel) [] outgoing writable h k =
      rw (append-nil outgoing) (ap (λ (t : ℕ). some (true, outgoing, t)) (omega arith))
  write_loop_lem (suc fuel) (b ∷ buffer) outgoing writable h k =
      let some_byte = moves.some_byte (suc (length buffer)) (omega arith) in
      let no_more = moves.no_more (suc (length buffer)) in
      let len = min (piece (suc (length buffer))) writable in
      write_round piece fuel len (b ∷ buffer) outgoing writable refl (omega arith) (omega arith) (
        write_loop_lem fuel (drop len (b ∷ buffer)) (outgoing ++ take len (b ∷ buffer))
          (writable - len) (omega (arith, length-drop len (b ∷ buffer)))
          (omega (arith, length-drop len (b ∷ buffer))))

  -- `readFixSize` returns all bytes that it is asked for when the peer sends them, in whatever
  -- pieces they arrive, and leaves what comes behind them.
  pub read_fix_size_lem :
      (s : Stream) (bs rest : List ℕ)
      → s.incoming ≡ bs ++ rest
      → 0 < length bs
      → length bs < 2 ^ 31
      → read_fix_size piece (length bs) s ≡ some (some bs, record s { incoming = rest })
  unfolding read_fix_size read_result
  read_fix_size_lem s bs rest here pos small =
      rw
        (
          same_length (length bs) small,
          here,
          read_loop_lem (length bs) bs rest (omega arith),
          positive (length bs) pos small,
        )
        refl

  -- `writeFixSize` hands all bytes to a peer that takes them.
  pub write_fix_size_lem :
      (s : Stream) (buffer : List ℕ)
      → 0 < length buffer
      → length buffer < 2 ^ 31
      → length buffer ≤ s.writable
      → write_fix_size piece buffer s
        ≡ some (
          some tt,
          record s { outgoing = s.outgoing ++ buffer; writable = s.writable - length buffer },
        )
  unfolding write_fix_size write_result
  write_fix_size_lem s buffer pos small room =
      rw
        (
          write_loop_lem (length buffer) buffer s.outgoing s.writable (omega arith) room,
          positive (length buffer) pos small,
        )
        refl

-- A write of no bytes returns 0, which the callers take for a failure.
pub write_nothing : (piece : ℕ → ℕ) (s : Stream) → write_fix_size piece [] s ≡ some (none, s)
unfolding write_fix_size write_result write_loop positive_int
write_nothing piece s = refl
