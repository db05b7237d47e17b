-- ===== src/ByteArray/Laws.antt =====
-- `read` as an operation on the flat contents.
use native.Mathlib.Nat.{mul-add-mod_self_right, mod-eq_of_lt, mod-lt}
use helens.Prelude.{
  ℕ, ◌+◌, ◌-◌, ◌*◌, ◌%◌, ◌≤◌, [], ◌∷◌, ◌<◌, length-take, length-drop, ◌≡◌, ◌↔◌, inl, inr, true,
  Bool-cases, drop, ◌==◌, ==_iff, refl, sym, ap, ◌∙◌, false, List, arith, length, flatten,
  length-append, ltb,
}
use helens.Prelude.Slices.{
  slice, slice-append_right, slice-take, take_of_length-le, drop_of_length-le,
}
use helens.ByteArray.{ByteArray, Node, is_null, to_string, read_at, fault, done, read_size, read}
use helens.ByteArray.Loops.{gather_lem}
use helens.ByteArray.Valid.{
  IsValid, Uniform-append_right, Uniform-append_left, memory, contents, flatten-append,
  length-flatten,
}

-- The offset in the current block.
pub offset_lem :
    (s : ByteArray)
    → IsValid s
    → length s.before * s.base_size + s.position % s.base_size ≡ s.position
offset_lem s v = omega (arith, offset)
  where
    start : ℕ
    start = length s.before * s.base_size

    offset : s.position % s.base_size ≡ s.position - start
    offset =
        ap (λ (t : ℕ). t % s.base_size) (omega (arith, v.cursor_low))
        ∙ mul-add-mod_self_right (length s.before) s.base_size (s.position - start)
        ∙ mod-eq_of_lt (omega (arith, v.cursor_high, v.positive))

-- What a call leaves as it was.
pub record Kept (s s' : ByteArray) : Type 0 where
  pub base_size : s'.base_size ≡ s.base_size
  pub endian : s'.endian ≡ s.endian

-- `s'` is `s` with the position `n` bytes on.
pub record ReadOn (n : ℕ) (s s' : ByteArray) : Type 0 where
  pub valid : IsValid s'
  pub kept : Kept s s'
  pub position : s'.position ≡ s.position + n
  pub size : s'.size ≡ s.size
  pub contents : contents s' ≡ contents s

-- Where the position stands in the whole memory.
pub position_lem :
    (s : ByteArray) → IsValid s → s.position ≡ length (flatten s.before) + s.position % s.base_size
position_lem s v =
    sym (offset_lem s v)
    ∙ ap (λ (t : ℕ). t + s.position % s.base_size)
        (sym (
          length-flatten s.base_size s.before
            (Uniform-append_left s.base_size s.before s.here v.uniform)))

slice-contents :
    (s : ByteArray) (n : ℕ)
    → IsValid s
    → s.position + n ≤ s.size
    → slice (flatten s.here) (s.position % s.base_size) n ≡ slice (contents s) s.position n
slice-contents s n v le =
    sym (slice-append_right (flatten s.before) (flatten s.here) (s.position % s.base_size) n)
    ∙ ap (λ (t : List ℕ). slice t (length (flatten s.before) + s.position % s.base_size) n)
        (sym (flatten-append s.before s.here))
    ∙ ap (λ (t : ℕ). slice (memory s) t n) (sym (position_lem s v))
    ∙ sym (slice-take (memory s) s.size s.position n le)

-- The bytes from the current block on.
pub remaining :
    (s : ByteArray) (n : ℕ)
    → IsValid s
    → s.position + n ≤ s.capacity
    → s.position % s.base_size + n ≤ length s.here * s.base_size
remaining s n v le = omega (
  arith,
  offset_lem s v,
  v.sized,
  ap (λ (t : ℕ). t * s.base_size) (length-append s.before s.here),
)

-- `m_cur` is null only at the very end of the chain.
pub is_null_iff : (s : ByteArray) → IsValid s → (is_null s.here ≡ true) ↔ (s.position ≡ s.capacity)
is_null_iff s v = (to s.here refl, from s.here refl)
  where
    whole :
        (here : List Node)
        → s.here ≡ here
        → s.capacity ≡ (length s.before + length here) * s.base_size
    whole here e =
        v.sized
        ∙ ap (λ (t : ℕ). t * s.base_size) (length-append s.before s.here)
        ∙ ap (λ (t : List Node). (length s.before + length t) * s.base_size) e

    to : (here : List Node) → s.here ≡ here → is_null here ≡ true → s.position ≡ s.capacity
    to [] e h = omega (arith, whole [] e, v.cursor_low, v.within, v.bounded)
    to (n ∷ ns) e h = cc

    from : (here : List Node) → s.here ≡ here → s.position ≡ s.capacity → is_null here ≡ true
    from [] e h = refl
    from (n ∷ ns) e h = absurd (omega (arith, whole (n ∷ ns) e, v.cursor_high))

current : (s : ByteArray) → IsValid s → s.position < s.capacity → is_null s.here ≡ false
current s v h = elim (Bool-cases (is_null s.here)) [
  | inl null ↦ absurd (omega (arith, (is_null_iff s v).0 null))
  | inr there ↦ there
]

-- `read` returns the next `n` bytes and moves the position behind them.
pub read_lem :
    (n : ℕ) (s : ByteArray)
    → IsValid s
    → s.position + n ≤ s.size
    → s.position < s.capacity
    → (s' : ByteArray) × (read n s ≡ done (slice (contents s) s.position n) s') × ReadOn n s s'
unfolding read
read_lem n s v le before_end =
    let (c, e, same, pts) =
      gather_lem s.base_size s.before (s.position % s.base_size) n s.here
        (Uniform-append_right s.base_size s.before s.here v.uniform) (omega (arith, v.positive))
        (remaining s n v (omega (arith, v.bounded, le))) in
    (
      record s { position = s.position + n; before = c.0; here = c.1 },
      rw (enough, current s v before_end, e)
          (ap
            (λ (t : List ℕ).
              done t (record s { position = s.position + n; before = c.0; here = c.1 }))
            (slice-contents s n v le)),
      record {
        valid = record {
          positive = v.positive;
          rooted = rw same v.rooted;
          uniform = rw same v.uniform;
          sized = rw same v.sized;
          within = le;
          bounded = v.bounded;
          cursor_low = omega (arith, pts.0, offset_lem s v);
          cursor_high = omega (arith, pts.1, offset_lem s v);
        };
        kept = record { base_size = refl; endian = refl };
        position = refl;
        size = refl;
        contents = rw same;
      },
    )
  where
    enough : ltb (read_size s) n ≡ false
    enough = ground (arith, v.within, le)

-- A read of no bytes at the end of the chain goes through the null pointer, in every valid state
-- whose data fill the capacity.
pub read_end_faults : (s : ByteArray) → IsValid s → s.position ≡ s.capacity → read 0 s ≡ fault
unfolding read
read_end_faults s v e = rw (nothing, (is_null_iff s v).1 e)
  where
    nothing : ltb (read_size s) 0 ≡ false
    nothing = ground arith

-- The positioned `read` takes its bytes at the offset of `position` in the block of `m_cur`,
-- whichever block `position` itself lies in.
pub read_at_lem :
    (n position : ℕ) (s : ByteArray)
    → IsValid s
    → position + n ≤ s.size
    → position % s.base_size + n ≤ length s.here * s.base_size
    → s.position < s.capacity
    → read_at n position s
      ≡ done (slice (memory s) (length s.before * s.base_size + position % s.base_size) n) s
unfolding read_at
read_at_lem n position s v le room before_end =
    let (c, e, _, _) =
      gather_lem s.base_size s.before (position % s.base_size) n s.here
        (Uniform-append_right s.base_size s.before s.here v.uniform) (mod-lt position v.positive)
        room in
    rw (enough, current s v before_end, e)
      (ap (λ (t : List ℕ). done t s)
        (sym (slice-append_right (flatten s.before) (flatten s.here) (position % s.base_size) n)
          ∙ ap (λ (t : List ℕ). slice t (length (flatten s.before) + position % s.base_size) n)
              (sym (flatten-append s.before s.here))
          ∙ ap (λ (t : ℕ). slice (memory s) (t + position % s.base_size) n)
              (length-flatten s.base_size s.before
                (Uniform-append_left s.base_size s.before s.here v.uniform))))
  where
    enough : ltb (s.size - position) n ≡ false
    enough = ground (arith, le)

-- `toString` is the data from the position on, and moves nothing.
pub to_string_lem :
    (s : ByteArray) → IsValid s → to_string s ≡ done (drop s.position (contents s)) s
unfolding to_string
to_string_lem s v = elim (Bool-cases (read_size s == 0)) [
  | inl none_left ↦ rw none_left (
      ap (λ (t : List ℕ). done t s)
        (sym (
          drop_of_length-le s.position (contents s)
            (omega (arith, held, (==_iff _ _).0 none_left)))))
  | inr some_left ↦
      let left : 0 < read_size s = ground arith in
      rw
        (
          some_left,
          read_at_lem (read_size s) s.position s v (omega arith)
              (remaining s (read_size s) v (omega arith)) (omega arith),
          offset_lem s v,
        )
        (ap (λ (t : List ℕ). done t s)
          (sym (slice-take (memory s) s.size s.position (read_size s) (omega arith))
            ∙ take_of_length-le (read_size s) (drop s.position (contents s))
                (omega (arith, length-drop s.position (contents s), held))))
]
  where
    held : length (contents s) ≤ s.size
    held = omega (arith, length-take s.size (memory s))
