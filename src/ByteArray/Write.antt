-- ===== src/ByteArray/Write.antt =====
-- `write` as an operation on the flat contents.
use helens.Prelude.{
  ℕ, ◌+◌, ◌%◌, ◌≤◌, max, ◌≡◌, refl, sym, ap, ◌∙◌, some, List, [], ◌∷◌, ◌++◌, arith, length, take,
  flatten, take-append-drop,
}
use helens.Prelude.Slices.{overwrite, splice, take-overwrite, overwrite-append_right}
use helens.ByteArray.{ByteArray, Machine, Chain, done, write, scatter, add_capacity}
use helens.ByteArray.Scatter.{Scattered, scatter_lem}
use helens.ByteArray.Grow.{Reserved, add_capacity_lem}
use helens.ByteArray.Valid.{
  IsValid, Uniform-append_right, Uniform-append_left, memory, contents, flatten-append,
  length-flatten,
}
use helens.ByteArray.Laws.{Kept, offset_lem, position_lem, remaining}

-- `s'` is `s` with `buf` written at the position.
pub record Wrote (buf : List ℕ) (s s' : ByteArray) : Type 0 where
  pub valid : IsValid s'
  pub kept : Kept s s'
  pub position : s'.position ≡ s.position + length buf
  pub contents : contents s' ≡ splice (contents s) s.position buf

-- The state behind the loop of `write`.
stored : ByteArray → List ℕ → Chain → ByteArray
stored s buf c = record s {
  position = s.position + length buf;
  size = max s.size (s.position + length buf);
  before = c.0;
  here = c.1;
}

overwritten :
    (s : ByteArray) (buf : List ℕ) (c : Chain)
    → IsValid s
    → Scattered s.base_size s.before (s.position % s.base_size) buf s.here c
    → flatten (c.0 ++ c.1) ≡ overwrite (memory s) s.position buf
overwritten s buf c v sc =
    sc.written
    ∙ sym
        (overwrite-append_right (flatten s.before) (flatten s.here) (s.position % s.base_size) buf)
    ∙ ap (λ (t : List ℕ). overwrite t (length (flatten s.before) + s.position % s.base_size) buf)
        (sym (flatten-append s.before s.here))
    ∙ ap (λ (t : ℕ). overwrite (memory s) t buf) (sym (position_lem s v))

stored-Wrote :
    (s : ByteArray) (buf : List ℕ) (c : Chain)
    → IsValid s
    → s.position + length buf ≤ s.capacity
    → Scattered s.base_size s.before (s.position % s.base_size) buf s.here c
    → Wrote buf s (stored s buf c)
unfolding stored
stored-Wrote s buf c v fits sc = record {
  valid = record {
    positive = v.positive;
    rooted = rw sc.blocks v.rooted;
    uniform = sc.uniform;
    sized = rw sc.blocks v.sized;
    within = omega arith;
    bounded = omega (arith, v.bounded, fits);
    cursor_low = omega (arith, sc.points, offset_lem s v);
    cursor_high = omega (arith, sc.points, offset_lem s v);
  };
  kept = record { base_size = refl; endian = refl };
  position = refl;
  contents =
      ap (take (max s.size (s.position + length buf))) (overwritten s buf c v sc)
      ∙ take-overwrite (memory s) s.size s.position _ buf v.within refl
          (omega (arith, fits, v.sized, length-flatten s.base_size (s.before ++ s.here) v.uniform));
}

module _ (m : Machine) where
  write-Wrote :
      (b : ℕ) (bs : List ℕ) (s : ByteArray) (c : Chain)
      → Reserved (length (b ∷ bs)) s (add_capacity m (length (b ∷ bs)) s)
      → Wrote
          (b ∷ bs)
          (add_capacity m (length (b ∷ bs)) s)
          (stored (add_capacity m (length (b ∷ bs)) s) (b ∷ bs) c)
      → Wrote (b ∷ bs) s (stored (add_capacity m (length (b ∷ bs)) s) (b ∷ bs) c)
  write-Wrote b bs s c r w = record {
    valid = w.valid;
    kept = record { base_size = w.kept.base_size ∙ r.base_size; endian = w.kept.endian ∙ r.endian };
    position = omega (arith, w.position, r.position);
    contents = w.contents ∙ cc (r.contents, r.position);
  }

  write-stored :
      (b : ℕ) (bs : List ℕ) (s : ByteArray) {c : Chain}
      → let s' = add_capacity m (length (b ∷ bs)) s in
        scatter s'.before (s'.position % s'.base_size) (b ∷ bs) s'.here ≡ some c
        → write m (b ∷ bs) s ≡ done tt (stored (add_capacity m (length (b ∷ bs)) s) (b ∷ bs) c)
  unfolding write stored
  write-stored b bs s runs = rw (runs, write)

  -- `write` returns on every valid state and for every buffer: the buffer replaces the bytes at
  -- the position, the contents grow where it reaches over their end, and the position moves
  -- behind it.
  pub write_lem :
      (buf : List ℕ) (s : ByteArray)
      → IsValid s
      → (s' : ByteArray) × (write m buf s ≡ done tt s') × Wrote buf s s'
  unfolding write
  write_lem [] s v = (
    s,
    refl,
    record {
      valid = v;
      kept = record { base_size = refl; endian = refl };
      position = omega arith;
      contents = sym (take-append-drop s.position (contents s));
    },
  )
  write_lem (b ∷ bs) s v =
      let s' = add_capacity m (length (b ∷ bs)) s in
      let r = add_capacity_lem m (length (b ∷ bs)) s v in
      let (c, sc) =
        scatter_lem s'.base_size s'.before (s'.position % s'.base_size) (b ∷ bs) s'.here
          (Uniform-append_left s'.base_size s'.before s'.here r.valid.uniform)
          (Uniform-append_right s'.base_size s'.before s'.here r.valid.uniform)
          (omega (arith, r.valid.positive))
          (remaining s' (length (b ∷ bs)) r.valid (omega (arith, r.enough, r.position))) in
      (
        stored s' (b ∷ bs) c,
        write-stored b bs s sc.runs,
        write-Wrote b bs s c r
            (stored-Wrote s' (b ∷ bs) c r.valid (omega (arith, r.enough, r.position)) sc),
      )
