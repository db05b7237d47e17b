-- ===== src/ByteArray/Grow.antt =====
-- `addCapacity` as an operation on the chain.
use helens.Prelude.{
  ℕ, zero, suc, ◌+◌, ◌-◌, ◌*◌, ◌≤◌, ◌<◌, ◌≡◌, refl, sym, ap, ◌⊎◌, inl, inr, false, List, [], ◌∷◌,
  ◌++◌, arith, length, length-append, append-nil, append_assoc, Bool-cases, leb, leb→le, ◌==◌,
}
use helens.Prelude.Slices.{take-append_le}
use helens.ByteArray.{
  ByteArray, Machine, Node, room, ceil_div, new_blocks, append_blocks, add_capacity,
}
use helens.ByteArray.Loops.{not_leb}
use helens.ByteArray.Valid.{
  IsValid, Uniform, Uniform-append, contents, flatten-append, length-flatten,
}

-- `s'` is `s` with room for `n` more bytes, and at most a block more than that.
pub record Reserved (n : ℕ) (s s' : ByteArray) : Type 0 where
  pub valid : IsValid s'
  pub enough : s.position + n ≤ s'.capacity
  pub tight : (s'.capacity ≡ s.capacity) ⊎ (s'.capacity < s.position + n + s.base_size)
  pub base_size : s'.base_size ≡ s.base_size
  pub position : s'.position ≡ s.position
  pub size : s'.size ≡ s.size
  pub endian : s'.endian ≡ s.endian
  pub contents : contents s' ≡ contents s

ceil_div_bounds :
    (x base : ℕ)
    → 0 < base
    → 0 < x
    → (x ≤ ceil_div x base * base) × (ceil_div x base * base < x + base)
unfolding ceil_div
ceil_div_bounds x base h k = omega arith

-- The chain behind the loop, when the position is a valid one.
append_blocks_lem :
    (r base position : ℕ) (before here fresh : List Node)
    → position + r ≡ length (before ++ here) * base
    → length before * base ≤ position
    → position < length before * base + base
    → ((append_blocks r before here fresh).0 ++ (append_blocks r before here fresh).1
        ≡ (before ++ here) ++ fresh)
      × (length (append_blocks r before here fresh).0 * base ≤ position)
      × (position < length (append_blocks r before here fresh).0 * base + base)
unfolding append_blocks
append_blocks_lem zero base position before here fresh e lo hi = (refl, omega arith, omega arith)
append_blocks_lem (suc r) base position before [] fresh e lo hi = absurd (
    omega (
      arith,
      ap length (append-nil before),
      ap (λ (t : List Node). length t * base) (append-nil before),
    ))
append_blocks_lem (suc r) base position before (n ∷ rest) fresh e lo hi =
    (sym (append_assoc before (n ∷ rest) fresh), lo, hi)

module _ (m : Machine) where
  open m use {block, length-block}

  Uniform-new_blocks : (base k count : ℕ) → Uniform base (new_blocks m base k count)
  unfolding new_blocks
  Uniform-new_blocks base k zero = tt
  Uniform-new_blocks base k (suc count) =
      (length-block k base, Uniform-new_blocks base (suc k) count)

  length-new_blocks : (base k count : ℕ) → length (new_blocks m base k count) ≡ count
  unfolding new_blocks
  length-new_blocks base k zero = refl
  length-new_blocks base k (suc count) = ap suc (length-new_blocks base (suc k) count)

  reserve : (n : ℕ) (s : ByteArray) → IsValid s → room s < n → Reserved n s (add_capacity m n s)
  unfolding add_capacity
  reserve n s v short =
      rw (some_bytes, too_small)
        (record {
          valid = record {
            positive = v.positive;
            rooted = rw (chain.0, length-append) (omega (arith, v.rooted));
            uniform =
                rw chain.0 (Uniform-append s.base_size _ _ v.uniform (Uniform-new_blocks _ _ _));
            sized = rw chain.0 (
                rw (length-append (s.before ++ s.here), length-new_blocks)
                  (omega (arith, v.sized)));
            within = v.within;
            bounded = omega (arith, v.bounded);
            cursor_low = chain.1;
            cursor_high = chain.2;
          };
          enough = omega (arith, counted.0);
          tight = inr (omega (arith, counted.1, v.within, v.bounded));
          base_size = refl;
          position = refl;
          size = refl;
          endian = refl;
          contents =
              rw (chain.0, flatten-append)
                (take-append_le s.size _ _ (
                  omega (
                    arith,
                    v.bounded,
                    v.sized,
                    length-flatten s.base_size (s.before ++ s.here) v.uniform,
                  )));
        })
    where
      some_bytes : (n == 0) ≡ false
      some_bytes = ground arith

      too_small : leb n (room s) ≡ false
      too_small = ground arith

      count : ℕ
      count = ceil_div (n - room s) s.base_size

      fresh : List Node
      fresh = new_blocks m s.base_size (length (s.before ++ s.here)) count

      counted :
          (n - room s ≤ count * s.base_size) × (count * s.base_size < n - room s + s.base_size)
      counted = ceil_div_bounds (n - room s) s.base_size v.positive (omega (arith, short))

      chain :
          ((append_blocks (room s) s.before s.here fresh).0
              ++ (append_blocks (room s) s.before s.here fresh).1
            ≡ (s.before ++ s.here) ++ fresh)
          × (length (append_blocks (room s) s.before s.here fresh).0 * s.base_size ≤ s.position)
          × (s.position
              < length (append_blocks (room s) s.before s.here fresh).0 * s.base_size + s.base_size)
      chain =
          append_blocks_lem (room s) s.base_size s.position s.before s.here fresh
            (omega (arith, v.within, v.bounded, v.sized)) v.cursor_low v.cursor_high

  -- `addCapacity` makes the room that is asked for and keeps the data and the position.
  pub add_capacity_lem : (n : ℕ) (s : ByteArray) → IsValid s → Reserved n s (add_capacity m n s)
  add_capacity_lem n s v = elim (Bool-cases (leb n (room s))) [
    | inl fits ↦ unchanged (leb→le _ _ fits)
    | inr short ↦ reserve n s v (not_leb _ _ short)
  ]
    where
      same : n ≤ room s → add_capacity m n s ≡ s
      same h = unfold add_capacity in ground arith

      unchanged : n ≤ room s → Reserved n s (add_capacity m n s)
      unchanged h = rw (same h) (record {
        valid = v;
        enough = omega (arith, v.within, v.bounded);
        tight = inl refl;
        base_size = refl;
        position = refl;
        size = refl;
        endian = refl;
        contents = refl;
      })
