-- ===== src/ByteArray/Valid.antt =====
-- The invariant of a byte array, and the flat view that its clients have of it.
use helens.Prelude.{
  ℕ, ◌+◌, ◌*◌, ◌≤◌, ◌<◌, ◌≡◌, refl, sym, ap, ◌∙◌, append_assoc, List, [], ◌∷◌, ◌++◌, arith, length,
  take, flatten, length-append,
}
use helens.ByteArray.{ByteArray, Node}

-- Every block has the base size.
abbrev pub Uniform : ℕ → List Node → Type 0
Uniform base [] = Unit {0}
Uniform base (n ∷ ns) = (length n ≡ base) × Uniform base ns

pub record IsValid (s : ByteArray) : Type 0 where
  pub positive : 0 < s.base_size
  pub rooted : 0 < length (s.before ++ s.here)
  pub uniform : Uniform s.base_size (s.before ++ s.here)
  pub sized : s.capacity ≡ length (s.before ++ s.here) * s.base_size
  pub within : s.position ≤ s.size
  pub bounded : s.size ≤ s.capacity
  pub cursor_low : length s.before * s.base_size ≤ s.position
  pub cursor_high : s.position < length s.before * s.base_size + s.base_size

-- All the memory of the chain, and the part of it that holds data.
abbrev pub memory : ByteArray → List ℕ
memory s = flatten (s.before ++ s.here)

abbrev pub contents : ByteArray → List ℕ
contents s = take s.size (memory s)

pub flatten-append : (ns ms : List Node) → flatten (ns ++ ms) ≡ flatten ns ++ flatten ms
unfolding flatten
flatten-append [] ms = refl
flatten-append (n ∷ ns) ms =
    ap (◌++◌ n) (flatten-append ns ms) ∙ sym (append_assoc n (flatten ns) (flatten ms))

pub length-flatten :
    (base : ℕ) (ns : List Node) → Uniform base ns → length (flatten ns) ≡ length ns * base
unfolding flatten
length-flatten base [] u = omega arith
length-flatten base (n ∷ ns) u =
    omega (arith, length-append n (flatten ns), length-flatten base ns u.1)

pub Uniform-append_right :
    (base : ℕ) (ns ms : List Node) → Uniform base (ns ++ ms) → Uniform base ms
Uniform-append_right base [] ms u = u
Uniform-append_right base (n ∷ ns) ms u = Uniform-append_right base ns ms u.1

pub Uniform-append_left : (base : ℕ) (ns ms : List Node) → Uniform base (ns ++ ms) → Uniform base ns
Uniform-append_left base [] ms u = tt
Uniform-append_left base (n ∷ ns) ms u = (u.0, Uniform-append_left base ns ms u.1)

pub Uniform-append :
    (base : ℕ) (ns ms : List Node) → Uniform base ns → Uniform base ms → Uniform base (ns ++ ms)
Uniform-append base [] ms u v = v
Uniform-append base (n ∷ ns) ms u v = (u.0, Uniform-append base ns ms u.1 v)
