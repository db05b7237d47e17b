-- ===== src/ByteArray.antt =====
-- Helens/bytearray.h and bytearray.cc: the chain of memory blocks and the operations on it.
pub mod Valid
pub mod Loops
pub mod Scatter
pub mod Grow
pub mod Laws
pub mod Write
pub mod Position
pub mod Stream
pub mod Tests
use helens.Prelude.{
  ℕ, zero, suc, ◌+◌, ◌-◌, ◌*◌, ◌/◌, ◌%◌, ◌≡◌, Bool, true, false, Option, none, some, List, [], ◌∷◌,
  ◌++◌, if◌then◌else◌, ltb, leb, ◌==◌, length, take, drop, max,
}
use helens.Prelude.Slices.{overwrite, slice}

-- `HELENS_LITTLE_ENDIAN` and `HELENS_BIG_ENDIAN`
pub data Endian : Type 0 where
  little big : Endian

-- The memory of a `Node`, which is its `ptr[0 .. size)`.
abbrev pub Node : Type 0
Node = List ℕ

-- What the program is built and run on: the host's byte order (`HELENS_BYTE_ORDER`), and what
-- stands in the `n`-th block that `new char[size]` returns.
pub record Machine : Type 0 where
  pub host : Endian
  pub block : ℕ → ℕ → Node
  pub length-block : (n size : ℕ) → length (block n size) ≡ size

-- The chain from `m_root` is `before ++ here`; `m_cur` is the first node of `here`, and the null
-- pointer if `here` is empty.
pub record ByteArray : Type 0 where
  pub base_size : ℕ
  pub position : ℕ
  pub capacity : ℕ
  pub size : ℕ
  pub endian : Endian
  pub before : List Node
  pub here : List Node

-- A call returns, throws `std::out_of_range` in a state that is kept, or reads through the null
-- pointer.
pub data Outcome {ℓ} (A : Type ℓ) : Type ℓ where
  done : A → ByteArray → Outcome A
  out_of_range : ByteArray → Outcome A
  fault : Outcome A

abbrev pub M {ℓ} : Type ℓ → Type ℓ
M A = ByteArray → Outcome A

infixl 5 ◌>>=◌ ◌>>◌
abbrev pub ◌>>=◌ {ℓ κ} : {A : Type ℓ} {B : Type κ} → M A → (A → M B) → M B
◌>>=◌ m f s = elim (m s) [ done a s' ↦ f a s' | out_of_range s' ↦ out_of_range s' | fault ↦ fault ]

abbrev pub ◌>>◌ {ℓ κ} : {A : Type ℓ} {B : Type κ} → M A → M B → M B
m >> k = m >>= λ _. k

abbrev pub return {ℓ} : {A : Type ℓ} → A → M A
return a s = done a s

-- `ceil(1.0 * size / m_baseSize)`, exact for sizes that a double holds exactly.
pub ceil_div : ℕ → ℕ → ℕ
ceil_div size base = (size + base - 1) / base

pub is_little_endian : ByteArray → Bool
is_little_endian s = elim s.endian [ little ↦ true | big ↦ false ]

pub set_is_little_endian : Bool → ByteArray → ByteArray
set_is_little_endian val s = record s { endian = if val then little else big }

abbrev pub read_size : ByteArray → ℕ
read_size s = s.size - s.position

-- `getCapacity()`
abbrev pub room : ByteArray → ℕ
room s = s.capacity - s.position

-- The two parts of the chain, as a loop's variables hold them.
abbrev pub Chain : Type 0
Chain = List Node × List Node

-- `if(m_cur->size == npos + size) m_cur = m_cur->next;`, where `n` is the current node.
abbrev pub step_past : List Node → Node → List Node → ℕ → Chain
step_past before n rest end =
    if length n == end then (before ++ n ∷ [], rest) else (before, n ∷ rest)

abbrev pub prepend : List ℕ → Option (List ℕ × Chain) → Option (List ℕ × Chain)
prepend bytes none = none
prepend bytes (some (more, c)) = some (bytes ++ more, c)

-- `m_cur` is null. `m_cur->size` is read before the loops of `read`, also for no bytes.
abbrev pub is_null : List Node → Bool
is_null [] = true
is_null (_ ∷ _) = false

-- The loop of `read`: the bytes, and the chain with `m_cur` moved on. `none` is a null `m_cur`.
pub gather : List Node → ℕ → ℕ → List Node → Option (List ℕ × Chain)
gather before npos zero here = some ([], (before, here))
gather before npos (suc k) [] = none
gather before npos (suc k) (n ∷ rest) =
    let size = suc k in
    let ncap = length n - npos in
    let further = prepend (slice n npos ncap) (gather (before ++ n ∷ []) 0 (size - ncap) rest) in
    if leb size ncap
    then some (slice n npos size, step_past before n rest (npos + size))
    else further

-- The loop of `write`, for a buffer `buf`.
pub scatter : List Node → ℕ → List ℕ → List Node → Option Chain
scatter before npos [] here = some (before, here)
scatter before npos (b ∷ bs) [] = none
scatter before npos (b ∷ bs) (n ∷ rest) =
    let buf = b ∷ bs in
    let ncap = length n - npos in
    let further =
      scatter (before ++ overwrite n npos (take ncap buf) ∷ []) 0 (drop ncap buf) rest in
    if leb (length buf) ncap
    then some (step_past before (overwrite n npos buf) rest (npos + length buf))
    else further

-- The loop of `setPosition`, from `m_root` on.
pub seek : List Node → ℕ → List Node → Option Chain
seek before v [] = none
seek before v (n ∷ rest) =
    let further = seek (before ++ n ∷ []) (v - length n) rest in
    if ltb (length n) v then further else some (step_past before n rest v)

-- `void read(void* buf, size_t size)`
pub read : ℕ → M (List ℕ)
unfolding gather
read n s =
    if ltb (read_size s) n
    then out_of_range s
    else (if is_null s.here
        then fault
        else (elim (gather s.before (s.position % s.base_size) n s.here) [
          | none ↦ fault
          | some (bytes, c) ↦
              done bytes (record s { position = s.position + n; before = c.0; here = c.1 })
        ]))

-- `void read(void* buf, size_t size, size_t position) const`: it starts in the block of `m_cur`.
pub read_at : ℕ → ℕ → M (List ℕ)
unfolding gather
read_at n position s =
    if ltb (s.size - position) n
    then out_of_range s
    else (if is_null s.here
        then fault
        else (elim (gather s.before (position % s.base_size) n s.here) [
          | none ↦ fault
          | some (bytes, _) ↦ done bytes s
        ]))

-- `std::string toString() const`
pub to_string : M (List ℕ)
to_string s = if read_size s == 0 then done [] s else read_at (read_size s) s.position s

-- `void setPosition(size_t v)`
pub set_position : ℕ → M (Unit {0})
unfolding seek
set_position v s =
    if ltb s.capacity v then out_of_range s else (elim (seek [] v (s.before ++ s.here)) [
      | none ↦ fault
      | some c ↦ done tt (record s { position = v; size = max s.size v; before = c.0; here = c.1 })
    ])

-- `void clear()`: the blocks behind `m_root` are deleted.
pub clear : M (Unit {0})
clear s = elim (s.before ++ s.here) [
  | [] ↦ fault
  | root ∷ _ ↦
      done tt
        (record s { position = 0; size = 0; capacity = s.base_size; before = []; here = root ∷ [] })
]

-- `if(old_cap == 0) m_cur = first;` behind the loop that has appended `fresh`.
pub append_blocks : ℕ → List Node → List Node → List Node → Chain
append_blocks zero before here fresh = (before ++ here, fresh)
append_blocks (suc _) before [] fresh = (before ++ fresh, [])
append_blocks (suc _) before (n ∷ rest) fresh = (before, n ∷ rest ++ fresh)

module _ (m : Machine) where
  open m use {block}

  -- `ByteArray(size_t base_size)`
  pub init : ℕ → ByteArray
  init base_size = record {
    base_size = base_size;
    position = 0;
    capacity = base_size;
    size = 0;
    endian = big;
    before = [];
    here = block 0 base_size ∷ [];
  }

  -- `count` new blocks, of which the first is the `k`-th block of the array.
  pub new_blocks : ℕ → ℕ → ℕ → List Node
  new_blocks base k zero = []
  new_blocks base k (suc count) = block k base ∷ new_blocks base (suc k) count

  -- `void addCapacity(size_t size)`
  pub add_capacity : ℕ → ByteArray → ByteArray
  unfolding ceil_div new_blocks append_blocks
  add_capacity n s =
      if n == 0
      then s
      else (if leb n (room s)
          then s
          else (let count = ceil_div (n - room s) s.base_size in
              let fresh = new_blocks s.base_size (length (s.before ++ s.here)) count in
              let c = append_blocks (room s) s.before s.here fresh in
              record s { capacity = s.capacity + count * s.base_size; before = c.0; here = c.1 }))

  -- `void write(const void* buf, size_t size)`
  pub write : List ℕ → M (Unit {0})
  write [] s = done tt s
  write (b ∷ bs) s =
      let buf = b ∷ bs in
      let s' = add_capacity (length buf) s in
      elim (scatter s'.before (s'.position % s'.base_size) buf s'.here) [
        | none ↦ fault
        | some c ↦ done tt (record s' {
          position = s'.position + length buf;
          size = max s'.size (s'.position + length buf);
          before = c.0;
          here = c.1;
        })
      ]
