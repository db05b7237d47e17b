-- ===== src/ByteArray/Stream.antt =====
-- A byte array as a stream: what is still to be read.
use helens.Prelude.{
  ℕ, ◌+◌, ◌≤◌, ◌<◌, ◌≡◌, ap, ◌∙◌, List, ◌++◌, arith, length, take, drop, length-append, length-take,
  length-drop,
}
use helens.Prelude.Slices.{
  take-append_le, drop-append_le, take_of_length-le, drop_of_length-le, drop-drop, drop-splice,
}
use helens.ByteArray.{ByteArray, Endian, done, ◌>>=◌, ◌>>◌, M, read, set_position}
use helens.ByteArray.Laws.{ReadOn, read_lem}
use helens.ByteArray.Write.{Wrote}
use helens.ByteArray.Position.{Moved, set_position_lem}
use helens.ByteArray.Valid.{IsValid, contents, memory, length-flatten}

-- The bytes from the position to the end of the data are `bytes`.
pub record Upcoming (endian : Endian) (bytes : List ℕ) (s : ByteArray) : Type 0 where
  pub valid : IsValid s
  pub order : s.endian ≡ endian
  pub next : drop s.position (contents s) ≡ bytes

-- A call of `m` takes `buf` off the stream and returns `a`.
abbrev pub Takes {ℓ} : {A : Type ℓ} → Endian → M A → List ℕ → A → Type ℓ
Takes e m buf a =
    (rest : List ℕ) (s : ByteArray)
    → Upcoming e (buf ++ rest) s
    → (s' : ByteArray) × (m s ≡ done a s') × Upcoming e rest s'

pub length-contents : (s : ByteArray) → IsValid s → length (contents s) ≡ s.size
length-contents s v = omega (
  arith,
  length-take s.size (memory s),
  length-flatten s.base_size (s.before ++ s.here) v.uniform,
  v.sized,
  v.bounded,
)

ReadOn-Upcoming :
    (e : Endian) (buf rest : List ℕ) (s s' : ByteArray)
    → Upcoming e (buf ++ rest) s
    → ReadOn (length buf) s s'
    → Upcoming e rest s'
ReadOn-Upcoming e buf rest s s' u on = record {
  valid = on.valid;
  order = on.kept.endian ∙ u.order;
  next =
      ap (λ (t : ℕ). drop t (contents s')) on.position
      ∙ ap (drop (s.position + length buf)) on.contents
      ∙ drop-drop s.position (length buf) (contents s)
      ∙ ap (drop (length buf)) u.next
      ∙ drop-append_le (length buf) buf rest (omega arith)
      ∙ ap (λ (t : List ℕ). t ++ rest) (drop_of_length-le (length buf) buf (omega arith));
}

-- `read` takes any bytes, but not none: see `ByteArray.Laws.read_end_faults`.
pub read-Takes : (e : Endian) (buf : List ℕ) → 0 < length buf → Takes e (read (length buf)) buf buf
read-Takes e buf some_bytes rest s u =
    let (s', ran, on) =
      read_lem (length buf) s u.valid (omega (arith, enough))
        (omega (arith, enough, u.valid.bounded)) in
    (
      s',
      ran
          ∙ ap (λ (t : List ℕ). done t s')
              (ap (take (length buf)) u.next
                ∙ take-append_le (length buf) buf rest (omega arith)
                ∙ take_of_length-le (length buf) buf (omega arith)),
      ReadOn-Upcoming e buf rest s s' u on,
    )
  where
    enough : s.position + length buf ≤ s.size
    enough = omega (
      arith,
      length-contents s u.valid,
      length-drop s.position (contents s),
      ap length u.next,
      length-append buf rest,
    )

-- After a write, going back to where it began.
pub rewind_lem :
    (buf : List ℕ) (s s' : ByteArray)
    → IsValid s
    → Wrote buf s s'
    → (s'' : ByteArray) × (set_position s.position s' ≡ done tt s'')
      × Upcoming s.endian (buf ++ drop (length buf) (drop s.position (contents s))) s''
rewind_lem buf s s' v w =
    let (s'', ran, moved) =
      set_position_lem s.position s' w.valid
        (omega (arith, w.position, w.valid.within, w.valid.bounded)) in
    (
      s'',
      ran,
      record {
        valid = moved.valid;
        order = moved.kept.endian ∙ w.kept.endian;
        next = next s'' moved;
      },
    )
  where
    next :
        (s'' : ByteArray)
        → Moved s.position s' s''
        → drop s''.position (contents s'') ≡ buf ++ drop (length buf) (drop s.position (contents s))
    next s'' moved =
        ap (λ (t : ℕ). drop t (contents s'')) moved.position
        ∙ ap (λ (t : List ℕ). drop s.position (take s''.size t)) moved.memory
        ∙ ap (λ (t : ℕ). drop s.position (take t (memory s')))
            (omega (arith, moved.size, w.position, w.valid.within))
        ∙ ap (drop s.position) w.contents
        ∙ drop-splice (contents s) s.position buf (omega (arith, length-contents s v, v.within))

pub bind-done {ℓ κ} :
    {A : Type ℓ} {B : Type κ} (m : M A) (f : A → M B) {a : A} {s s' : ByteArray}
    → m s ≡ done a s'
    → (m >>= f) s ≡ f a s'
bind-done m f e = rw (e, ◌>>=◌)

-- A writer that puts `buf` at the position and a reader that takes it: what was written is read
-- back after `setPosition` to where the write began.
pub round_trip {ℓ} :
    {A : Type ℓ} (writer : M (Unit {0})) (reader : M A) (buf : List ℕ) (a : A) (s : ByteArray)
    → IsValid s
    → (s' : ByteArray) × (writer s ≡ done tt s') × Wrote buf s s'
    → Takes s.endian reader buf a
    → (s' : ByteArray) × ((do writer; set_position s.position; reader) s ≡ done a s') × IsValid s'
round_trip writer reader buf a s v (s1, ran1, w) takes =
    let (s2, ran2, u) = rewind_lem buf s s1 v w in
    let (s3, ran3, u') = takes (drop (length buf) (drop s.position (contents s))) s2 u in
    (s3, bind-done writer _ ran1 ∙ bind-done (set_position s.position) _ ran2 ∙ ran3, u'.valid)
