-- ===== src/Stream/Exchange.antt =====
-- Computations that send given bytes, and those that take given bytes and return a value.
use helens.Prelude.{
  ℕ, ◌-◌, ◌^◌, ◌≤◌, ◌<◌, ◌≡◌, refl, sym, ap, ◌∙◌, none, some, List, [], ◌++◌, append-nil,
  append_assoc, arith, length, length-append,
}
use helens.Stream.{Stream, R, bind_result, return, ◌>>=◌, read_fix_size, write_fix_size}
use helens.Stream.Laws.{Moves, bind-some, read_fix_size_lem, write_fix_size_lem}

abbrev pub sent : List ℕ → Stream → Stream
sent ys s = record s { outgoing = s.outgoing ++ ys; writable = s.writable - length ys }

-- To every peer that takes so many bytes `m` sends `ys`, and returns `a`.
abbrev pub Sends : {A : Type 0} → R A → List ℕ → A → Type 0
Sends m ys a = (s : Stream) → length ys ≤ s.writable → m s ≡ some (some a, sent ys s)

-- Wherever `ys` come in, `m` takes them and returns `a`.
abbrev pub Takes : {A : Type 0} → R A → List ℕ → A → Type 0
Takes m ys a =
    (s : Stream) (rest : List ℕ)
    → s.incoming ≡ ys ++ rest
    → m s ≡ some (some a, record s { incoming = rest })

sent-sent : (xs ys : List ℕ) (s : Stream) → sent ys (sent xs s) ≡ sent (xs ++ ys) s
sent-sent xs ys s = rw (append_assoc s.outgoing xs ys, left) refl
  where
    left : s.writable - length xs - length ys ≡ s.writable - length (xs ++ ys)
    left = omega (arith, length-append xs ys)

pub then-Sends :
    {A B : Type 0} (m : R A) (f : A → R B) (xs ys : List ℕ) (a : A) (b : B)
    → Sends m xs a
    → Sends (f a) ys b
    → Sends (m >>= f) (xs ++ ys) b
then-Sends m f xs ys a b h k s room =
    bind-some m f (h s (omega (arith, length-append xs ys)))
    ∙ k (sent xs s) (omega (arith, length-append xs ys))
    ∙ ap (λ t. some (some b, t)) (sent-sent xs ys s)

-- `m` sends `xs` and then fails.
abbrev pub Breaks : {A : Type 0} → R A → List ℕ → Type 0
Breaks m xs = (s : Stream) → length xs ≤ s.writable → m s ≡ some (none, sent xs s)

pub then-Breaks :
    {A B : Type 0} (m : R A) (f : A → R B) (xs ys : List ℕ) (a : A)
    → Sends m xs a
    → Breaks (f a) ys
    → Breaks (m >>= f) (xs ++ ys)
then-Breaks m f xs ys a h k s room =
    bind-some m f (h s (omega (arith, length-append xs ys)))
    ∙ k (sent xs s) (omega (arith, length-append xs ys))
    ∙ ap (λ t. some (none, t)) (sent-sent xs ys s)

pub Breaks-then :
    {A B : Type 0} (m : R A) (f : A → R B) (xs : List ℕ) → Breaks m xs → Breaks (m >>= f) xs
unfolding ◌>>=◌ bind_result
Breaks-then m f xs h s room = rw (h s room) refl

sent_none : (s : Stream) → s ≡ sent [] s
sent_none s = rw (append-nil s.outgoing) (ap (λ (t : ℕ). record s { writable = t }) (omega arith))

pub fails-Breaks : {A : Type 0} (m : R A) → ((s : Stream) → m s ≡ some (none, s)) → Breaks m []
fails-Breaks m h s room = h s ∙ ap (λ t. some (none, t)) (sent_none s)

pub return-Sends : {A : Type 0} (a : A) → Sends (return a) [] a
unfolding return
return-Sends a s room = ap (λ t. some (some a, t)) (sent_none s)

pub then-Takes :
    {A B : Type 0} (m : R A) (f : A → R B) (xs ys : List ℕ) (a : A) (b : B)
    → Takes m xs a
    → Takes (f a) ys b
    → Takes (m >>= f) (xs ++ ys) b
then-Takes m f xs ys a b h k s rest here =
    bind-some m f (h s (ys ++ rest) (here ∙ append_assoc xs ys rest))
    ∙ k (record s { incoming = ys ++ rest }) rest refl

pub return-Takes : {A : Type 0} (a : A) → Takes (return a) [] a
unfolding return
return-Takes a s rest here = ap (λ t. some (some a, record s { incoming = t })) here

module _ (piece : ℕ → ℕ) (moves : Moves piece) where
  pub read_fix_size-Takes :
      (n : ℕ) (ys : List ℕ)
      → length ys ≡ n
      → 0 < n
      → n < 2 ^ 31
      → Takes (read_fix_size piece n) ys ys
  read_fix_size-Takes n ys e pos small s rest here =
      ap (λ (t : ℕ). read_fix_size piece t s) (sym e)
      ∙ read_fix_size_lem piece moves s ys rest here (omega arith) (omega arith)

  pub write_fix_size-Sends :
      (ys : List ℕ) → 0 < length ys → length ys < 2 ^ 31 → Sends (write_fix_size piece ys) ys tt
  write_fix_size-Sends ys pos small s room = write_fix_size_lem piece moves s ys pos small room
