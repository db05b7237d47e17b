-- ===== src/Bitmap/Positions/Passing.antt =====
-- Indices that pass a test, and when a test reads the bits of the words of a bitmap.
use helens.Prelude.{
  ℕ, zero, suc, ◌+◌, ◌*◌, ◌/◌, ◌%◌, ◌≤◌, ◌<◌, ◌≡◌, refl, sym, ap, ◌∙◌, Bool, true, false, none,
  some, List, [], ◌∷◌, ◌++◌, append_assoc, arith, length, length-append, get_elem?, replicate,
  subst, if◌then◌else◌, Bool-cases, inl, inr,
}
use helens.Bitmap.{Bitmap, get}
use helens.Bitmap.Bits.{bit-zero, bit_test}
use helens.Bitmap.Laws.{has_bit, get_at}
use helens.Bitmap.Compressed.Operators.{get_middle}

-- The numbers from `p` on, `n` of them, that pass a test.
abbrev pub passing : (ℕ → Bool) → ℕ → ℕ → List ℕ
passing f zero p = []
passing f (suc n) p = if f p then p ∷ passing f n (suc p) else passing f n (suc p)

pub passing_at : (f : ℕ → Bool) {m n p q : ℕ} → m ≡ n → p ≡ q → passing f m p ≡ passing f n q
passing_at f {m} {n} {p} {q} e e' =
    ap (λ (t : ℕ). passing f t p) e ∙ ap (λ (t : ℕ). passing f n t) e'

pub passing_first :
    (f : ℕ → Bool) (n p : ℕ) → f p ≡ true → passing f (suc n) p ≡ p ∷ passing f n (suc p)
passing_first f n p e = rw (e) refl

pub passing_next :
    (f : ℕ → Bool) (n p : ℕ) → f p ≡ false → passing f (suc n) p ≡ passing f n (suc p)
passing_next f n p e = rw (e) refl

pub passing-add :
    (f : ℕ → Bool) (m n p : ℕ) → passing f (m + n) p ≡ passing f m p ++ passing f n (p + m)
passing-add f zero n p = passing_at f (omega arith) (omega arith)
passing-add f (suc m) n p =
    let rest : passing f (m + n) (suc p) ≡ passing f m (suc p) ++ passing f n (p + suc m) =
      passing-add f m n (suc p)
      ∙ ap (λ l. passing f m (suc p) ++ l) (passing_at f refl (omega arith)) in
    passing_at f {n = suc (m + n)} (omega arith) refl
    ∙ elim (Bool-cases (f p)) [ inl e ↦ rw (e) (ap (◌∷◌ p) rest) | inr e ↦ rw (e) rest ]

pub passing_none :
    (f : ℕ → Bool) (n p : ℕ) → ((k : ℕ) → k < n → f (p + k) ≡ false) → passing f n p ≡ []
passing_none f zero p h = refl
passing_none f (suc n) p h =
    let here : f p ≡ false = ap f {y = p + 0} (omega arith) ∙ h 0 (omega arith) in
    passing_next f n p here
    ∙ passing_none f n (suc p)
        (λ k lt. ap f {y = p + suc k} (omega arith) ∙ h (suc k) (omega arith))

-- The test agrees with the bits of a word, from bit `n` on.
abbrev pub Reads : (ℕ → Bool) → ℕ → ℕ → ℕ → ℕ → Type 0
Reads f rounds n p w = (k : ℕ) → k < rounds → f (p + k) ≡ has_bit (n + k) w

pub Reads-suc :
    (f : ℕ → Bool) (rounds n p w : ℕ)
    → Reads f (suc rounds) n p w
    → (f p ≡ has_bit n w) × Reads f rounds (suc n) (suc p) w
Reads-suc f rounds n p w h = (
  ap f {y = p + 0} (omega arith)
      ∙ h 0 (omega arith)
      ∙ ap (λ (t : ℕ). has_bit t w) {y = n} (omega arith),
  λ k lt.
      ap f {y = p + suc k} (omega arith)
      ∙ h (suc k) (omega arith)
      ∙ ap (λ (t : ℕ). has_bit t w) {y = suc n + k} (omega arith),
)

pub has_bit-zero : (k : ℕ) → has_bit k 0 ≡ false
has_bit-zero k = bit_test k 0 ∙ ground (arith, bit-zero k)

-- A word that is 0 has no bit to list.
pub zero_word : (f : ℕ → Bool) (n p w : ℕ) → Reads f 14 0 p w → w ≡ 0 → n ≤ 14 → passing f n p ≡ []
zero_word f n p w h e le =
    passing_none f n p (λ k lt. h k (omega arith) ∙ ap (has_bit (0 + k)) e ∙ has_bit-zero (0 + k))

-- The test agrees with the words, 14 bits each.
abbrev pub ReadsAll : (ℕ → Bool) → ℕ → List ℕ → Type 0
ReadsAll f p [] = Unit
ReadsAll f p (w ∷ ws) = Reads f 14 0 p w × ReadsAll f (p + 14) ws

pub zero_words : (f : ℕ → Bool) (n p : ℕ) → ReadsAll f p (replicate n 0) → passing f (14 * n) p ≡ []
zero_words f zero p h = passing_at f {m = 14 * 0} {n = 0} {q = p} (omega arith) refl
zero_words f (suc n) p (here, h) =
    passing_at f {m = 14 * suc n} {n = 14 + 14 * n} {q = p} (omega arith) refl
    ∙ passing-add f 14 (14 * n) p
    ∙ rw (zero_word f 14 p 0 here refl (omega arith), zero_words f n (p + 14) h) refl

-- Whether get finds 1.
abbrev pub set_in : Bitmap → ℕ → Bool
set_in b j = elim (get j b) [ none ↦ false | some v ↦ v ]

pub set_in-at :
    (b : Bitmap) (j w : ℕ) → get_elem? b.words (j / 14) ≡ some w → set_in b j ≡ has_bit (j % 14) w
set_in-at b j w e = rw (set_in, get_at j w b e) refl

pub set_in-ReadsAll :
    (b : Bitmap) (pre ws : List ℕ) → b.words ≡ pre ++ ws → ReadsAll (set_in b) (14 * length pre) ws
set_in-ReadsAll b pre [] e = tt
set_in-ReadsAll b pre (w ∷ ws) e = (
  λ k lt.
      set_in-at b (14 * length pre + k) w (
        ap (λ l. get_elem? l ((14 * length pre + k) / 14)) e
        ∙ ap (get_elem? (pre ++ (w ∷ ws))) {y = length pre} (omega arith)
        ∙ get_middle pre ws w)
      ∙ ap (λ (t : ℕ). has_bit t w) {y = 0 + k} (omega arith),
  subst (λ (t : ℕ). ReadsAll (set_in b) t ws) (omega (arith, length-append pre (w ∷ [])))
      (set_in-ReadsAll b (pre ++ w ∷ []) ws (e ∙ sym (append_assoc pre (w ∷ []) ws))),
)
