-- ===== src/AsyncStream/Manager/Get.antt =====
-- `AsyncSocketStreamManager::get`: one turn round the streams, from where the last one ended.
use native.Mathlib.Nat.{mod-lt, mod-eq_of_lt, mod-add-mod, mod_self}
use mathlib.Core.Option.{some-injective}
use helens.Prelude.{
  ℕ, zero, suc, ◌+◌, ◌-◌, ◌%◌, ◌^◌, ◌≤◌, ◌<◌, ◌≡◌, ◌≢◌, refl, sym, ap, ◌∙◌, ◌⊎◌, inl, inr, Bool,
  true, false, none, some, List, [], ◌∷◌, arith, length, get_elem?, All, Bool-cases, ℕ_discrete,
  subst,
}
use helens.Prelude.Rounds.{round_of, All-get_elem?, some_elem, in_range}
use helens.AsyncStream.Manager.{Manager, get_from, get}

-- The place that the round `j` looks at.
abbrev place : ℕ → ℕ → ℕ → ℕ
place size idx j = (idx + suc j) % 2 ^ 32 % size

module _ (connected : ℕ → Bool) (datas : List ℕ) where
  abbrev Missed : ℕ → ℕ → Type 0
  Missed rounds idx =
      (j h : ℕ)
      → j < rounds
      → get_elem? datas (place (length datas) idx j) ≡ some h
      → connected h ≡ false

  abbrev Found : ℕ → ℕ → Type 0
  Found rounds idx =
      (((get_from connected datas (length datas) rounds idx).0 ≡ none) × Missed rounds idx)
      ⊎ ((h j : ℕ) × ((get_from connected datas (length datas) rounds idx).0 ≡ some h)
          × (j < rounds)
          × (get_elem? datas (place (length datas) idx j) ≡ some h)
          × (connected h ≡ true))

  place_next :
      (idx j : ℕ) → place (length datas) ((idx + 1) % 2 ^ 32) j ≡ place (length datas) idx (suc j)
  place_next idx j = ap (λ (t : ℕ). t % length datas) (omega arith)

  Missed-suc :
      (rounds idx h : ℕ)
      → get_elem? datas ((idx + 1) % 2 ^ 32 % length datas) ≡ some h
      → connected h ≡ false
      → Missed rounds ((idx + 1) % 2 ^ 32)
      → Missed (suc rounds) idx
  Missed-suc rounds idx h here out rest zero h' le there =
      ap connected (some-injective h' h (sym there ∙ here)) ∙ out
  Missed-suc rounds idx h here out rest (suc j) h' le there =
      rest j h' (omega arith) (ap (get_elem? datas) (place_next idx j) ∙ there)

  get_from_lem : 0 < length datas → (rounds idx : ℕ) → Found rounds idx
  unfolding get_from
  get_from_lem pos zero idx = inl (refl, λ j h le there. absurd (omega arith))
  get_from_lem pos (suc rounds) idx =
      let idx' = (idx + 1) % 2 ^ 32 in
      let (h, here) = some_elem datas (idx' % length datas) (mod-lt idx' pos) in
      elim (Bool-cases (connected h)) [
        | inl e ↦ inr (h, 0, rw (here, get_from, e) refl, omega arith, here, e)
        | inr e ↦ elim (get_from_lem pos rounds idx') [
          | inl (ran, missed) ↦
              inl (rw (here, get_from, e) ran, Missed-suc rounds idx h here e missed)
          | inr (h', j, ran, le, there, ok) ↦ inr (
            h',
            suc j,
            rw (here, get_from, e) ran,
            omega arith,
            ap (get_elem? datas) (sym (place_next idx j)) ∙ there,
            ok,
          )
        ]
      ]

  -- The round that looks at the place `k`, where m_idx does not go past its 32 bits.
  round_at :
      (idx k : ℕ)
      → idx + length datas < 2 ^ 32
      → k < length datas
      → (j : ℕ) × (j < length datas) × (place (length datas) idx j ≡ k)
  round_at idx k fits below =
      let (j, le, e) =
        round_of (length datas) ((idx + 1) % length datas) k (mod-lt (idx + 1) (omega arith))
          below in
      (
        j,
        le,
        ap (λ (t : ℕ). t % length datas) (omega arith)
            ∙ sym (mod-add-mod (idx + 1) (length datas) j)
            ∙ e,
      )

one_turn :
    (connected : ℕ → Bool) (datas : List ℕ) (idx : ℕ) → Found connected datas (length datas) idx
unfolding get_from
one_turn connected [] idx = inl (refl, λ j h le there. absurd (omega arith))
one_turn connected (x ∷ xs) idx =
    get_from_lem connected (x ∷ xs) (omega arith) (length (x ∷ xs)) idx

-- The streams of a manager, as `add`, `clear` and `setConnection` leave them
abbrev pub IsSized : {Cb : Type 0} → Manager Cb → Type 0
IsSized m = (m.size ≡ length m.datas) × (length m.datas < 2 ^ 32)

get_turn :
    {Cb : Type 0} (connected : ℕ → Bool) (m : Manager Cb)
    → m.size ≡ length m.datas
    → (get connected m).0 ≡ (get_from connected m.datas (length m.datas) (length m.datas) m.idx).0
unfolding get
get_turn connected m e = ap (λ (k : ℕ). (get_from connected m.datas k k m.idx).0) e

-- With fewer than 2^32 streams, as many as m_size says, and while m_idx does not go past its 32 bits,
-- get returns a connected stream of the manager if there is
-- one, and nothing only if no stream is connected.
pub get_lem :
    {Cb : Type 0} (connected : ℕ → Bool) (m : Manager Cb)
    → IsSized m
    → m.idx + length m.datas < 2 ^ 32
    → (((get connected m).0 ≡ none) × All (λ h. connected h ≡ false) m.datas)
      ⊎ ((h k : ℕ) × ((get connected m).0 ≡ some h)
          × (get_elem? m.datas k ≡ some h)
          × (connected h ≡ true))
get_lem connected m sized fits = elim (one_turn connected m.datas m.idx) [
  | inl (ran, missed) ↦ inl (
    get_turn connected m sized.0 ∙ ran,
    All-get_elem? (λ h. connected h ≡ false) m.datas
        (λ k h there.
          let (j, le, e) = round_at connected m.datas m.idx k fits (in_range m.datas k h there) in
          missed j h le (ap (get_elem? m.datas) e ∙ there)),
  )
  | inr (h, j, ran, le, there, ok) ↦
      inr (h, place (length m.datas) m.idx j, get_turn connected m sized.0 ∙ ran, there, ok)
]

-- Where m_idx wraps, the turn looks at the place of 2^32 - 1, and then at those from 0 to size - 2.
last_missed :
    (n j : ℕ) → 2 ≤ n → n < 2 ^ 32 → 2 ^ 32 % n ≢ 0 → j < n → place n (2 ^ 32 - 2) j + 1 < n
last_missed n zero two fits ne le =
    let r = place n (2 ^ 32 - 2) 0 in
    let next : 2 ^ 32 % n ≡ (r + 1) % n = sym (mod-add-mod (2 ^ 32 - 1) n 1) in
    elim (ℕ_discrete (r + 1) n) [
      | yes e ↦ absurd (ne (next ∙ ap (λ (t : ℕ). t % n) e ∙ mod_self n))
      | no other ↦ omega (arith, mod-lt ((2 ^ 32 - 2 + 1) % 2 ^ 32) le, other)
    ]
last_missed n (suc j) two fits ne le =
    let wrapped : (2 ^ 32 - 2 + suc (suc j)) % 2 ^ 32 ≡ j = omega arith in
    let here : place n (2 ^ 32 - 2) (suc j) ≡ j =
      ap (λ (t : ℕ). t % n) wrapped ∙ mod-eq_of_lt (omega arith) in
    omega arith

-- When m_idx stands at 2^32 - 2 and the number of the streams, at least two and as m_size says, does
-- not divide 2^32, one turn does not
-- look at the last stream: get returns nothing though that stream is connected, if no other is.
pub get_skips :
    {Cb : Type 0} (connected : ℕ → Bool) (m : Manager Cb) (last : ℕ)
    → IsSized m
    → m.idx ≡ 2 ^ 32 - 2
    → 2 ≤ length m.datas
    → 2 ^ 32 % length m.datas ≢ 0
    → ((k h : ℕ) → k + 1 < length m.datas → get_elem? m.datas k ≡ some h → connected h ≡ false)
    → get_elem? m.datas (length m.datas - 1) ≡ some last
    → connected last ≡ true
    → (get connected m).0 ≡ none
get_skips connected m last sized at_end two ne others there ok =
    elim (one_turn connected m.datas m.idx) [
      | inl (ran, missed) ↦ get_turn connected m sized.0 ∙ ran
      | inr (h, j, ran, le, here, is_connected) ↦ absurd (
          cc (
            is_connected,
            others (place (length m.datas) m.idx j) h
                (subst (λ (i : ℕ). place (length m.datas) i j + 1 < length m.datas) (sym at_end)
                  (last_missed (length m.datas) j two sized.1 ne le))
                here,
          ))
    ]
