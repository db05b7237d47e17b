-- ===== src/LoadBalance/RoundRobin.antt =====
-- `RoundRobinLoadBalance::get` and the valid items.
use native.Mathlib.Nat.{mod-lt}
use mathlib.Core.Option.{some-injective}
use helens.Prelude.{
  ℕ, zero, suc, ◌+◌, ◌%◌, ◌^◌, ◌≤◌, ◌<◌, ◌≡◌, refl, sym, ap, ◌∙◌, ◌⊎◌, inl, inr, Bool, true, false,
  none, some, List, arith, length, get_elem?, All, ◌==◌, Bool-cases, ℕ_discrete,
}
use helens.Prelude.Rounds.{round_of, All-get_elem?, some_elem, in_range}
use helens.LoadBalance.{Balancer, scan, pick, get_round_robin}

module _ {Item : Type 0} where
  module _ (valid : Item → Bool) (items : List Item) (start : ℕ) where
    -- From the round `i` on a valid item is found, or there is none.
    abbrev Found : ℕ → ℕ → Type 0
    Found i rounds =
        ((scan valid items start i rounds ≡ none)
          × ((j : ℕ) (h : Item)
              → i ≤ j
              → j < i + rounds
              → get_elem? items ((start + j) % length items) ≡ some h
              → valid h ≡ false))
        ⊎ ((h : Item) × (k : ℕ) × (scan valid items start i rounds ≡ some h)
            × (get_elem? items k ≡ some h)
            × (valid h ≡ true))

    scan_lem : 0 < length items → (rounds i : ℕ) → Found i rounds
    unfolding scan pick
    scan_lem pos zero i = inl (refl, λ j h p q e. absurd (omega arith))
    scan_lem pos (suc rounds) i =
        let k = (start + i) % length items in
        let (h, here) = some_elem items k (mod-lt (start + i) pos) in
        elim (Bool-cases (valid h)) [
          | inl e ↦ inr (h, k, rw (here, e) refl, here, e)
          | inr e ↦ elim (scan_lem pos rounds (suc i)) [
            | inr (h', k', ran, there, ok) ↦ inr (h', k', rw (here, e) ran, there, ok)
            | inl (ran, rest) ↦ inl (
              rw (here, e) ran,
              λ j h' p q e'. elim (ℕ_discrete j i) [
                | no ne ↦ rest j h' (ground (arith, p, ne)) (omega arith) e'
                | yes same ↦
                    ap valid (
                      some-injective h' h (
                        sym e'
                        ∙ ap (λ (t : ℕ). get_elem? items ((start + t) % length items)) same
                        ∙ here))
                    ∙ e
              ],
            )
          ]
        ]

-- `get` returns a valid item of the list, and nothing only if no item is valid.
pub get_round_robin_lem :
    {Item : Type 0} (valid : Item → Bool) (v : ℕ) (b : Balancer Item)
    → length b.items < 2 ^ 32
    → ((get_round_robin valid v b ≡ none) × All (λ h. valid h ≡ false) b.items)
      ⊎ ((h : Item) × (k : ℕ) × (get_round_robin valid v b ≡ some h)
          × (get_elem? b.items k ≡ some h)
          × (valid h ≡ true))
unfolding get_round_robin
get_round_robin_lem valid v b fits = elim (Bool-cases (length b.items == 0)) [
  | inl e ↦ inl (
    rw e refl,
    All-get_elem? (λ h. valid h ≡ false) b.items
        (λ k h there.
          absurd (omega (arith, in_range b.items k h there, no_items (length b.items) e))),
  )
  | inr e ↦
      let n = length b.items in
      let pos = some_items n e in
      let start = v % n % 2 ^ 32 in
      elim (scan_lem valid b.items start pos n 0) [
        | inl (ran, none_valid) ↦ inl (
          rw e ran,
          All-get_elem? (λ h. valid h ≡ false) b.items
              (λ k h there.
                let (i, below, at) =
                  round_of n start k (omega (arith, mod-lt v pos)) (in_range b.items k h there) in
                none_valid i h (omega arith) (omega arith) (ap (get_elem? b.items) at ∙ there)),
        )
        | inr (h, k, ran, there, ok) ↦ inr (h, k, rw e ran, there, ok)
      ]
]
  where
    no_items : (n : ℕ) → (n == 0) ≡ true → n ≡ 0
    no_items n e = ground arith

    some_items : (n : ℕ) → (n == 0) ≡ false → 0 < n
    some_items n e = ground arith
