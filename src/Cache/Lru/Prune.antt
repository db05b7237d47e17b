-- ===== src/Cache/Lru/Prune.antt =====
-- The loop of `LruCache::prune`, against the list of the most recent entries.
use mathlib.Core.List.{Perm, reverse-cons}
use helens.Prelude.{
  ℕ, zero, suc, ◌-◌, ◌≤◌, ◌<◌, ◌≡◌, refl, sym, ap, ◌∙◌, inl, inr, true, false, some, List, [], ◌∷◌,
  ◌++◌, reverse, arith, length, take, ltb, ltb→lt, Bool-cases, append-nil, append_assoc, subst,
  length-take,
}
use helens.Prelude.Slices.{take-take, take_of_length-le}
use helens.Keyed.{
  keys, pop_back, pop_back_lem, erase_key, erase_last-perm, perm-length, length-keys,
}
use helens.Cache.Lru.{Pruned, prune_loop, add_gone}

pub record Shortened {K V : Type 0} (max_size : ℕ) (items : List (K × V)) (p : Pruned K V)
    : Type 0 where
  pub matching : Perm p.index (keys p.items)
  pub kept : p.items ≡ take max_size items
  pub dropped : items ≡ p.items ++ reverse p.gone

pub not_ltb→le : (a b : ℕ) → ltb a b ≡ false → b ≤ a
not_ltb→le a b h = ground arith

module _ {K V : Type 0} (dec : Discrete K) where
  abbrev pub Runs : ℕ → ℕ → List K → List (K × V) → Type 0
  Runs fuel max_size index items =
      (p : Pruned K V) × (prune_loop dec fuel max_size index items ≡ some p)
      × Shortened max_size items p

  one_round :
      (fuel max_size n : ℕ) (index : List K) (items : List (K × V)) (e : K × V)
      → ltb max_size (length index) ≡ true
      → max_size ≤ n
      → pop_back items ≡ some (e, take n items)
      → items ≡ take n items ++ e ∷ []
      → Runs fuel max_size (erase_key dec e.0 index) (take n items)
      → Runs (suc fuel) max_size index items
  unfolding prune_loop add_gone
  one_round fuel max_size n index items e large le popped split (p, ran, s) = (
    record p { gone = e ∷ p.gone },
    rw (large, popped, ran) refl,
    record {
      matching = s.matching;
      kept = s.kept ∙ take-take max_size n items le;
      dropped =
          split
          ∙ ap (λ t. t ++ e ∷ []) s.dropped
          ∙ append_assoc p.items (reverse p.gone) (e ∷ [])
          ∙ ap (λ t. p.items ++ t) (sym (reverse-cons e p.gone));
    },
  )

  pub prune_loop_lem :
      (fuel max_size : ℕ) (index : List K) (items : List (K × V))
      → Perm index (keys items)
      → length index < fuel
      → Runs fuel max_size index items
  unfolding prune_loop
  prune_loop_lem zero max_size index items m h = absurd (omega arith)
  prune_loop_lem (suc fuel) max_size index items m h =
      let same : length index ≡ length items = perm-length m ∙ length-keys items in
      elim (Bool-cases (ltb max_size (length index))) [
        | inr small ↦ (
          record { index = index; items = items; gone = [] },
          rw small refl,
          record {
            matching = m;
            kept = sym (
                take_of_length-le max_size items
                  (omega (arith, not_ltb→le max_size (length index) small)));
            dropped = sym (append-nil items);
          },
        )
        | inl large ↦
            let n = length items - 1 in
            let over = ltb→lt max_size (length index) large in
            let (e, popped, split) = pop_back_lem n items (omega arith) in
            let m' =
              erase_last-perm dec index (take n items) e
                (subst (λ t. Perm index (keys t)) split m) in
            one_round fuel max_size n index items e large (omega arith) popped split (
              prune_loop_lem fuel max_size (erase_key dec e.0 index) (take n items) m'
                (omega (arith, perm-length m', length-keys (take n items), length-take n items)))
      ]
