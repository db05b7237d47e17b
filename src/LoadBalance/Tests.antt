-- ===== src/LoadBalance/Tests.antt =====
-- Balancing over three items at concrete inputs.
use helens.Prelude.{
  ℕ, ◌≡◌, refl, ◌⊎◌, Bool, true, false, not, none, some, [], ◌∷◌, arith, get_elem?, All, ◌==◌,
}
use helens.LoadBalance.{Balancer, index, totals, get_idx, get_round_robin, scan, pick, upper_bound}
use helens.LoadBalance.RoundRobin.{get_round_robin_lem}

abbrev trio : Balancer ℕ
trio = record {
  datas = (1, 10) ∷ (2, 20) ∷ (3, 30) ∷ [];
  items = 10 ∷ 20 ∷ 30 ∷ [];
  weights = [];
  last_init_time = 0;
}

abbrev up : ℕ → Bool
up h = not (h == 20)

-- The second is down: its turn goes to the third.
turn_of_second : get_round_robin up 4 trio ≡ some 30
unfolding get_round_robin scan pick
turn_of_second = refl

-- With weights 10, 20 and 30 the numbers from 10 to 29 go to the second.
share_of_second : get_idx 89 (totals (λ h. h) 0 (10 ∷ 20 ∷ 30 ∷ [])) ≡ index 1
unfolding get_idx totals upper_bound
share_of_second = refl

get_round_robin_lem_example :
    ((get_round_robin up 4 trio ≡ none) × All (λ h. up h ≡ false) trio.items)
    ⊎ ((h : ℕ) × (k : ℕ) × (get_round_robin up 4 trio ≡ some h)
        × (get_elem? trio.items k ≡ some h)
        × (up h ≡ true))
get_round_robin_lem_example = get_round_robin_lem up 4 trio (omega arith)
