-- ===== src/Cache/Timed/Tests.antt =====
-- Runs of `TimedCache` at concrete inputs.
use helens.Prelude.{ℕ, ◌≤◌, ◌<◌, ◌≡◌, refl, [], ◌∷◌, ◌++◌, arith, ℕ_discrete, All, ltb}
use helens.Keyed.{remove}
use helens.Cache.Status.{CacheStatus}
use helens.Cache.Timed.{Item, TimedCache, init, stamp, timeout_loop, exists}
use helens.Cache.Timed
use helens.Cache.Timed.Laws.{check_timeout_lem}

abbrev zero_counts : CacheStatus
zero_counts = record { gets = 0; sets = 0; dels = 0; timeouts = 0; prunes = 0; hits = 0 }

abbrev soon : Item ℕ ℕ
soon = record { key = 1; val = 10; ts = 100 }

abbrev later : Item ℕ ℕ
later = record { key = 2; val = 20; ts = 200 }

abbrev two : TimedCache ℕ ℕ
two = record {
  max_size = 0;
  elasticity = 0;
  cache = (1, 100) ∷ (2, 200) ∷ [];
  timed = soon ∷ later ∷ [];
  status = zero_counts;
}

-- At 150 the first is gone and the second is there.
timeout_at_150 :
    Timed.check_timeout ℕ_discrete ltb 150 two
    ≡ (record two { cache = (2, 200) ∷ []; timed = later ∷ [] }, soon ∷ [])
unfolding Timed.check_timeout timeout_loop remove ℕ_discrete
timeout_at_150 = refl

check_timeout_lem_example :
    (two.timed
      ≡ (Timed.check_timeout ℕ_discrete ltb 150 two).1
        ++ (Timed.check_timeout ℕ_discrete ltb 150 two).0.timed)
    × All (λ i. i.ts ≤ 150) (Timed.check_timeout ℕ_discrete ltb 150 two).1
    × All (λ i. 150 < i.ts) (Timed.check_timeout ℕ_discrete ltb 150 two).0.timed
check_timeout_lem_example = check_timeout_lem ℕ_discrete ltb 150 two ((omega arith, tt), (tt, tt))

stamps : (stamp 100 1000 ≤ 1500) × (1500 < stamp 1000 1000)
unfolding stamp
stamps = (omega arith, omega arith)
