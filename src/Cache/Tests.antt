-- ===== src/Cache/Tests.antt =====
-- Runs of the caches at concrete inputs.
use mathlib.Core.List.{Nodup}
use mathlib.Core.List.Perm
use mathlib.Core.List.Pairwise
use helens.Prelude.{
  ℕ, ◌≡◌, refl, inr, some, List, [], ◌∷◌, ◌++◌, reverse, arith, ℕ_discrete, if◌then◌else◌,
}
use helens.Cache.Status.{CacheStatus, inc_set, inc_prune}
use helens.Keyed.{contains, cons-Nodup, find, remove, erase_key, pop_back}
use helens.Cache.Lru.{LruCache}
use helens.Cache.Lru
use helens.Cache.Lru.Limits.{IsValid, SameLimits, trim}
use helens.Cache.Lru.Laws
use helens.Cache.HashLru.{HashLruCache}
use helens.Cache.HashLru.Laws as HashLaws

abbrev zero_counts : CacheStatus
zero_counts = record { gets = 0; sets = 0; dels = 0; timeouts = 0; prunes = 0; hits = 0 }

-- Two entries, which is all that the cache may keep.
abbrev full : LruCache ℕ ℕ
full = record {
  max_size = 2;
  elasticity = 0;
  index = 1 ∷ 2 ∷ [];
  items = (1, 10) ∷ (2, 20) ∷ [];
  status = zero_counts;
}

two_keys : Nodup {A = ℕ} (1 ∷ 2 ∷ [])
unfolding contains ℕ_discrete
two_keys = cons-Nodup ℕ_discrete 1 (2 ∷ []) refl (cons-Nodup ℕ_discrete 2 [] refl Pairwise.nil)

full-IsValid : IsValid full
full-IsValid = record { matching = Perm.refl _; distinct = two_keys; bounded = inr (omega arith) }

-- The least recent entry goes.
set_prunes :
    Lru.set ℕ_discrete 3 30 full
    ≡ some (
      record full {
        index = 3 ∷ 1 ∷ [];
        items = (3, 30) ∷ (1, 10) ∷ [];
        status = record zero_counts { sets = 1; prunes = 1 };
      },
      (2, 20) ∷ [],
    )
unfolding Lru.set Lru.prune Lru.prune_loop Lru.add_gone contains find remove erase_key pop_back
    ℕ_discrete inc_set inc_prune
set_prunes = refl

abbrev SetRuns : ℕ → ℕ → LruCache ℕ ℕ → Type 0
SetRuns k v c =
    (d : LruCache ℕ ℕ) × (gone : List (ℕ × ℕ)) × (Lru.set ℕ_discrete k v c ≡ some (d, gone))
    × IsValid d
    × ((k, v) ∷ remove ℕ_discrete k c.items ≡ d.items ++ reverse gone)
    × (d.items ≡ (
        if contains ℕ_discrete k c.index
        then (k, v) ∷ remove ℕ_discrete k c.items
        else trim c.max_size c.elasticity ((k, v) ∷ c.items)))
    × SameLimits c d

set_lem_example : SetRuns 3 30 full
set_lem_example = Laws.set_lem ℕ_discrete 3 30 full full-IsValid

-- Two shards, the even and the odd keys.
abbrev shards : HashLruCache ℕ ℕ
shards = record {
  datas = full ∷ full ∷ [];
  max_size = 4;
  bucket = 2;
  elasticity = 0;
  status = zero_counts;
}

shards-IsValid : HashLaws.IsValid shards
shards-IsValid = record {
  some_bucket = omega arith;
  as_many = refl;
  shards = (full-IsValid, (full-IsValid, tt));
}
