-- ===== src/Cache/HashLru.antt =====
-- Helens/ds/lru_cache.h: `HashLruCache`, shards of `LruCache` that share one set of counters.
-- A key's shard is its hash modulo the number of shards; the hash is the code's template parameter.
pub mod Laws
use helens.Prelude.{
  ℕ, zero, suc, ◌+◌, ◌-◌, ◌*◌, ◌/◌, ◌%◌, Bool, true, false, ◌&&◌, Option, none, some, List, [], ◌∷◌,
  map, ◌==◌, length, get_elem?, replicate,
}
use mathlib.Core.Option
use helens.Prelude
use helens.Cache.Status.{CacheStatus}
use helens.Cache.Lru.{LruCache}
use helens.Cache.Lru

pub record HashLruCache (K V : Type 0) : Type 0 where
  pub datas : List (LruCache K V)
  pub max_size : ℕ
  pub bucket : ℕ
  pub elasticity : ℕ
  pub status : CacheStatus

-- `std::ceil(v * 1.0 / bucket)`, exact below 2^53; a shard's part of a limit.
unfoldable pub share : ℕ → ℕ → ℕ
share v bucket = (v + (bucket - 1)) / bucket

no_counts : CacheStatus
no_counts = record { gets = 0; sets = 0; dels = 0; timeouts = 0; prunes = 0; hits = 0 }

pub init : {K V : Type 0} → ℕ → ℕ → ℕ → HashLruCache K V
init bucket max_size elasticity = record {
  datas = replicate bucket (Lru.init (share max_size bucket) (share elasticity bucket) no_counts);
  max_size = share max_size bucket * bucket;
  bucket = bucket;
  elasticity = share elasticity bucket * bucket;
  status = no_counts;
}

-- The shard `i` is `c` now; what it counted is counted for all.
pub put : {K V : Type 0} → ℕ → LruCache K V → HashLruCache K V → HashLruCache K V
put i c h = record h { datas = Prelude.set h.datas i c; status = c.status }

pub put_result :
    {K V R : Type 0}
    → ℕ
    → HashLruCache K V
    → Option (LruCache K V × R)
    → Option (HashLruCache K V × R)
put_result i h none = none
put_result i h (some (d, r)) = some (put i d h, r)

step_on :
    {K V R : Type 0}
    → (LruCache K V → Option (LruCache K V × R))
    → ℕ
    → HashLruCache K V
    → Option (LruCache K V)
    → Option (HashLruCache K V × R)
step_on step i h none = none
step_on step i h (some c) = put_result i h (step (record c { status = h.status }))

-- A step of the shard `i`, which counts in the `CacheStatus` that all shards point to.
pub on_shard :
    {K V R : Type 0}
    → (LruCache K V → Option (LruCache K V × R))
    → ℕ
    → HashLruCache K V
    → Option (HashLruCache K V × R)
on_shard step i h = step_on step i h (get_elem? h.datas i)

module _ {K V : Type 0} (dec : Discrete K) (hash : K → ℕ) where
  pub set : K → V → HashLruCache K V → Option (HashLruCache K V × List (K × V))
  set k v h = on_shard (Lru.set dec k v) (hash k % h.bucket) h

  pub get : K → HashLruCache K V → Option (HashLruCache K V × Option V)
  get k h = on_shard (Lru.get dec k) (hash k % h.bucket) h

  pub del : K → HashLruCache K V → Option (HashLruCache K V × Bool)
  del k h = on_shard (Lru.del dec k) (hash k % h.bucket) h

  pub exists : K → HashLruCache K V → Option Bool
  exists k h = Option.map (Lru.exists dec k) (get_elem? h.datas (hash k % h.bucket))

pub total : {K V : Type 0} → List (LruCache K V) → ℕ
total [] = 0
total (c ∷ cs) = Lru.size c + total cs

pub size : {K V : Type 0} → HashLruCache K V → ℕ
size h = total h.datas

pub clear : {K V : Type 0} → HashLruCache K V → HashLruCache K V
clear h = record h { datas = map (λ c. Lru.clear c) h.datas }

pub set_max_size : {K V : Type 0} → ℕ → HashLruCache K V → HashLruCache K V
set_max_size v h = record h {
  max_size = share v h.bucket * h.bucket;
  datas = map (λ c. Lru.set_max_size (share v h.bucket) c) h.datas;
}

pub set_elasticity : {K V : Type 0} → ℕ → HashLruCache K V → HashLruCache K V
set_elasticity v h = record h {
  elasticity = share v h.bucket * h.bucket;
  datas = map (λ c. Lru.set_elasticity (share v h.bucket) c) h.datas;
}
