-- ===== src/Cache/Status.antt =====
-- Helens/ds/cache_status.h: the counters of a cache. They do not wrap here.
use helens.Prelude.{ℕ, ◌+◌}

pub record CacheStatus : Type 0 where
  pub gets : ℕ
  pub sets : ℕ
  pub dels : ℕ
  pub timeouts : ℕ
  pub prunes : ℕ
  pub hits : ℕ

unfoldable pub inc_get : CacheStatus → CacheStatus
inc_get s = record s { gets = s.gets + 1 }

unfoldable pub inc_set : CacheStatus → CacheStatus
inc_set s = record s { sets = s.sets + 1 }

unfoldable pub inc_del : CacheStatus → CacheStatus
inc_del s = record s { dels = s.dels + 1 }

unfoldable pub inc_prune : ℕ → CacheStatus → CacheStatus
inc_prune v s = record s { prunes = s.prunes + v }

unfoldable pub inc_hit : CacheStatus → CacheStatus
inc_hit s = record s { hits = s.hits + 1 }

-- `merge`: the counters of `o` are added to those of `s`.
unfoldable pub merge : CacheStatus → CacheStatus → CacheStatus
merge s o = record {
  gets = s.gets + o.gets;
  sets = s.sets + o.sets;
  dels = s.dels + o.dels;
  timeouts = s.timeouts + o.timeouts;
  prunes = s.prunes + o.prunes;
  hits = s.hits + o.hits;
}
