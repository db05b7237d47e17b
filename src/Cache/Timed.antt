-- ===== src/Cache/Timed.antt =====
-- Helens/ds/timed_cache.h: `TimedCache`. Every method holds the lock over what it does to the maps, so
-- a call is one step; the clock's reading, `now`, is an argument. `none` is a use of an iterator or of
-- a result that C++ leaves undefined.
pub mod Laws
mod Tests
use helens.Prelude.{
  ℕ, zero, suc, ◌+◌, ◌%◌, ◌^◌, Bool, true, false, ◌&&◌, ◌||◌, Option, none, some, List, [], ◌∷◌,
  if◌then◌else◌, ltb, leb, ◌==◌, length,
}
use helens.Cache.Status.{CacheStatus, inc_get, inc_set, inc_del, inc_hit, inc_prune}
use helens.Keyed.{find, remove}

pub record Item (K V : Type 0) : Type 0 where
  pub key : K
  pub val : V
  pub ts : ℕ

-- `timed` is `m_timed` in its order. `cache` is `m_cache`; an iterator is named by the time stamp of
-- the item that it points to, which with the key tells items apart.
pub record TimedCache (K V : Type 0) : Type 0 where
  pub max_size : ℕ
  pub elasticity : ℕ
  pub cache : List (K × ℕ)
  pub timed : List (Item K V)
  pub status : CacheStatus

-- What the loops of `prune` and `checkTimeout` leave, and the items that `m_cb` gets.
pub record Dropped (K V : Type 0) : Type 0 where
  pub cache : List (K × ℕ)
  pub timed : List (Item K V)
  pub gone : List (Item K V)

unfoldable pub init : {K V : Type 0} → ℕ → ℕ → CacheStatus → TimedCache K V
init max_size elasticity status = record {
  max_size = max_size;
  elasticity = elasticity;
  cache = [];
  timed = [];
  status = status;
}

-- 64 bits
unfoldable pub stamp : ℕ → ℕ → ℕ
stamp expired now = (expired + now) % 2 ^ 64

unfoldable pub add_gone : {K V : Type 0} → Item K V → Option (Dropped K V) → Option (Dropped K V)
add_gone i none = none
add_gone i (some d) = some (record d { gone = i ∷ d.gone })

module _ {K V : Type 0} (dec : Discrete K) (less : K → K → Bool) where
  -- `Item::operator<`
  unfoldable pub before : Item K V → Item K V → Bool
  before a b = if a.ts == b.ts then less a.key b.key else ltb a.ts b.ts

  -- `m_timed.insert`; an equal item stays, with its value.
  unfoldable pub insert : Item K V → List (Item K V) → List (Item K V)
  insert i [] = i ∷ []
  insert i (j ∷ js) =
      let rest = insert i js in
      if before i j then i ∷ j ∷ js else if before j i then j ∷ rest else j ∷ js

  -- The value of the item that an iterator points to
  unfoldable pub value_at : K → ℕ → List (Item K V) → Option V
  value_at k ts [] = none
  value_at k ts (j ∷ js) =
      let rest = value_at k ts js in
      elim (dec k j.key) [ yes _ ↦ if ts == j.ts then some j.val else rest | no _ ↦ rest ]

  -- `m_timed.erase` of an iterator
  unfoldable pub erase : K → ℕ → List (Item K V) → List (Item K V)
  erase k ts [] = []
  erase k ts (j ∷ js) =
      let rest = erase k ts js in
      elim (dec k j.key) [ yes _ ↦ if ts == j.ts then js else j ∷ rest | no _ ↦ j ∷ rest ]

  -- `while(m_cache.size() > m_maxSize)`, by recursion on `m_timed`
  unfoldable pub prune_loop : ℕ → List (K × ℕ) → List (Item K V) → Option (Dropped K V)
  prune_loop max_size cache [] =
      if ltb max_size (length cache)
      then none
      else some (record { cache = cache; timed = []; gone = [] })
  prune_loop max_size cache (i ∷ is) =
      let further = add_gone i (prune_loop max_size (remove dec i.key cache) is) in
      if ltb max_size (length cache)
      then further
      else some (record { cache = cache; timed = i ∷ is; gone = [] })

  unfoldable pub pruned :
      TimedCache K V → Option (Dropped K V) → Option (TimedCache K V × List (Item K V))
  pruned c none = none
  pruned c (some d) = some (
    record c { cache = d.cache; timed = d.timed; status = inc_prune (length d.gone) c.status },
    d.gone,
  )

  unfoldable pub prune : TimedCache K V → Option (TimedCache K V × List (Item K V))
  prune c =
      if c.max_size == 0 || ltb (length c.cache) (c.max_size + c.elasticity)
      then some (c, [])
      else pruned c (prune_loop c.max_size c.cache c.timed)

  unfoldable pub set : K → V → ℕ → ℕ → TimedCache K V → Option (TimedCache K V × List (Item K V))
  set k v expired now c =
      let ts = stamp expired now in
      prune (record c {
        cache = (k, ts) ∷ remove dec k c.cache;
        timed = insert (record { key = k; val = v; ts = ts }) c.timed;
        status = inc_set c.status;
      })

  unfoldable pub got : K → TimedCache K V → Option ℕ → Option (TimedCache K V × Option V)
  got k c none = some (c, none)
  got k c (some ts) = elim (value_at k ts c.timed) [
    | none ↦ none
    | some v ↦ some (record c { status = inc_hit c.status }, some v)
  ]

  -- Both `get` methods: the value, if the key is there.
  unfoldable pub get : K → TimedCache K V → Option (TimedCache K V × Option V)
  get k c = got k (record c { status = inc_get c.status }) (find dec k c.cache)

  -- The successful path of `del` ends without a `return`: its result, `none`, is undefined.
  unfoldable pub deleted : K → TimedCache K V → Option ℕ → TimedCache K V × Option Bool
  deleted k c none = (c, some false)
  deleted k c (some ts) = (
    record c {
      cache = remove dec k c.cache;
      timed = erase k ts c.timed;
      status = inc_hit c.status;
    },
    none,
  )

  unfoldable pub del : K → TimedCache K V → TimedCache K V × Option Bool
  del k c = deleted k (record c { status = inc_del c.status }) (find dec k c.cache)

  -- `expired`: the item is taken out and put back as it is.
  unfoldable pub put_again : K → ℕ → TimedCache K V → ℕ → Option V → Option (TimedCache K V × Bool)
  put_again k tts c ts none = none
  put_again k tts c ts (some v) =
      if ts == tts
      then some (c, true)
      else some (
        record c { timed = insert (record { key = k; val = v; ts = ts }) (erase k ts c.timed) },
        true,
      )

  unfoldable pub expired_at : K → ℕ → TimedCache K V → Option ℕ → Option (TimedCache K V × Bool)
  expired_at k tts c none = some (c, false)
  expired_at k tts c (some ts) = put_again k tts c ts (value_at k ts c.timed)

  unfoldable pub expired : K → ℕ → ℕ → TimedCache K V → Option (TimedCache K V × Bool)
  expired k ts now c = expired_at k (stamp ts now) c (find dec k c.cache)

  unfoldable pub exists : K → TimedCache K V → Bool
  exists k c = is_there (find dec k c.cache)
    where
      is_there : Option ℕ → Bool
      is_there none = false
      is_there (some _) = true

  unfoldable pub timeout_loop : ℕ → List (K × ℕ) → List (Item K V) → Dropped K V
  timeout_loop ts cache [] = record { cache = cache; timed = []; gone = [] }
  timeout_loop ts cache (i ∷ is) =
      let rest = timeout_loop ts (remove dec i.key cache) is in
      if leb i.ts ts
      then record rest { gone = i ∷ rest.gone }
      else record { cache = cache; timed = i ∷ is; gone = [] }

  -- The method's count is the number of the items that it returns here.
  unfoldable pub check_timeout : ℕ → TimedCache K V → TimedCache K V × List (Item K V)
  check_timeout ts c =
      let d = timeout_loop ts c.cache c.timed in
      (record c { cache = d.cache; timed = d.timed }, d.gone)

unfoldable pub size : {K V : Type 0} → TimedCache K V → ℕ
size c = length c.cache

unfoldable pub clear : {K V : Type 0} → TimedCache K V → TimedCache K V
clear c = record c { cache = []; timed = [] }

unfoldable pub set_max_size : {K V : Type 0} → ℕ → TimedCache K V → TimedCache K V
set_max_size v c = record c { max_size = v }

unfoldable pub set_elasticity : {K V : Type 0} → ℕ → TimedCache K V → TimedCache K V
set_elasticity v c = record c { elasticity = v }
