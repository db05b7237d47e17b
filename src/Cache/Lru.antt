-- ===== src/Cache/Lru.antt =====
-- Helens/ds/lru_cache.h: `LruCache`. Every method holds the mutex over its whole body, so a call is
-- one step. `none` is a use of the map or the list that C++ leaves undefined.
pub mod Prune
pub mod Limits
pub mod Laws
use helens.Prelude.{
  ℕ, zero, suc, ◌+◌, Bool, true, false, ◌||◌, Option, none, some, List, [], ◌∷◌, if◌then◌else◌, ltb,
  ◌==◌, length,
}
use helens.Cache.Status.{CacheStatus, inc_get, inc_set, inc_del, inc_hit, inc_prune}
use helens.Keyed.{contains, erase_key, find, remove, pop_back}

-- `items` is `m_keys`, the most recent entry first. `index` holds the keys of `m_cache`, in no
-- order that matters; the iterator of a key points to the entry of `items` with that key.
pub record LruCache (K V : Type 0) : Type 0 where
  pub max_size : ℕ
  pub elasticity : ℕ
  pub index : List K
  pub items : List (K × V)
  pub status : CacheStatus

-- What the loop of `prune` leaves, and the entries that it hands to `m_cb`, in that order.
pub record Pruned (K V : Type 0) : Type 0 where
  pub index : List K
  pub items : List (K × V)
  pub gone : List (K × V)

abbrev pub max_allowed_size : {K V : Type 0} → LruCache K V → ℕ
max_allowed_size c = c.max_size + c.elasticity

module _ {K V : Type 0} (dec : Discrete K) where
  unfoldable pub add_gone : K × V → Option (Pruned K V) → Option (Pruned K V)
  add_gone e none = none
  add_gone e (some p) = some (record p { gone = e ∷ p.gone })

  -- `while(m_cache.size() > m_maxSize)`, with fuel for the rounds
  unfoldable pub prune_loop : ℕ → ℕ → List K → List (K × V) → Option (Pruned K V)
  prune_loop zero max_size index items = none
  prune_loop (suc fuel) max_size index items =
      let round : Option (Pruned K V) = elim (pop_back items) [
        | none ↦ none
        | some (e, before) ↦ add_gone e (prune_loop fuel max_size (erase_key dec e.0 index) before)
      ] in
      if ltb max_size (length index)
      then round
      else some (record { index = index; items = items; gone = [] })

  -- Returns the entries that were pruned; the method's count is their number.
  unfoldable pub prune : LruCache K V → Option (LruCache K V × List (K × V))
  prune c =
      if c.max_size == 0 || ltb (length c.index) (max_allowed_size c)
      then some (c, [])
      else (elim (prune_loop (suc (length c.index)) c.max_size c.index c.items) [
        | none ↦ none
        | some p ↦ some (
          record c {
            index = p.index;
            items = p.items;
            status = inc_prune (length p.gone) c.status;
          },
          p.gone,
        )
      ])

  unfoldable pub set : K → V → LruCache K V → Option (LruCache K V × List (K × V))
  set k v c =
      let counted = record c { status = inc_set c.status } in
      if contains dec k c.index
      then (elim (find dec k c.items) [
        | none ↦ none
        | some _ ↦ some (record counted { items = (k, v) ∷ remove dec k c.items }, [])
      ])
      else prune (record counted { index = k ∷ c.index; items = (k, v) ∷ c.items })

  -- Both `get` methods: the value, if the key is there.
  pub get : K → LruCache K V → Option (LruCache K V × Option V)
  get k c =
      let counted = record c { status = inc_get c.status } in
      if contains dec k c.index
      then (elim (find dec k c.items) [
        | none ↦ none
        | some v ↦ some (
          record c { items = (k, v) ∷ remove dec k c.items; status = inc_hit (inc_get c.status) },
          some v,
        )
      ])
      else some (counted, none)

  pub del : K → LruCache K V → Option (LruCache K V × Bool)
  del k c =
      let counted = record c { status = inc_del c.status } in
      if contains dec k c.index
      then (elim (find dec k c.items) [
        | none ↦ none
        | some _ ↦
            some (
              record counted { index = erase_key dec k c.index; items = remove dec k c.items },
              true,
            )
      ])
      else some (counted, false)

  pub exists : K → LruCache K V → Bool
  exists k c = contains dec k c.index

pub init : {K V : Type 0} → ℕ → ℕ → CacheStatus → LruCache K V
init max_size elasticity status = record {
  max_size = max_size;
  elasticity = elasticity;
  index = [];
  items = [];
  status = status;
}

pub size : {K V : Type 0} → LruCache K V → ℕ
size c = length c.index

pub clear : {K V : Type 0} → LruCache K V → LruCache K V
clear c = record c { index = []; items = [] }

pub set_max_size : {K V : Type 0} → ℕ → LruCache K V → LruCache K V
set_max_size v c = record c { max_size = v }

pub set_elasticity : {K V : Type 0} → ℕ → LruCache K V → LruCache K V
set_elasticity v c = record c { elasticity = v }
