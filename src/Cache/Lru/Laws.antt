-- ===== src/Cache/Lru/Laws.antt =====
-- The operations of `LruCache`, against a bounded list with the most recent entry first.
use mathlib.Core.List.{Perm, Nodup}
use mathlib.Core.List.Perm
use mathlib.Core.Logic.{ite}
use helens.Prelude.{
  ℕ, zero, suc, ◌≡◌, refl, sym, ap, ◌∙◌, subst, ◌≢◌, inl, inr, false, ◌||◌, none, some, List, [],
  ◌∷◌, ◌++◌, reverse, append-nil, arith, length, take, ltb, ◌==◌, Bool-cases, if◌then◌else◌,
}
use helens.Cache.Status.{CacheStatus, inc_get, inc_set, inc_del, inc_hit}
use helens.Keyed.{
  keys, contains, contains-perm, erase_key, erase_key-perm, erase_key-Nodup, not-contains-erase_key,
  cons-Nodup, find, remove, keys-remove, find-some, find-none, find-remove, find-moved, find_front,
  remove_absent, length-remove,
}
use helens.Cache.Lru.{LruCache, max_allowed_size, set, get, del, exists}
use helens.Cache.Lru.Limits.{IsValid, SameLimits, trim, contains_items, moved-IsValid, prune_lem}

module _ {K V : Type 0} (dec : Discrete K) where
  -- On every valid cache `set` returns. The entry comes first and the entry of the same key goes;
  -- only an insertion trims the list, and what it drops goes to the call-back.
  pub set_lem :
      (k : K) (v : V) (c : LruCache K V)
      → IsValid c
      → (d : LruCache K V) × (gone : List (K × V)) × (set dec k v c ≡ some (d, gone))
        × IsValid d
        × ((k, v) ∷ remove dec k c.items ≡ d.items ++ reverse gone)
        × (d.items ≡ (
            if contains dec k c.index
            then (k, v) ∷ remove dec k c.items
            else trim c.max_size c.elasticity ((k, v) ∷ c.items)))
        × SameLimits c d
  unfolding set
  set_lem k v c h = elim (Bool-cases (contains dec k c.index)) [
    | inl e ↦
        let (w, found) = find-some dec k c.items (sym (contains_items dec k c h) ∙ e) in
        (
          record c { items = (k, v) ∷ remove dec k c.items; status = inc_set c.status },
          [],
          rw (e, found) refl,
          moved-IsValid dec k v (inc_set c.status) c h e,
          sym (append-nil _),
          rw e refl,
          record { same_max = refl; same_elasticity = refl },
        )
    | inr e ↦
        let absent = sym (contains_items dec k c h) ∙ e in
        let added : LruCache K V = record c {
          index = k ∷ c.index;
          items = (k, v) ∷ c.items;
          status = inc_set c.status;
        } in
        let (d, gone, ran, p) =
          prune_lem dec added (Perm.cons k h.matching)
            (cons-Nodup dec k (keys c.items) absent h.distinct) in
        (
          d,
          gone,
          rw e ran,
          p.valid,
          ap (λ t. (k, v) ∷ t) (remove_absent dec k c.items absent) ∙ p.split,
          rw e p.trimmed,
          record { same_max = p.limits.same_max; same_elasticity = p.limits.same_elasticity },
        )
  ]

  found_front :
      (k : K) (v : V) (c : LruCache K V)
      → find dec k (trim c.max_size c.elasticity ((k, v) ∷ c.items)) ≡ some v
  unfolding find
  found_front k v c =
      elim (Bool-cases (c.max_size == 0 || ltb (suc (length c.items)) (max_allowed_size c))) [
        | inl e ↦ rw e (find_front dec k v c.items)
        | inr e ↦ rw e (still_front c.max_size (ground arith))
      ]
    where
      still_front : (n : ℕ) → n ≢ 0 → find dec k (take n ((k, v) ∷ c.items)) ≡ some v
      still_front zero h = absurd (h refl)
      still_front (suc n) h = find_front dec k v (take n c.items)

  -- After `set` on a valid cache the key is found with the new value, pruned or not.
  pub set_found :
      (k : K) (v : V) (c : LruCache K V)
      → IsValid c
      → (d : LruCache K V) × (gone : List (K × V)) × (set dec k v c ≡ some (d, gone))
        × IsValid d
        × (find dec k d.items ≡ some v)
  set_found k v c h =
      let (d, gone, ran, valid, split, shape, _) = set_lem k v c h in
      (d, gone, ran, valid, ap (λ t. find dec k t) shape ∙ front_of)
    where
      front_of :
          find dec k (
            if contains dec k c.index
            then (k, v) ∷ remove dec k c.items
            else trim c.max_size c.elasticity ((k, v) ∷ c.items))
          ≡ some v
      front_of = elim (Bool-cases (contains dec k c.index)) [
        | inl e ↦ rw e (find_front dec k v (remove dec k c.items))
        | inr e ↦ rw e (found_front k v c)
      ]

  -- `get` on a valid cache returns the value that stands beside the key, and nothing else. It
  -- changes the order of the entries, and no look-up.
  pub get_lem :
      (k : K) (c : LruCache K V)
      → IsValid c
      → (d : LruCache K V) × (get dec k c ≡ some (d, find dec k c.items))
        × IsValid d
        × ((q : K) → find dec q d.items ≡ find dec q c.items)
        × (length d.items ≡ length c.items)
        × SameLimits c d
        × (d.status
            ≡ (if contains dec k c.index then inc_hit (inc_get c.status) else inc_get c.status))
  unfolding get
  get_lem k c h = elim (Bool-cases (contains dec k c.index)) [
    | inl e ↦
        let here = sym (contains_items dec k c h) ∙ e in
        let (v, found) = find-some dec k c.items here in
        (
          record c { items = (k, v) ∷ remove dec k c.items; status = inc_hit (inc_get c.status) },
          rw (e, found) refl,
          moved-IsValid dec k v (inc_hit (inc_get c.status)) c h e,
          (λ q. find-moved dec k q v c.items found),
          omega (arith, length-remove dec k c.items here),
          record { same_max = refl; same_elasticity = refl },
          rw e refl,
        )
    | inr e ↦ (
      record c { status = inc_get c.status },
      rw (e, find-none dec k c.items (sym (contains_items dec k c h) ∙ e)) refl,
      record { matching = h.matching; distinct = h.distinct; bounded = h.bounded },
      (λ q. refl),
      refl,
      record { same_max = refl; same_elasticity = refl },
      rw e refl,
    )
  ]

  -- `del` on a valid cache tells whether the key was there; it is gone afterwards, and every other
  -- key is found as before.
  pub del_lem :
      (k : K) (c : LruCache K V)
      → IsValid c
      → (d : LruCache K V) × (del dec k c ≡ some (d, exists dec k c))
        × IsValid d
        × (d.items ≡ remove dec k c.items)
        × (exists dec k d ≡ false)
        × ((q : K) → find dec q d.items ≡ ite (dec q k) none (find dec q c.items))
  unfolding del exists
  del_lem k c h = elim (Bool-cases (contains dec k c.index)) [
    | inl e ↦
        let here = sym (contains_items dec k c h) ∙ e in
        let (v, found) = find-some dec k c.items here in
        let m = erase_key-perm dec k c.index (keys c.items) h.matching in
        (
          record c {
            index = erase_key dec k c.index;
            items = remove dec k c.items;
            status = inc_del c.status;
          },
          rw (e, found) refl,
          record {
            matching =
                subst (λ t. Perm (erase_key dec k c.index) t) (sym (keys-remove dec k c.items)) m;
            distinct =
                subst (λ t. Nodup t) (sym (keys-remove dec k c.items))
                  (erase_key-Nodup dec k (keys c.items) h.distinct);
            bounded = ground (arith, h.bounded, length-remove dec k c.items here);
          },
          refl,
          contains-perm dec k (erase_key dec k c.index) (erase_key dec k (keys c.items)) m
              ∙ not-contains-erase_key dec k (keys c.items) h.distinct,
          (λ q. find-remove dec k q c.items h.distinct),
        )
    | inr e ↦
        let absent = sym (contains_items dec k c h) ∙ e in
        (
          record c { status = inc_del c.status },
          rw e refl,
          record { matching = h.matching; distinct = h.distinct; bounded = h.bounded },
          sym (remove_absent dec k c.items absent),
          e,
          (λ q.
              ap (find dec q) (sym (remove_absent dec k c.items absent))
              ∙ find-remove dec k q c.items h.distinct),
        )
  ]

  -- The counters do not matter to `exists`.
  pub exists-status :
      (k : K) (s : CacheStatus) (c : LruCache K V)
      → exists dec k (record c { status = s }) ≡ exists dec k c
  unfolding exists
  exists-status k s c = refl
