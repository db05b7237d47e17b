-- ===== src/Cache/Lru/Limits.antt =====
-- `LruCache::prune` on a whole cache, and what makes a cache valid.
use mathlib.Core.List.{Perm, Nodup}
use mathlib.Core.List.Perm
use mathlib.Core.List.Nodup
use helens.Prelude.{
  ℕ, zero, suc, ◌+◌, ◌-◌, ◌≤◌, max, ◌≡◌, refl, sym, ap, ◌∙◌, subst, ◌⊎◌, inl, inr, true, false,
  ◌||◌, some, List, [], ◌∷◌, ◌++◌, reverse, append-nil, arith, length, take, drop, take-append-drop,
  ltb, ◌==◌, Bool-cases, if◌then◌else◌, length-take,
}
use helens.Cache.Status.{CacheStatus, inc_prune}
use helens.Keyed.{
  keys, contains, contains-perm, erase_key, cons-erase_key-perm, erase_key-Nodup,
  not-contains-erase_key, cons-Nodup, remove, keys-remove, length-remove, perm-length, length-keys,
}
use helens.Cache.Lru.{LruCache, max_allowed_size, prune}
use helens.Cache.Lru.Prune.{prune_loop_lem}

pub record IsValid {K V : Type 0} (c : LruCache K V) : Type 0 where
  pub matching : Perm c.index (keys c.items)
  pub distinct : Nodup (keys c.items)
  pub bounded : (c.max_size ≡ 0) ⊎ (length c.items ≤ max c.max_size (max_allowed_size c - 1))

-- `d` is `c` but for the entries and the counters.
pub record SameLimits {K V : Type 0} (c d : LruCache K V) : Type 0 where
  pub same_max : d.max_size ≡ c.max_size
  pub same_elasticity : d.elasticity ≡ c.elasticity

keys-take : {K V : Type 0} (n : ℕ) (l : List (K × V)) → keys (take n l) ≡ take n (keys l)
keys-take zero l = refl
keys-take (suc n) [] = refl
keys-take (suc n) (e ∷ l) = ap (◌∷◌ e.0) (keys-take n l)

module _ {K V : Type 0} (dec : Discrete K) where
  pub contains_items :
      (k : K) (c : LruCache K V)
      → IsValid c
      → contains dec k c.index ≡ contains dec k (keys c.items)
  contains_items k c h = contains-perm dec k c.index (keys c.items) h.matching

  -- The keys when the entry of `k` is moved to the front.
  moved-Perm :
      (k : K) (v : V) (c : LruCache K V)
      → IsValid c
      → contains dec k c.index ≡ true
      → Perm (keys c.items) (keys ((k, v) ∷ remove dec k c.items))
  moved-Perm k v c h e =
      subst (λ t. Perm (keys c.items) (k ∷ t)) (sym (keys-remove dec k c.items))
        (cons-erase_key-perm dec k (keys c.items) (sym (contains_items k c h) ∙ e))

  pub moved-IsValid :
      (k : K) (v : V) (s : CacheStatus) (c : LruCache K V)
      → IsValid c
      → contains dec k c.index ≡ true
      → IsValid (record c { items = (k, v) ∷ remove dec k c.items; status = s })
  moved-IsValid k v s c h e = record {
    matching = Perm.trans h.matching (moved-Perm k v c h e);
    distinct =
        subst (λ t. Nodup (k ∷ t)) (sym (keys-remove dec k c.items))
          (cons-Nodup dec k (erase_key dec k (keys c.items))
            (not-contains-erase_key dec k (keys c.items) h.distinct)
            (erase_key-Nodup dec k (keys c.items) h.distinct));
    bounded =
        ground (arith, h.bounded, length-remove dec k c.items (sym (contains_items k c h) ∙ e));
  }

-- The entries of a cache with these limits after an insertion: all of them below the allowed
-- size, the most recent `max_size` of them from there on.
abbrev pub trim : {A : Type 0} → ℕ → ℕ → List A → List A
trim max_size elasticity items =
    if max_size == 0 || ltb (length items) (max_size + elasticity)
    then items
    else take max_size items

-- What `prune` promises of the cache it leaves and the entries it gives to the call-back.
pub record IsPruned {K V : Type 0} (c d : LruCache K V) (gone : List (K × V)) : Type 0 where
  pub valid : IsValid d
  pub trimmed : d.items ≡ trim c.max_size c.elasticity c.items
  pub split : c.items ≡ d.items ++ reverse gone
  pub limits : SameLimits c d
  pub counted : d.status ≡ inc_prune (length gone) c.status

take-Nodup : {A : Type 0} (n : ℕ) (xs : List A) → Nodup xs → Nodup (take n xs)
take-Nodup n xs d = Nodup.of_append_left (drop n xs) (subst Nodup (sym (take-append-drop n xs)) d)

module _ {K V : Type 0} (dec : Discrete K) where
  abbrev Prunes : LruCache K V → Type 0
  Prunes c =
      (d : LruCache K V) × (gone : List (K × V)) × (prune dec c ≡ some (d, gone))
      × IsPruned c d gone

  prune_none :
      (c : LruCache K V)
      → Perm c.index (keys c.items)
      → Nodup (keys c.items)
      → (c.max_size == 0 || ltb (length c.index) (max_allowed_size c)) ≡ true
      → Prunes c
  unfolding prune inc_prune
  prune_none c m n e =
      let same = perm-length m ∙ length-keys c.items in
      (
        c,
        [],
        rw e refl,
        record {
          valid = record { matching = m; distinct = n; bounded = ground (arith, same, e) };
          trimmed = rw (← same, e) refl;
          split = sym (append-nil c.items);
          limits = record { same_max = refl; same_elasticity = refl };
          counted = ap (λ (t : ℕ). record c.status { prunes = t }) (omega arith);
        },
      )

  trim_large :
      (c : LruCache K V)
      → Perm c.index (keys c.items)
      → (c.max_size == 0 || ltb (length c.index) (max_allowed_size c)) ≡ false
      → trim c.max_size c.elasticity c.items ≡ take c.max_size c.items
  trim_large c m e = rw (← (perm-length m ∙ length-keys c.items), e) refl

  prune_some :
      (c : LruCache K V)
      → Perm c.index (keys c.items)
      → Nodup (keys c.items)
      → (c.max_size == 0 || ltb (length c.index) (max_allowed_size c)) ≡ false
      → Prunes c
  unfolding prune
  prune_some c m n e =
      let (p, ran, s) =
        prune_loop_lem dec (suc (length c.index)) c.max_size c.index c.items m (omega arith) in
      (
        record c { index = p.index; items = p.items; status = inc_prune (length p.gone) c.status },
        p.gone,
        rw (e, ran) refl,
        record {
          valid = record {
            matching = s.matching;
            distinct =
                subst (λ t. Nodup t) (sym (ap keys s.kept ∙ keys-take c.max_size c.items))
                  (take-Nodup c.max_size (keys c.items) n);
            bounded =
                inr (omega (arith, length-take c.max_size c.items, ap (λ t. length t) s.kept));
          };
          trimmed = s.kept ∙ sym (trim_large c m e);
          split = s.dropped;
          limits = record { same_max = refl; same_elasticity = refl };
          counted = refl;
        },
      )

  pub prune_lem : (c : LruCache K V) → Perm c.index (keys c.items) → Nodup (keys c.items) → Prunes c
  prune_lem c m n =
      elim (Bool-cases (c.max_size == 0 || ltb (length c.index) (max_allowed_size c))) [
        | inl e ↦ prune_none c m n e
        | inr e ↦ prune_some c m n e
      ]
