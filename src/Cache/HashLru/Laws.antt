-- ===== src/Cache/HashLru/Laws.antt =====
-- `HashLruCache` as one map.
use native.Mathlib.Nat.{mod-lt}
use mathlib.Core.Logic.{ite, if_neg}
use helens.Prelude.{
  ℕ, zero, suc, ◌+◌, ◌%◌, ◌≤◌, ◌<◌, ◌≡◌, refl, sym, ap, ◌∙◌, ◌≢◌, Bool, true, false, Option, none,
  some, List, [], ◌∷◌, arith, length, get_elem?, All, length-set, get_elem?-set_self,
  get_elem?-set_ne, ℕ_discrete,
}
use mathlib.Core.Option
use helens.Prelude
use helens.Keyed.{find}
use helens.Cache.Lru.{LruCache}
use helens.Cache.Lru
use helens.Cache.Lru.Limits
use helens.Cache.Lru.Laws
use helens.Cache.HashLru.{HashLruCache, put, put_result, step_on, on_shard, set, get, del, exists}

pub record IsValid {K V : Type 0} (h : HashLruCache K V) : Type 0 where
  pub some_bucket : 0 < h.bucket
  pub as_many : length h.datas ≡ h.bucket
  pub shards : All (λ c. Limits.IsValid c) h.datas

All-get :
    {A : Type 0} (P : A → Type 0) (xs : List A) (i : ℕ)
    → All P xs
    → i < length xs
    → (x : A) × (get_elem? xs i ≡ some x) × P x
All-get P [] i a h = absurd (omega arith)
All-get P (x ∷ xs) zero a h = (x, refl, a.0)
All-get P (x ∷ xs) (suc i) a h = All-get P xs i a.1 (omega arith)

All-set :
    {A : Type 0} (P : A → Type 0) (xs : List A) (i : ℕ) (v : A)
    → All P xs
    → P v
    → All P (Prelude.set xs i v)
All-set P [] i v a p = a
All-set P (x ∷ xs) zero v a p = (p, a.1)
All-set P (x ∷ xs) (suc i) v a p = (a.0, All-set P xs i v a.1 p)

module _ {K V : Type 0} (dec : Discrete K) (hash : K → ℕ) where
  abbrev find_in : K → Option (LruCache K V) → Option V
  find_in k none = none
  find_in k (some c) = find dec k c.items

  -- What the whole cache holds for a key.
  abbrev pub look_up : K → HashLruCache K V → Option V
  look_up k h = find_in k (get_elem? h.datas (hash k % h.bucket))

  put-IsValid :
      (i : ℕ) (d : LruCache K V) (h : HashLruCache K V)
      → IsValid h
      → Limits.IsValid d
      → IsValid (put i d h)
  unfolding put
  put-IsValid i d h v p = record {
    some_bucket = v.some_bucket;
    as_many = length-set h.datas i d ∙ v.as_many;
    shards = All-set (λ c. Limits.IsValid c) h.datas i d v.shards p;
  }

  in_range : (k : K) (h : HashLruCache K V) → IsValid h → hash k % h.bucket < length h.datas
  in_range k h v = omega (arith, mod-lt (hash k) v.some_bucket, v.as_many)

  -- The shard of a key is there.
  shard_of :
      (k : K) (h : HashLruCache K V)
      → IsValid h
      → (c : LruCache K V) × (get_elem? h.datas (hash k % h.bucket) ≡ some c)
        × Limits.IsValid (record c { status = h.status })
  shard_of k h v =
      let (c, here, p) =
        All-get (λ c. Limits.IsValid c) h.datas (hash k % h.bucket) v.shards (in_range k h v) in
      (c, here, record { matching = p.matching; distinct = p.distinct; bounded = p.bounded })

  -- After a step on the shard of `k`, that shard answers for its keys, the others as before.
  look_up-put :
      (k q : K) (d : LruCache K V) (h : HashLruCache K V)
      → IsValid h
      → hash q % h.bucket ≡ hash k % h.bucket
      → look_up q (put (hash k % h.bucket) d h) ≡ find dec q d.items
  unfolding put
  look_up-put k q d h v e =
      ap (λ t. find_in q (get_elem? (Prelude.set h.datas (hash k % h.bucket) d) t)) e
      ∙ ap (find_in q) (get_elem?-set_self h.datas (hash k % h.bucket) d (in_range k h v))

  look_up-put_ne :
      (k q : K) (d : LruCache K V) (h : HashLruCache K V)
      → hash q % h.bucket ≢ hash k % h.bucket
      → look_up q (put (hash k % h.bucket) d h) ≡ look_up q h
  unfolding put
  look_up-put_ne k q d h ne = ap (find_in q) (get_elem?-set_ne h.datas d (λ e. ne (sym e)))

  look_up_at :
      (q : K) (i : ℕ) (c : LruCache K V) (h : HashLruCache K V)
      → hash q % h.bucket ≡ i
      → get_elem? h.datas i ≡ some c
      → look_up q h ≡ find dec q c.items
  look_up_at q i c h e here = ap (λ t. find_in q (get_elem? h.datas t)) e ∙ ap (find_in q) here

  on_shard_at :
      {R : Type 0} (step : LruCache K V → Option (LruCache K V × R)) (i : ℕ) (c d : LruCache K V)
      (r : R) (h : HashLruCache K V)
      → get_elem? h.datas i ≡ some c
      → step (record c { status = h.status }) ≡ some (d, r)
      → on_shard step i h ≡ some (put i d h, r)
  unfolding on_shard step_on put_result
  on_shard_at step i c d r h here ran = rw (here, ran) refl

  -- `get` returns what the cache holds for the key, and changes no look-up of any key.
  pub hash_get_lem :
      (k : K) (h : HashLruCache K V)
      → IsValid h
      → (h' : HashLruCache K V) × (get dec hash k h ≡ some (h', look_up k h))
        × IsValid h'
        × ((q : K) → look_up q h' ≡ look_up q h)
  unfolding get
  hash_get_lem k h v =
      let (c, here, p) = shard_of k h v in
      let (d, ran, valid, same, _, _, _) = Laws.get_lem dec k (record c { status = h.status }) p in
      (
        put (hash k % h.bucket) d h,
        on_shard_at (Lru.get dec k) (hash k % h.bucket) c d (find dec k c.items) h here ran
            ∙ ap (λ t. some (put (hash k % h.bucket) d h, t))
                (sym (look_up_at k (hash k % h.bucket) c h refl here)),
        put-IsValid (hash k % h.bucket) d h v valid,
        λ q. elim (ℕ_discrete (hash q % h.bucket) (hash k % h.bucket)) [
          | yes e ↦
              look_up-put k q d h v e ∙ same q ∙ sym (look_up_at q (hash k % h.bucket) c h e here)
          | no ne ↦ look_up-put_ne k q d h ne
        ],
      )

  -- After `set` the cache holds the value for the key, and only that key's shard has changed.
  pub hash_set_lem :
      (k : K) (x : V) (h : HashLruCache K V)
      → IsValid h
      → (h' : HashLruCache K V) × (gone : List (K × V)) × (set dec hash k x h ≡ some (h', gone))
        × IsValid h'
        × (look_up k h' ≡ some x)
        × ((d : LruCache K V) × (h' ≡ put (hash k % h.bucket) d h))
  unfolding set
  hash_set_lem k x h v =
      let (c, here, p) = shard_of k h v in
      let (d, gone, ran, valid, front) =
        Laws.set_found dec k x (record c { status = h.status }) p in
      (
        put (hash k % h.bucket) d h,
        gone,
        on_shard_at (Lru.set dec k x) (hash k % h.bucket) c d gone h here ran,
        put-IsValid (hash k % h.bucket) d h v valid,
        look_up-put k k d h v refl ∙ front,
        (d, refl),
      )

  -- `del` tells whether the key was there, after it the key is not, and every other key is found as before.
  pub hash_del_lem :
      (k : K) (h : HashLruCache K V)
      → IsValid h
      → (h' : HashLruCache K V) × (there : Bool) × (exists dec hash k h ≡ some there)
        × (del dec hash k h ≡ some (h', there))
        × IsValid h'
        × (exists dec hash k h' ≡ some false)
        × ((q : K) → look_up q h' ≡ ite (dec q k) none (look_up q h))
  unfolding del exists put
  hash_del_lem k h v =
      let (c, here, p) = shard_of k h v in
      let (d, ran, valid, _, absent, same) =
        Laws.del_lem dec k (record c { status = h.status }) p in
      (
        put (hash k % h.bucket) d h,
        Lru.exists dec k (record c { status = h.status }),
        ap (Option.map (Lru.exists dec k)) here
            ∙ ap (λ t. some t) (sym (Laws.exists-status dec k h.status c)),
        on_shard_at (Lru.del dec k) (hash k % h.bucket) c d
            (Lru.exists dec k (record c { status = h.status })) h here ran,
        put-IsValid (hash k % h.bucket) d h v valid,
        ap (Option.map (Lru.exists dec k))
              (get_elem?-set_self h.datas (hash k % h.bucket) d (in_range k h v))
            ∙ ap (λ t. some t) absent,
        λ q. elim (ℕ_discrete (hash q % h.bucket) (hash k % h.bucket)) [
          | yes e ↦
              look_up-put k q d h v e
              ∙ same q
              ∙ ap (ite (dec q k) none) (sym (look_up_at q (hash k % h.bucket) c h e here))
          | no other ↦
              look_up-put_ne k q d h other
              ∙ sym (if_neg (dec q k) (λ e. other (ap (λ t. hash t % h.bucket) e)) _ _)
        ],
      )
