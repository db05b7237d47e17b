-- ===== src/Cache/Timed/Laws.antt =====
-- `checkTimeout` of `TimedCache`, and what `set` leaves to it.
use mathlib.Core.Logic.{if_pos}
use helens.Prelude.{
  ℕ, ◌≤◌, ◌<◌, ◌≡◌, refl, ap, inl, inr, Bool, true, false, some, List, [], ◌∷◌, ◌++◌, arith, ltb,
  leb, ◌==◌, Bool-cases, All, All-map, lt→ltb, leb→le,
}
use helens.Keyed.{find, remove, find_front}
use helens.Cache.Status.{CacheStatus, inc_set}
use helens.Cache.Timed.{
  Item, TimedCache, before, insert, timeout_loop, check_timeout, set, prune, exists, init, stamp,
}

le→leb : (a b : ℕ) → a ≤ b → leb a b ≡ true
le→leb a b h = ground arith

lt→not_leb : (a b : ℕ) → b < a → leb a b ≡ false
lt→not_leb a b h = ground arith

not_leb : (a b : ℕ) → leb a b ≡ false → b < a
not_leb a b h = ground arith

differ : (a b : ℕ) → b < a → (a == b) ≡ false
differ a b h = ground arith

differ' : (a b : ℕ) → b < a → (b == a) ≡ false
differ' a b h = ground arith

not_less : (a b : ℕ) → b < a → ltb a b ≡ false
not_less a b h = ground arith

remove_one : {K : Type 0} (dec : Discrete K) (k : K) (t : ℕ) → remove dec k ((k, t) ∷ []) ≡ []
unfolding remove
remove_one dec k t = if_pos (dec k k) refl _ _

module _ {K V : Type 0} (dec : Discrete K) (less : K → K → Bool) where
  -- The items are in the order of their times.
  abbrev pub InOrder : List (Item K V) → Type 0
  InOrder [] = Unit
  InOrder (i ∷ is) = All (λ j. i.ts ≤ j.ts) is × InOrder is

  timeout_loop_lem :
      (ts : ℕ) (cache : List (K × ℕ)) (is : List (Item K V))
      → InOrder is
      → (is ≡ (timeout_loop dec less ts cache is).gone ++ (timeout_loop dec less ts cache is).timed)
        × All (λ i. i.ts ≤ ts) (timeout_loop dec less ts cache is).gone
        × All (λ i. ts < i.ts) (timeout_loop dec less ts cache is).timed
  unfolding timeout_loop
  timeout_loop_lem ts cache [] h = (refl, tt, tt)
  timeout_loop_lem ts cache (i ∷ is) h = elim (Bool-cases (leb i.ts ts)) [
    | inl e ↦
        let (split, due, later) = timeout_loop_lem ts (remove dec i.key cache) is h.1 in
        rw e (ap (◌∷◌ i) split, (leb→le i.ts ts e, due), later)
    | inr e ↦
        let late : ts < i.ts = not_leb i.ts ts e in
        rw e (refl, tt, (late, All-map is (λ j le. omega arith) h.0))
  ]

  -- `checkTimeout` takes out of the ordered set the items whose time has come, and no other.
  pub check_timeout_lem :
      (ts : ℕ) (c : TimedCache K V)
      → InOrder c.timed
      → (c.timed ≡ (check_timeout dec less ts c).1 ++ (check_timeout dec less ts c).0.timed)
        × All (λ i. i.ts ≤ ts) (check_timeout dec less ts c).1
        × All (λ i. ts < i.ts) (check_timeout dec less ts c).0.timed
  unfolding check_timeout
  check_timeout_lem ts c h = timeout_loop_lem ts c.cache c.timed h

  two_items :
      (k : K) (v w : V) (t u : ℕ)
      → t < u
      → insert dec less
          (record { key = k; val = w; ts = u })
          (record { key = k; val = v; ts = t } ∷ [])
        ≡ record { key = k; val = v; ts = t } ∷ record { key = k; val = w; ts = u } ∷ []
  unfolding insert before
  two_items k v w t u h = rw (differ u t h, differ' u t h, not_less u t h, lt→ltb t u h) refl

  exists_one :
      (k : K) (t : ℕ) (c : TimedCache K V)
      → exists dec less k (record c { cache = (k, t) ∷ [] }) ≡ true
  unfolding exists
  exists_one k t c = rw (find_front dec k t []) refl

  timed_out :
      (ts t u : ℕ) (k : K) (v w : V)
      → t ≤ ts
      → ts < u
      → (timeout_loop dec less ts
          ((k, u) ∷ [])
          (record { key = k; val = v; ts = t } ∷ record { key = k; val = w; ts = u } ∷ [])).cache
        ≡ []
  unfolding timeout_loop
  timed_out ts t u k v w h h' = rw (le→leb t ts h, remove_one dec k u, lt→not_leb u ts h') refl

  -- A key that is there with an earlier time is set once more.
  set_second :
      (k : K) (v w : V) (e now t elasticity : ℕ) (status : CacheStatus)
      → t < stamp e now
      → set dec less k w e now (record {
        max_size = 0;
        elasticity = elasticity;
        cache = (k, t) ∷ [];
        timed = record { key = k; val = v; ts = t } ∷ [];
        status = status;
      })
        ≡ some (
          record {
            max_size = 0;
            elasticity = elasticity;
            cache = (k, stamp e now) ∷ [];
            timed =
                record { key = k; val = v; ts = t }
                ∷ record { key = k; val = w; ts = stamp e now }
                ∷ [];
            status = inc_set status;
          },
          [],
        )
  unfolding set prune
  set_second k v w e now t elasticity status h =
      rw (remove_one dec k t, two_items k v w t (stamp e now) h) refl

  exists_none : (k : K) (c : TimedCache K V) → exists dec less k (record c { cache = [] }) ≡ false
  unfolding exists find
  exists_none k c = refl

  -- The first item of a key that is set again stays behind: when its time comes the key is lost,
  -- though the time of the second has not come. The cache is a new one without a limit.
  pub set_again_lost :
      (k : K) (v w : V) (e e' now now' ts elasticity : ℕ) (status : CacheStatus)
      → stamp e now ≤ ts
      → ts < stamp e' now'
      → (c : TimedCache K V) × (d : TimedCache K V) × (set dec less k v e now
            (init 0 elasticity status)
          ≡ some (c, []))
        × (set dec less k w e' now' c ≡ some (d, []))
        × (exists dec less k d ≡ true)
        × (exists dec less k (check_timeout dec less ts d).0 ≡ false)
  unfolding set prune init check_timeout insert remove
  set_again_lost k v w e e' now now' ts elasticity status h h' =
      (c, d, refl, again, exists_one k (stamp e' now') d, gone)
    where
      first : Item K V
      first = record { key = k; val = v; ts = stamp e now }

      second : Item K V
      second = record { key = k; val = w; ts = stamp e' now' }

      c : TimedCache K V
      c = record {
        max_size = 0;
        elasticity = elasticity;
        cache = (k, stamp e now) ∷ [];
        timed = first ∷ [];
        status = inc_set status;
      }

      d : TimedCache K V
      d = record {
        max_size = 0;
        elasticity = elasticity;
        cache = (k, stamp e' now') ∷ [];
        timed = first ∷ second ∷ [];
        status = inc_set (inc_set status);
      }

      again : set dec less k w e' now' c ≡ some (d, [])
      again = set_second k v w e' now' (stamp e now) elasticity (inc_set status) (omega arith)

      gone : exists dec less k (check_timeout dec less ts d).0 ≡ false
      gone = rw (timed_out ts (stamp e now) (stamp e' now') k v w h h') (
          exists_none k (record d {
            timed =
                (timeout_loop dec less ts ((k, stamp e' now') ∷ []) (first ∷ second ∷ [])).timed;
          }))
