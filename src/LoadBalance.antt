-- ===== src/LoadBalance.antt =====
-- Helens/streams/load_balance.cc: `LoadBalance`, `RoundRobinLoadBalance` and `WeightLoadBalance`. An
-- item is named by its id. Whether it is valid and what it weighs is asked of it when it is used:
-- `valid` and `weight` are the answers at that time. A weight is not negative.
pub mod RoundRobin
pub mod Weight
mod Tests
use helens.Prelude.{
  ℕ, zero, suc, ◌+◌, ◌%◌, ◌^◌, Bool, true, false, Option, none, some, List, [], ◌∷◌, map, length,
  get_elem?, ltb, leb, ◌-◌, ◌==◌, if◌then◌else◌, ℕ_discrete,
}
use helens.Keyed.{find, remove, assign}

-- The map by id, in no order that matters, and the items that `initNolock` took from it.
pub record Balancer (Item : Type 0) : Type 0 where
  pub datas : List (ℕ × Item)
  pub items : List Item
  pub weights : List ℕ
  pub last_init_time : ℕ

module _ {Item : Type 0} where
  unfoldable pub filter : (Item → Bool) → List (ℕ × Item) → List Item
  filter valid [] = []
  filter valid (e ∷ l) = let rest = filter valid l in if valid e.1 then e.1 ∷ rest else rest

  -- The running totals
  unfoldable pub totals : (Item → ℕ) → ℕ → List Item → List ℕ
  totals weight total [] = []
  totals weight total (h ∷ hs) = (total + weight h) ∷ totals weight (total + weight h) hs

  -- `initNolock`; a round robin has no use for the weights.
  unfoldable pub init : (Item → Bool) → (Item → ℕ) → Balancer Item → Balancer Item
  init valid weight b =
      let items = filter valid b.datas in
      record b { items = items; weights = totals weight 0 items }

  -- The difference of the times is 64 bits wide.
  unfoldable pub check_init : (Item → Bool) → (Item → ℕ) → ℕ → Balancer Item → Balancer Item
  check_init valid weight ts b =
      if ltb 500 ((ts + 2 ^ 64 - b.last_init_time) % 2 ^ 64)
      then record (init valid weight b) { last_init_time = ts }
      else b

  unfoldable pub get_by_id : ℕ → Balancer Item → Option Item
  get_by_id id b = find ℕ_discrete id b.datas

  unfoldable pub add : (Item → Bool) → (Item → ℕ) → ℕ → Item → Balancer Item → Balancer Item
  add valid weight id v b = init valid weight (record b { datas = assign ℕ_discrete id v b.datas })

  unfoldable pub del : (Item → Bool) → (Item → ℕ) → ℕ → Balancer Item → Balancer Item
  del valid weight id b = init valid weight (record b { datas = remove ℕ_discrete id b.datas })

  -- The loop over `dels`: the items that are left, and for each id the item that was there.
  unfoldable pub del_all : List ℕ → List (ℕ × Item) → List (ℕ × Item) × List (ℕ × Option Item)
  del_all [] datas = (datas, [])
  del_all (id ∷ ids) datas =
      let rest = del_all ids (remove ℕ_discrete id datas) in
      (rest.0, (id, find ℕ_discrete id datas) ∷ rest.1)

  unfoldable pub add_all : List (ℕ × Item) → List (ℕ × Item) → List (ℕ × Item)
  add_all [] datas = datas
  add_all (e ∷ es) datas = add_all es (assign ℕ_discrete e.0 e.1 datas)

  -- The second result is what `dels` holds afterwards; an id that was not there keeps what it had.
  unfoldable pub update :
      (Item → Bool)
      → (Item → ℕ)
      → List (ℕ × Item)
      → List ℕ
      → Balancer Item
      → Balancer Item × List (ℕ × Option Item)
  update valid weight adds dels b =
      let deleted = del_all dels b.datas in
      (init valid weight (record b { datas = add_all adds deleted.0 }), deleted.1)

  unfoldable pub set : (Item → Bool) → (Item → ℕ) → List (ℕ × Item) → Balancer Item → Balancer Item
  set valid weight vs b = init valid weight (record b { datas = add_all vs [] })

  -- `if(h->isValid()) return h;` at an index, and what follows otherwise
  unfoldable pub pick : (Item → Bool) → Option Item → Option Item → Option Item
  pick valid rest none = none
  pick valid rest (some h) = if valid h then some h else rest

  -- The loop over `(start + i) % size`, with the rounds that are left
  unfoldable pub scan : (Item → Bool) → List Item → ℕ → ℕ → ℕ → Option Item
  scan valid items start i zero = none
  scan valid items start i (suc rounds) =
      let rest = scan valid items start (suc i) rounds in
      pick valid rest (get_elem? items ((start + i) % length items))

  -- `RoundRobinLoadBalance::get` after `checkInit`; `v` is the argument, or what `rand` gives for -1.
  unfoldable pub get_round_robin : (Item → Bool) → ℕ → Balancer Item → Option Item
  get_round_robin valid v b =
      if length b.items == 0
      then none
      else scan valid b.items (v % length b.items % 2 ^ 32) 0 (length b.items)

-- `upper_bound(weights, dis)`: the place of the first that is greater
unfoldable pub upper_bound : ℕ → List ℕ → ℕ
upper_bound dis [] = 0
upper_bound dis (w ∷ ws) = let rest = upper_bound dis ws in if leb w dis then suc rest else 0

abbrev pub last_or : ℕ → List ℕ → ℕ
last_or d [] = d
last_or d (w ∷ ws) = last_or w ws

-- What `getIdx` comes to: -1, an index, or a division by zero.
pub data Index : Type 0 where
  no_index : Index
  index : ℕ → Index
  divided_by_zero : Index

unfoldable pub get_idx : ℕ → List ℕ → Index
get_idx v weights =
    let total = last_or 0 weights in
    if length weights == 0
    then no_index
    else if total == 0
    then divided_by_zero
    else index (upper_bound (v % total) weights)

-- `WeightLoadBalance::get` after `checkInit`
unfoldable pub get_weight :
    {Item : Type 0} → (Item → Bool) → ℕ → Balancer Item → Option (Option Item)
get_weight valid v b = elim (get_idx v b.weights) [
  | no_index ↦ some none
  | divided_by_zero ↦ none
  | index i ↦ some (scan valid b.items i 0 (length b.items))
]
