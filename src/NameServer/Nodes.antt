-- ===== src/NameServer/Nodes.antt =====
-- Helens/ns/ns_protocol.cc: `NSNodeSet`.
use helens.Prelude.{ℕ, Option, none, some, List, [], map, length, ℕ_discrete}
use helens.Keyed.{find, remove, assign}
use helens.NameServer.{Node, NodeSet}

module _ {Ip : Type 0} where
  abbrev pub empty : ℕ → NodeSet Ip
  empty cmd = record { cmd = cmd; datas = [] }

  abbrev pub size : NodeSet Ip → ℕ
  size s = length s.datas

  unfoldable pub add : Node Ip → NodeSet Ip → NodeSet Ip
  add info s = record s { datas = assign ℕ_discrete info.id info s.datas }

  -- The node that was there, if any, is returned.
  unfoldable pub del : ℕ → NodeSet Ip → NodeSet Ip × Option (Node Ip)
  del id s = (record s { datas = remove ℕ_discrete id s.datas }, find ℕ_discrete id s.datas)

  abbrev pub get : ℕ → NodeSet Ip → Option (Node Ip)
  get id s = find ℕ_discrete id s.datas

  abbrev pub list_all : NodeSet Ip → List (Node Ip)
  list_all s = map (λ e. e.1) s.datas

  -- `if(!ns) ns.reset(new NSNodeSet(cmd))`
  abbrev pub set_or_new : ℕ → Option (NodeSet Ip) → NodeSet Ip
  set_or_new cmd none = empty cmd
  set_or_new cmd (some s) = s
