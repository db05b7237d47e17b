-- ===== src/NameServer/Commands.antt =====
-- Helens/ns/ns_protocol.cc: `NSDomain`, the node sets of a domain by command.
use helens.Prelude.{ℕ, Option, none, some, List, [], map, length, ℕ_discrete, if◌then◌else◌, ◌==◌}
use helens.Keyed.{find, remove, assign}
use helens.NameServer.{Node, NodeSet, Domain}
use helens.NameServer.Nodes

module _ {D Ip : Type 0} where
  abbrev pub init : D → Domain D Ip
  init domain = record { domain = domain; datas = [] }

  abbrev pub size : Domain D Ip → ℕ
  size d = length d.datas

  abbrev pub get : ℕ → Domain D Ip → Option (NodeSet Ip)
  get cmd d = find ℕ_discrete cmd d.datas

  unfoldable pub add_set : NodeSet Ip → Domain D Ip → Domain D Ip
  add_set info d = record d { datas = assign ℕ_discrete info.cmd info d.datas }

  unfoldable pub add : ℕ → Node Ip → Domain D Ip → Domain D Ip
  add cmd info d = record d {
    datas = assign ℕ_discrete cmd (Nodes.add info (Nodes.set_or_new cmd (get cmd d))) d.datas;
  }

  unfoldable pub del_set : ℕ → Domain D Ip → Domain D Ip
  del_set cmd d = record d { datas = remove ℕ_discrete cmd d.datas }

  -- What the set is after its node has gone; an empty set goes as well.
  unfoldable pub without : ℕ → NodeSet Ip → Domain D Ip → Domain D Ip
  without cmd s d =
      if Nodes.size s == 0
      then del_set cmd d
      else record d { datas = assign ℕ_discrete cmd s d.datas }

  unfoldable pub del_from :
      ℕ → ℕ → Domain D Ip → Option (NodeSet Ip) → Domain D Ip × Option (Node Ip)
  del_from cmd id d none = (d, none)
  del_from cmd id d (some s) = (without cmd (Nodes.del id s).0 d, (Nodes.del id s).1)

  -- One step, though the code holds the lock in each of its three calls only, and not in between.
  unfoldable pub del : ℕ → ℕ → Domain D Ip → Domain D Ip × Option (Node Ip)
  del cmd id d = del_from cmd id d (get cmd d)

  abbrev pub list_all : Domain D Ip → List (NodeSet Ip)
  list_all d = map (λ e. e.1) d.datas
