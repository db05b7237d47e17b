-- ===== src/NameServer/Tests.antt =====
-- Runs of the name server at concrete inputs.
use mathlib.Core.Logic.{ite}
use mathlib.Core.List.Pairwise
use helens.Prelude.{ℕ, ◌≡◌, refl, none, [], ◌∷◌, ℕ_discrete, arith}
use helens.Keyed.{contains, cons-Nodup, find, remove}
use helens.NameServer.{Node, Domain, DomainSet, make_id}
use helens.NameServer.Nodes
use helens.NameServer.Commands
use helens.NameServer.Laws.{IsValid, look_up, node_del_lem}

abbrev one : Node ℕ
one = record { id = 11; ip = 1; port = 80; weight = 5 }

abbrev two : Node ℕ
two = record { id = 12; ip = 2; port = 80; weight = 5 }

abbrev shop : Domain ℕ ℕ
shop = record { domain = 1; datas = (100, record { cmd = 100; datas = (11, one) ∷ [] }) ∷ [] }

shop-IsValid : IsValid shop
unfolding contains
shop-IsValid = record {
  cmds = cons-Nodup ℕ_discrete 100 [] refl Pairwise.nil;
  sets =
      (record { ids = cons-Nodup ℕ_discrete 11 [] refl Pairwise.nil; some_node = omega arith }, tt);
}

-- The address 10.0.0.1 of a little-endian host, and port 80
id_of_node : make_id 0x0100000a 80 ≡ 0x0100000a00000050
unfolding make_id
id_of_node = refl

-- With its last node a set goes.
last_node_gone : (Commands.del 100 11 shop).0 ≡ record shop { datas = [] }
unfolding Commands.del Commands.del_from Commands.without Commands.del_set Nodes.del find remove
    ℕ_discrete
last_node_gone = refl

node_del_lem_example :
    ((Commands.del 100 11 shop).1 ≡ look_up 100 11 shop)
    × IsValid (Commands.del 100 11 shop).0
    × (look_up 100 11 (Commands.del 100 11 shop).0
        ≡ ite
            (ℕ_discrete 100 100)
            (ite (ℕ_discrete 11 11) none (look_up 100 11 shop))
            (look_up 100 11 shop))
node_del_lem_example = node_del_lem 100 100 11 11 shop shop-IsValid

abbrev town : DomainSet ℕ ℕ
town = record { datas = (1, shop) ∷ [] }
