-- ===== src/NameServer/Laws.antt =====
-- A name server is a map from the domain, the command and the id to a node.
use mathlib.Core.Logic.{ite, if_pos, if_neg}
use mathlib.Core.List.{Nodup}
use mathlib.Core.List.Pairwise
use helens.Prelude.{
  ℕ, suc, ◌<◌, ◌≡◌, refl, sym, ap, ◌∙◌, inl, inr, Option, none, some, List, arith, length,
  ℕ_discrete, ◌==◌, Bool-cases, All,
}
use helens.Keyed.{
  keys, find, remove, assign, find-assign, find-remove, assign-Nodup, remove-Nodup, All-assign,
  All-remove, All-find, find-empty,
}
use helens.NameServer.{Node, NodeSet, Domain}
use helens.NameServer.Nodes
use helens.NameServer.Commands

module _ {Ip : Type 0} where
  abbrev pub node_in : ℕ → Option (NodeSet Ip) → Option (Node Ip)
  node_in id none = none
  node_in id (some s) = Nodes.get id s

  pub record SetValid (s : NodeSet Ip) : Type 0 where
    pub ids : Nodup (keys s.datas)
    pub some_node : 0 < length s.datas

  node_in_new :
      (o : Option (NodeSet Ip)) (cmd id : ℕ) → Nodes.get id (Nodes.set_or_new cmd o) ≡ node_in id o
  unfolding find
  node_in_new none cmd id = refl
  node_in_new (some s) cmd id = refl

  added-SetValid :
      (info : Node Ip) (s : NodeSet Ip) → Nodup (keys s.datas) → SetValid (Nodes.add info s)
  unfolding Nodes.add assign
  added-SetValid info s n = record {
    ids = assign-Nodup ℕ_discrete info.id info s.datas n;
    some_node = length-assign (remove ℕ_discrete info.id s.datas);
  }
    where
      length-assign : (l : List (ℕ × Node Ip)) → 0 < suc (length l)
      length-assign l = omega arith

module _ {D Ip : Type 0} where
  -- The node that a domain has for a command and an id.
  abbrev pub look_up : ℕ → ℕ → Domain D Ip → Option (Node Ip)
  look_up cmd id d = node_in id (Commands.get cmd d)

  -- No command stands twice, and no set is empty.
  pub record IsValid (d : Domain D Ip) : Type 0 where
    pub cmds : Nodup (keys d.datas)
    pub sets : All (λ e. SetValid e.1) d.datas

  ids_of :
      (o : Option (NodeSet Ip)) (cmd : ℕ) (d : Domain D Ip)
      → IsValid d
      → Commands.get cmd d ≡ o
      → Nodup (keys (Nodes.set_or_new cmd o).datas)
  ids_of none cmd d v e = Pairwise.nil
  ids_of (some s) cmd d v e = (All-find ℕ_discrete SetValid cmd s d.datas v.sets e).ids

  look_up-assigned :
      (cmd q id : ℕ) (s : NodeSet Ip) (d : Domain D Ip)
      → look_up q id (record d { datas = assign ℕ_discrete cmd s d.datas })
        ≡ ite (ℕ_discrete q cmd) (Nodes.get id s) (look_up q id d)
  look_up-assigned cmd q id s d = elim (ℕ_discrete q cmd) [
    | yes p ↦
        ap (node_in id) (find-assign ℕ_discrete cmd q s d.datas ∙ if_pos (ℕ_discrete q cmd) p _ _)
        ∙ sym (if_pos (ℕ_discrete q cmd) p _ _)
    | no p ↦
        ap (node_in id) (find-assign ℕ_discrete cmd q s d.datas ∙ if_neg (ℕ_discrete q cmd) p _ _)
        ∙ sym (if_neg (ℕ_discrete q cmd) p _ _)
  ]

  -- `add` of a node puts it where its command and id are, and changes no other look-up.
  pub node_add_lem :
      (cmd q id : ℕ) (info : Node Ip) (d : Domain D Ip)
      → IsValid d
      → IsValid (Commands.add cmd info d)
        × (look_up q id (Commands.add cmd info d)
            ≡ ite
                (ℕ_discrete q cmd)
                (ite (ℕ_discrete id info.id) (some info) (look_up cmd id d))
                (look_up q id d))
  unfolding Commands.add Nodes.add
  node_add_lem cmd q id info d v =
      let s = Nodes.set_or_new cmd (Commands.get cmd d) in
      let n = ids_of (Commands.get cmd d) cmd d v refl in
      (
        record {
          cmds = assign-Nodup ℕ_discrete cmd (Nodes.add info s) d.datas v.cmds;
          sets =
              All-assign ℕ_discrete (λ e. SetValid e.1) cmd (Nodes.add info s) d.datas
                (added-SetValid info s n) v.sets;
        },
        look_up-assigned cmd q id (Nodes.add info s) d
            ∙ ap (λ t. ite (ℕ_discrete q cmd) t (look_up q id d))
                (find-assign ℕ_discrete info.id id info s.datas
                  ∙ ap (ite (ℕ_discrete id info.id) (some info))
                      (node_in_new (Commands.get cmd d) cmd id)),
      )

  removed_lem :
      (cmd q id : ℕ) (s : NodeSet Ip) (d : Domain D Ip)
      → IsValid d
      → length s.datas ≡ 0
      → IsValid (Commands.del_set cmd d)
        × (look_up q id (Commands.del_set cmd d)
            ≡ ite (ℕ_discrete q cmd) (Nodes.get id s) (look_up q id d))
  unfolding Commands.del_set
  removed_lem cmd q id s d v e = (
    record {
      cmds = remove-Nodup ℕ_discrete cmd d.datas v.cmds;
      sets = All-remove ℕ_discrete (λ x. SetValid x.1) cmd d.datas v.sets;
    },
    elim (ℕ_discrete q cmd) [
      | yes p ↦
          ap (node_in id)
            (find-remove ℕ_discrete cmd q d.datas v.cmds ∙ if_pos (ℕ_discrete q cmd) p _ _)
          ∙ sym (if_pos (ℕ_discrete q cmd) p _ _ ∙ find-empty ℕ_discrete id s.datas e)
      | no p ↦
          ap (node_in id)
            (find-remove ℕ_discrete cmd q d.datas v.cmds ∙ if_neg (ℕ_discrete q cmd) p _ _)
          ∙ sym (if_neg (ℕ_discrete q cmd) p _ _)
    ],
  )

  -- The set of a command is put back, or goes when it is empty.
  without_lem :
      (cmd q id : ℕ) (s : NodeSet Ip) (d : Domain D Ip)
      → IsValid d
      → Nodup (keys s.datas)
      → IsValid (Commands.without cmd s d)
        × (look_up q id (Commands.without cmd s d)
            ≡ ite (ℕ_discrete q cmd) (Nodes.get id s) (look_up q id d))
  unfolding Commands.without
  without_lem cmd q id s d v n = elim (Bool-cases (Nodes.size s == 0)) [
    | inl e ↦ rw e (removed_lem cmd q id s d v (ground arith))
    | inr e ↦ rw e (
      record {
        cmds = assign-Nodup ℕ_discrete cmd s d.datas v.cmds;
        sets =
            All-assign ℕ_discrete (λ x. SetValid x.1) cmd s d.datas
              (record { ids = n; some_node = ground arith }) v.sets;
      },
      look_up-assigned cmd q id s d,
    )
  ]

  del_from_lem :
      (o : Option (NodeSet Ip)) (cmd q id i : ℕ) (d : Domain D Ip)
      → IsValid d
      → Commands.get cmd d ≡ o
      → ((Commands.del_from cmd id d o).1 ≡ node_in id o)
        × IsValid (Commands.del_from cmd id d o).0
        × (look_up q i (Commands.del_from cmd id d o).0
            ≡ ite (ℕ_discrete q cmd) (ite (ℕ_discrete i id) none (node_in i o)) (look_up q i d))
  unfolding Commands.del_from Nodes.del
  del_from_lem none cmd q id i d v e = (
    refl,
    v,
    elim (ℕ_discrete q cmd) [
      | yes p ↦
          ap (λ t. look_up t i d) p
          ∙ ap (node_in i) e
          ∙ sym (if_pos (ℕ_discrete q cmd) p _ _ ∙ nothing (ℕ_discrete i id))
      | no p ↦ sym (if_neg (ℕ_discrete q cmd) p _ _)
    ],
  )
    where
      nothing : (c : Dec (i ≡ id)) → ite {C = Option (Node Ip)} c none none ≡ none
      nothing (yes p) = refl
      nothing (no p) = refl
  del_from_lem (some s) cmd q id i d v e =
      let n = (All-find ℕ_discrete SetValid cmd s d.datas v.sets e).ids in
      let (valid, look) =
        without_lem cmd q i (Nodes.del id s).0 d v (remove-Nodup ℕ_discrete id s.datas n) in
      (
        refl,
        valid,
        look
            ∙ ap (λ t. ite (ℕ_discrete q cmd) t (look_up q i d))
                (find-remove ℕ_discrete id i s.datas n),
      )

  -- `del` of a node returns the node that was there; it is gone, every other look-up is as before,
  -- and no empty set is left.
  pub node_del_lem :
      (cmd q id i : ℕ) (d : Domain D Ip)
      → IsValid d
      → ((Commands.del cmd id d).1 ≡ look_up cmd id d)
        × IsValid (Commands.del cmd id d).0
        × (look_up q i (Commands.del cmd id d).0
            ≡ ite (ℕ_discrete q cmd) (ite (ℕ_discrete i id) none (look_up cmd i d)) (look_up q i d))
  unfolding Commands.del
  node_del_lem cmd q id i d v = del_from_lem (Commands.get cmd d) cmd q id i d v refl
