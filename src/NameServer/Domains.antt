-- ===== src/NameServer/Domains.antt =====
-- Helens/ns/ns_protocol.cc: `NSDomainSet`, the domains by name.
use helens.Prelude.{ℕ, Bool, true, false, Option, none, some, List, map, ℕ_discrete}
use helens.Keyed.{find, remove, assign}
use helens.NameServer.{NodeSet, Domain, DomainSet}
use helens.NameServer.Nodes
use helens.NameServer.Commands

module _ {D Ip : Type 0} (dec : Discrete D) where
  unfoldable pub add : Domain D Ip → DomainSet D Ip → DomainSet D Ip
  add info ds = record { datas = assign dec info.domain info ds.datas }

  unfoldable pub del_domain : D → DomainSet D Ip → DomainSet D Ip
  del_domain domain ds = record { datas = remove dec domain ds.datas }

  unfoldable pub create_missing :
      D → DomainSet D Ip → Option (Domain D Ip) → DomainSet D Ip × Option (Domain D Ip)
  create_missing domain ds (some d) = (ds, some d)
  create_missing domain ds none = (
    record { datas = assign dec domain (Commands.init domain) ds.datas },
    some (Commands.init domain),
  )

  unfoldable pub get : D → Bool → DomainSet D Ip → DomainSet D Ip × Option (Domain D Ip)
  get domain false ds = (ds, find dec domain ds.datas)
  get domain true ds = create_missing domain ds (find dec domain ds.datas)

  unfoldable pub del_in_set :
      D → ℕ → ℕ → Domain D Ip → DomainSet D Ip → Option (NodeSet Ip) → DomainSet D Ip
  del_in_set domain cmd id d ds none = ds
  del_in_set domain cmd id d ds (some s) = record {
    datas =
        assign dec domain (record d { datas = assign ℕ_discrete cmd (Nodes.del id s).0 d.datas })
          ds.datas;
  }

  unfoldable pub del_in_domain : D → ℕ → ℕ → DomainSet D Ip → Option (Domain D Ip) → DomainSet D Ip
  del_in_domain domain cmd id ds none = ds
  del_in_domain domain cmd id ds (some d) = del_in_set domain cmd id d ds (Commands.get cmd d)

  unfoldable pub del : D → ℕ → ℕ → DomainSet D Ip → DomainSet D Ip
  del domain cmd id ds = del_in_domain domain cmd id ds (find dec domain ds.datas)

  abbrev pub list_all : DomainSet D Ip → List (Domain D Ip)
  list_all ds = map (λ e. e.1) ds.datas

abbrev pub swap :
    {D Ip : Type 0} → DomainSet D Ip → DomainSet D Ip → DomainSet D Ip × DomainSet D Ip
swap a b = (b, a)
