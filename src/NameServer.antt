-- ===== src/NameServer.antt =====
-- Helens/ns/ns_protocol.cc: the name server's domains, their sets of nodes and the nodes. A node set
-- and a domain are owned by the map that holds them: what a method does through the pointer that a
-- map gives it is written back into that map. The maps' keys are in no order that matters.
pub mod Nodes
pub mod Commands
pub mod Domains
pub mod Laws
pub mod DomainLaws
mod Tests
use Prim.Native.Nat.{bit_or}
use helens.Prelude.{ℕ, ◌*◌, ◌^◌, List}

-- `Ip` is the text of an address, which only `inet_addr` looks into.
pub record Node (Ip : Type 0) : Type 0 where
  pub id : ℕ
  pub ip : Ip
  pub port : ℕ
  pub weight : ℕ

pub record NodeSet (Ip : Type 0) : Type 0 where
  pub cmd : ℕ
  pub datas : List (ℕ × Node Ip)

pub record Domain (D Ip : Type 0) : Type 0 where
  pub domain : D
  pub datas : List (ℕ × NodeSet Ip)

pub record DomainSet (D Ip : Type 0) : Type 0 where
  pub datas : List (D × Domain D Ip)

-- `(ip_addr << 32) | port`
unfoldable pub make_id : ℕ → ℕ → ℕ
make_id ip_addr port = bit_or port (ip_addr * 2 ^ 32)

unfoldable pub create : {Ip : Type 0} → (Ip → ℕ) → Ip → ℕ → ℕ → Node Ip
create inet_addr ip port weight = record {
  id = make_id (inet_addr ip) port;
  ip = ip;
  port = port;
  weight = weight;
}

unfoldable pub set_weight : {Ip : Type 0} → ℕ → Node Ip → Node Ip
set_weight v n = record n { weight = v }

-- The key under which a map holds the set stays.
unfoldable pub set_cmd : {Ip : Type 0} → ℕ → NodeSet Ip → NodeSet Ip
set_cmd v s = record s { cmd = v }

unfoldable pub set_domain : {D Ip : Type 0} → D → Domain D Ip → Domain D Ip
set_domain v d = record d { domain = v }
