-- ===== src/NameServer/DomainLaws.antt =====
-- `NSDomainSet::get`, which may create the domain.
use mathlib.Core.Logic.{ite, if_pos, if_neg}
use helens.Prelude.{◌≡◌, refl, sym, ap, ◌∙◌, inl, inr, true, some, Option-cases}
use helens.Keyed.{find, assign, find-assign}
use helens.NameServer.{Domain, DomainSet}
use helens.NameServer.Commands
use helens.NameServer.Domains

module _ {D Ip : Type 0} (dec : Discrete D) where
  -- `get` with `auto_create` always returns a domain, which the set then holds under the name; it
  -- is the one that was there, if any, and no other name is looked up differently.
  pub domain_get_lem :
      (domain q : D) (ds : DomainSet D Ip)
      → (d : Domain D Ip) × (ds' : DomainSet D Ip) × (Domains.get dec domain true ds
          ≡ (ds', some d))
        × (find dec q ds'.datas ≡ ite (dec q domain) (some d) (find dec q ds.datas))
  unfolding Domains.get Domains.create_missing
  domain_get_lem domain q ds = elim (Option-cases (find dec domain ds.datas)) [
    | inl e ↦ (
      Commands.init domain,
      record { datas = assign dec domain (Commands.init domain) ds.datas },
      rw e refl,
      find-assign dec domain q (Commands.init domain) ds.datas,
    )
    | inr h ↦ (
      h.0,
      ds,
      rw h.1 refl,
      elim (dec q domain) [
        | yes p ↦ ap (λ t. find dec t ds.datas) p ∙ h.1 ∙ sym (if_pos (dec q domain) p _ _)
        | no p ↦ sym (if_neg (dec q domain) p _ _)
      ],
    )
  ]
