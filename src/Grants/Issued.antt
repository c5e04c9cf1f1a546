-- ===== src/Grants/Issued.antt =====
-- What an issued grant looks like.
use cbr.Prelude.{◌≡◌, true, false, Text, All, pos, leb_ℤ}
use cbr.Encoding.Value.{Value}
use cbr.Grants.Records.{Grant}
use cbr.Grants.Issue.{is_nonempty}
use cbr.Grants.Checks.{is_nonempty_list, IsResource, IsExpiry, IsBinding, IsParent, AreConstraints}

pub record IsIssued (id issuer : Text) (g : Grant) : Type 0 where
  pub id_eq : g.id ≡ id
  pub issuer_eq : g.issuer ≡ issuer
  pub holder : is_nonempty g.holder ≡ true
  pub audience : is_nonempty g.audience ≡ true
  pub some_rights : is_nonempty_list g.rights ≡ true
  pub rights : All (λ right. is_nonempty right ≡ true) g.rights
  pub some_resources : is_nonempty_list g.resources ≡ true
  pub resources : All IsResource g.resources
  pub depth : leb_ℤ (pos 0) g.delegation.max_depth ≡ true
  pub expiry : IsExpiry g.expires_at
  pub binding : IsBinding g.authority_binding
  pub parent : IsParent g.parent
  pub constraints : AreConstraints g.constraints
  pub active : g.revoked ≡ false
