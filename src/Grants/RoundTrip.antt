-- ===== src/Grants/RoundTrip.antt =====
-- A grant is read back from its record.
use cbr.Prelude.{
  ◌≡◌, refl, ap, Bool, true, false, Option, none, some, List, [], ◌∷◌, Text, codes, text_eq,
  if◌then◌else◌,
}
use cbr.Encoding.Access.{text_of, items_of, with_text, with_some, texts_of, strings}
use cbr.Encoding.Value.{
  Items, no_items, item, Fields, no_fields, field, get, find_field, as_str, as_array,
}
use cbr.Grants.Records.{
  Resource, DelegationTerms, Binding, Grant, resource_value, resource_values, delegation_value,
  with_constraints, to_value, read_resource, read_resources, is_revoked, from_value,
}

texts_of-strings : (texts : List Text) → texts_of (strings texts) ≡ texts
unfolding as_str
texts_of-strings [] = refl
texts_of-strings (text ∷ more) = ap (λ l. text ∷ l) (texts_of-strings more)

read_fields :
    (kind : Text) (id id_prefix : Option Text)
    → let r : Resource = record { kind = kind; id = id; id_prefix = id_prefix } in
      read_resource (resource_value r) ≡ r
unfolding read_resource resource_value get text_eq text_of
read_fields kind none none = refl
read_fields kind none (some start) = refl
read_fields kind (some id) none = refl
read_fields kind (some id) (some start) = refl

read_resources-values :
    (resources : List Resource) → read_resources (resource_values resources) ≡ resources
unfolding read_resources resource_values
read_resources-values [] = refl
read_resources-values (r ∷ more) =
    rw (read_fields r.kind r.id r.id_prefix, read_resources-values more) refl

-- The members of a record from its delegation on.
abbrev tail_of : DelegationTerms → Option Text → Items → Bool → Fields
tail_of d parent constraints revoked = field (codes "delegation") (delegation_value d) (
    with_some (codes "parent") parent (
      with_constraints constraints (
        with_text (codes "state") (if revoked then codes "revoked" else codes "active") no_fields)))

record TailReads (d : DelegationTerms) (parent : Option Text) (constraints : Items) (revoked : Bool)
    : Type 0 where
  no_expiry : find_field (codes "expires_at") (tail_of d parent constraints revoked) ≡ none
  no_binding : find_field (codes "authority_binding") (tail_of d parent constraints revoked) ≡ none
  parent_eq : text_of (find_field (codes "parent") (tail_of d parent constraints revoked)) ≡ parent
  constraints_eq :
      items_of (find_field (codes "constraints") (tail_of d parent constraints revoked))
      ≡ constraints
  revoked_eq :
      is_revoked (text_of (find_field (codes "state") (tail_of d parent constraints revoked)))
      ≡ revoked

tail-TailReads :
    (d : DelegationTerms) (parent : Option Text) (constraints : Items) (revoked : Bool)
    → TailReads d parent constraints revoked
unfolding find_field text_eq text_of items_of
tail-TailReads d none no_items true = record {
  no_expiry = refl;
  no_binding = refl;
  parent_eq = refl;
  constraints_eq = refl;
  revoked_eq = refl;
}
tail-TailReads d none no_items false = record {
  no_expiry = refl;
  no_binding = refl;
  parent_eq = refl;
  constraints_eq = refl;
  revoked_eq = refl;
}
tail-TailReads d none (item c cs) true = record {
  no_expiry = refl;
  no_binding = refl;
  parent_eq = refl;
  constraints_eq = refl;
  revoked_eq = refl;
}
tail-TailReads d none (item c cs) false = record {
  no_expiry = refl;
  no_binding = refl;
  parent_eq = refl;
  constraints_eq = refl;
  revoked_eq = refl;
}
tail-TailReads d (some p) no_items true = record {
  no_expiry = refl;
  no_binding = refl;
  parent_eq = refl;
  constraints_eq = refl;
  revoked_eq = refl;
}
tail-TailReads d (some p) no_items false = record {
  no_expiry = refl;
  no_binding = refl;
  parent_eq = refl;
  constraints_eq = refl;
  revoked_eq = refl;
}
tail-TailReads d (some p) (item c cs) true = record {
  no_expiry = refl;
  no_binding = refl;
  parent_eq = refl;
  constraints_eq = refl;
  revoked_eq = refl;
}
tail-TailReads d (some p) (item c cs) false = record {
  no_expiry = refl;
  no_binding = refl;
  parent_eq = refl;
  constraints_eq = refl;
  revoked_eq = refl;
}

read_back :
    (id issuer holder audience : Text) (rights : List Text) (resources : List Resource)
    (expires_at : Option Text) (binding : Option Binding) (d : DelegationTerms)
    (parent : Option Text) (revoked : Bool) (constraints : Items)
    → let g : Grant = record {
      id = id;
      issuer = issuer;
      holder = holder;
      audience = audience;
      rights = rights;
      resources = resources;
      expires_at = expires_at;
      authority_binding = binding;
      delegation = d;
      parent = parent;
      revoked = revoked;
      constraints = constraints;
    } in
      from_value (to_value g) ≡ some g
unfolding from_value to_value get text_eq text_of as_array
read_back id issuer holder audience rights resources none none d parent revoked constraints =
    let t = tail-TailReads d parent constraints revoked in
    rw
      (
        texts_of-strings rights,
        read_resources-values resources,
        t.no_expiry,
        t.no_binding,
        t.parent_eq,
        t.constraints_eq,
        t.revoked_eq,
      )
      refl
read_back id issuer holder audience rights resources none (some b) d parent revoked constraints =
    let t = tail-TailReads d parent constraints revoked in
    rw
      (
        texts_of-strings rights,
        read_resources-values resources,
        t.no_expiry,
        t.parent_eq,
        t.constraints_eq,
        t.revoked_eq,
      )
      refl
read_back id issuer holder audience rights resources (some e) none d parent revoked constraints =
    let t = tail-TailReads d parent constraints revoked in
    rw
      (
        texts_of-strings rights,
        read_resources-values resources,
        t.no_binding,
        t.parent_eq,
        t.constraints_eq,
        t.revoked_eq,
      )
      refl
read_back id issuer holder audience rights resources (some e) (some b) d parent revoked
      constraints =
    let t = tail-TailReads d parent constraints revoked in
    rw
      (
        texts_of-strings rights,
        read_resources-values resources,
        t.parent_eq,
        t.constraints_eq,
        t.revoked_eq,
      )
      refl

-- Every grant is read back from the record that is stored for it.
pub from_value-to_value : (g : Grant) → from_value (to_value g) ≡ some g
from_value-to_value g =
    read_back g.id g.issuer g.holder g.audience g.rights g.resources g.expires_at
      g.authority_binding g.delegation g.parent g.revoked g.constraints
