-- ===== src/Grants/Records.antt =====
-- crates/cbr-provider/src/grants.rs: the grant records and their stored form.
use cbr.Prelude.Partial.{◌>>=◌}
use cbr.Prelude.{
  Bool, false, Option, none, some, List, [], ◌∷◌, Text, codes, text_eq, if◌then◌else◌, ℤ, pos,
}
use cbr.Encoding.Access.{text_at, items_of, get_in, with_text, with_some, texts_of, strings}
use cbr.Encoding.Value.{
  Value, int, array, object, Items, no_items, item, Fields, no_fields, field, get, as_array,
}

pub record Resource : Type 0 where
  pub kind : Text
  pub id : Option Text
  pub id_prefix : Option Text

pub record DelegationTerms : Type 0 where
  pub allowed : Bool
  pub max_depth : ℤ

pub record Binding : Type 0 where
  pub scope : Text
  pub epoch : ℤ

-- The constraints are the items of an array.
pub record Grant : Type 0 where
  pub id : Text
  pub issuer : Text
  pub holder : Text
  pub audience : Text
  pub rights : List Text
  pub resources : List Resource
  pub expires_at : Option Text
  pub authority_binding : Option Binding
  pub delegation : DelegationTerms
  pub parent : Option Text
  pub revoked : Bool
  pub constraints : Items

-- `Resource::to_value`
unfoldable pub resource_value : Resource → Value
resource_value r = object (
    with_text (codes "kind") r.kind
      (with_some (codes "id") r.id (with_some (codes "id_prefix") r.id_prefix no_fields)))

unfoldable pub resource_values : List Resource → Items
unfolding resource_value
resource_values [] = no_items
resource_values (r ∷ more) = item (resource_value r) (resource_values more)

abbrev pub binding_value : Binding → Value
binding_value b =
    object (with_text (codes "scope") b.scope (field (codes "epoch") (int b.epoch) no_fields))

abbrev pub with_binding : Option Binding → Fields → Fields
with_binding none more = more
with_binding (some b) more = field (codes "authority_binding") (binding_value b) more

abbrev pub delegation_value : DelegationTerms → Value
delegation_value d = object (
    field (codes "allowed") (Value.bool d.allowed)
      (field (codes "max_depth") (int d.max_depth) no_fields))

abbrev pub with_constraints : Items → Fields → Fields
with_constraints no_items more = more
with_constraints (item first rest) more = field (codes "constraints") (array (item first rest)) more

unfoldable pub to_value : Grant → Value
unfolding resource_values
to_value g = object (
    with_text (codes "id") g.id (
      with_text (codes "issuer") g.issuer (
        with_text (codes "holder") g.holder (
          with_text (codes "audience") g.audience (
            field (codes "rights") (array (strings g.rights)) (
              field (codes "resources") (array (resource_values g.resources)) (
                with_some (codes "expires_at") g.expires_at (
                  with_binding g.authority_binding (
                    field (codes "delegation") (delegation_value g.delegation) (
                      with_some (codes "parent") g.parent (
                        with_constraints g.constraints (
                          with_text (codes "state")
                            (if g.revoked then codes "revoked" else codes "active")
                            no_fields))))))))))))

abbrev pub or_empty : Option Text → Text
or_empty none = []
or_empty (some text) = text

unfoldable pub read_resource : Value → Resource
read_resource value = record {
  kind = or_empty (text_at value (codes "kind"));
  id = text_at value (codes "id");
  id_prefix = text_at value (codes "id_prefix");
}

unfoldable pub read_resources : Items → List Resource
unfolding read_resource
read_resources no_items = []
read_resources (item value more) = read_resource value ∷ read_resources more

-- `?` on an array
abbrev pub array_at : Value → Text → Option Items
array_at value name = get value name >>= as_array

abbrev pub int_of : Option Value → Option ℤ
int_of (some (int n)) = some n
int_of _ = none

abbrev pub read_binding : Option Value → Option Binding
read_binding found = do
  binding ← found
  scope ← text_at binding (codes "scope")
  epoch ← int_of (get binding (codes "epoch"))
  some (record { scope = scope; epoch = epoch })

abbrev pub is_true : Option Value → Bool
is_true (some (Value.bool b)) = b
is_true _ = false

abbrev pub or_zero : Option ℤ → ℤ
or_zero none = pos 0
or_zero (some n) = n

abbrev pub is_revoked : Option Text → Bool
is_revoked none = false
is_revoked (some state) = text_eq state (codes "revoked")

unfoldable pub from_value : Value → Option Grant
unfolding read_resources
from_value value = do
  id ← text_at value (codes "id")
  issuer ← text_at value (codes "issuer")
  holder ← text_at value (codes "holder")
  audience ← text_at value (codes "audience")
  rights ← array_at value (codes "rights")
  resources ← array_at value (codes "resources")
  some (record {
    id = id;
    issuer = issuer;
    holder = holder;
    audience = audience;
    rights = texts_of rights;
    resources = read_resources resources;
    expires_at = text_at value (codes "expires_at");
    authority_binding = read_binding (get value (codes "authority_binding"));
    delegation = record {
      allowed = is_true (get_in (get value (codes "delegation")) (codes "allowed"));
      max_depth = or_zero (int_of (get_in (get value (codes "delegation")) (codes "max_depth")));
    };
    parent = text_at value (codes "parent");
    revoked = is_revoked (text_at value (codes "state"));
    constraints = items_of (get value (codes "constraints"));
  })
