-- ===== src/Grants/Issue.antt =====
-- crates/cbr-provider/src/grants.rs: an issue payload read into a record.
use cbr.Prelude.Results.{Result, ok, err, ◌>>=◌}
use cbr.Prelude.{
  ℕ, ◌+◌, Bool, true, false, ◌&&◌, ◌||◌, Option, none, some, List, [], ◌∷◌, ◌++◌, Text, Bytes,
  codes, text_eq, length, get_or, all, in_range, ◌==◌, if◌then◌else◌, pos,
}
use cbr.Encoding.Utf8.{utf8}
use cbr.Encoding.Decimal.{digits}
use cbr.Encoding.Access.{text_of, text_at, as_natural, get_in}
use cbr.Encoding.Value.{
  Value, string, array, object, Items, no_items, item, Fields, no_fields, field, get, as_str,
}
use cbr.Envelope.Names.{is_identifier}
use cbr.Envelope.Members.{Checked, all_known}
use cbr.Grants.Records.{Resource, DelegationTerms, Binding, Grant}
use cbr.Protocol.{ProtocolError, invalid_envelope}

-- An error at a path below `/payload/`.
abbrev pub refuse {ℓ} : {A : Type ℓ} → Text → Text → Result A ProtocolError
refuse path reason = err (invalid_envelope (codes "/payload/" ++ path) reason)

abbrev pub is_nonempty : Text → Bool
is_nonempty [] = false
is_nonempty (c ∷ text) = true

-- `Value::String(text) if !text.is_empty()`
abbrev pub nonempty_text : Option Text → Option Text
nonempty_text none = none
nonempty_text (some []) = none
nonempty_text (some (c ∷ text)) = some (c ∷ text)

abbrev pub value_or : {A : Type 0} → Option A → Text → Text → Result A ProtocolError
value_or none path reason = refuse path reason
value_or (some text) path reason = ok text

unfoldable pub nonempty_at : Value → Text → Result Text ProtocolError
nonempty_at payload name =
    value_or (nonempty_text (text_at payload name)) name (codes "not a non-empty string")

unfoldable pub right_names : ℕ → Items → Result (List Text) ProtocolError
right_names index no_items = ok []
right_names index (item value more) = do
  name ←
      value_or (nonempty_text (as_str value)) (codes "rights/" ++ digits index)
        (codes "not a right name")
  names ← right_names (index + 1) more
  ok (name ∷ names)

unfoldable pub rights_of : Option Value → Result (List Text) ProtocolError
rights_of (some (array (item first more))) = right_names 0 (item first more)
rights_of _ = refuse (codes "rights") (codes "not a non-empty array")

abbrev pub is_some {ℓ} : {A : Type ℓ} → Option A → Bool
is_some none = false
is_some (some a) = true

unfoldable pub resource_of : Text → Value → Result Resource ProtocolError
resource_of path (object members) = do
  _ ←
      all_known (codes "/payload/" ++ path ++ codes "/")
        (codes "kind" ∷ codes "id" ∷ codes "id_prefix" ∷ []) members
  kind ←
      value_or (nonempty_text (text_at (object members) (codes "kind"))) (path ++ codes "/kind")
        (codes "not a subject kind")
  if is_some (text_at (object members) (codes "id"))
        && is_some (text_at (object members) (codes "id_prefix"))
      then refuse path (codes "id and id_prefix are exclusive")
      else ok (record {
        kind = kind;
        id = text_at (object members) (codes "id");
        id_prefix = text_at (object members) (codes "id_prefix");
      })
resource_of path _ = refuse path (codes "not an object")

unfoldable pub resource_list : ℕ → Items → Result (List Resource) ProtocolError
resource_list index no_items = ok []
resource_list index (item value more) = do
  resource ← resource_of (codes "resources/" ++ digits index) value
  resources ← resource_list (index + 1) more
  ok (resource ∷ resources)

unfoldable pub resources_of : Option Value → Result (List Resource) ProtocolError
resources_of (some (array (item first more))) = resource_list 0 (item first more)
resources_of _ = refuse (codes "resources") (codes "not a non-empty array")

abbrev pub flag_of : Option Value → Option Bool
flag_of (some (Value.bool b)) = some b
flag_of _ = none

abbrev pub natural_of : Option Value → Option ℕ
natural_of none = none
natural_of (some value) = as_natural value

unfoldable pub terms_of : Option Value → Result DelegationTerms ProtocolError
terms_of (some (object members)) = do
  _ ← all_known (codes "/payload/delegation/") (codes "allowed" ∷ codes "max_depth" ∷ []) members
  allowed ←
      value_or (flag_of (get (object members) (codes "allowed"))) (codes "delegation/allowed")
        (codes "not a boolean")
  max_depth ←
      value_or (natural_of (get (object members) (codes "max_depth")))
        (codes "delegation/max_depth") (codes "not a non-negative integer")
  ok (record { allowed = allowed; max_depth = pos max_depth })
terms_of _ = refuse (codes "delegation") (codes "not an object")

abbrev is_digit : ℕ → Bool
is_digit b = in_range b'0' b'9' b

abbrev digit_places : List ℕ
digit_places = 0 ∷ 1 ∷ 2 ∷ 3 ∷ 5 ∷ 6 ∷ 8 ∷ 9 ∷ 11 ∷ 12 ∷ 14 ∷ 15 ∷ 17 ∷ 18 ∷ []

abbrev punctuation : List (ℕ × ℕ)
punctuation = (4, b'-') ∷ (7, b'-') ∷ (10, b'T') ∷ (13, b':') ∷ (16, b':') ∷ []

abbrev instant_bytes : Bytes → Bool
instant_bytes bytes =
    length bytes == 20
    && (all (λ i. is_digit (get_or bytes i 0)) digit_places
        && (all (λ place. get_or bytes place.0 0 == place.1) punctuation
            && get_or bytes 19 0 == b'Z'))

unfoldable pub is_instant : Text → Bool
unfolding utf8
is_instant text = instant_bytes (utf8 text)

unfoldable pub expiry_of : Option Value → Result (Option Text) ProtocolError
expiry_of none = ok none
expiry_of (some (string instant)) =
    if is_instant instant
    then ok (some instant)
    else refuse (codes "expires_at") (codes "not a UTC instant")
expiry_of (some _) = refuse (codes "expires_at") (codes "not a UTC instant")

unfoldable pub binding_of : Option Value → Result (Option Binding) ProtocolError
binding_of none = ok none
binding_of (some (object members)) = do
  _ ← all_known (codes "/payload/authority_binding/") (codes "scope" ∷ codes "epoch" ∷ []) members
  scope ←
      value_or (nonempty_text (text_at (object members) (codes "scope")))
        (codes "authority_binding/scope") (codes "not a scope name")
  epoch ←
      value_or (natural_of (get (object members) (codes "epoch"))) (codes "authority_binding/epoch")
        (codes "not a non-negative integer")
  ok (some (record { scope = scope; epoch = pos epoch }))
binding_of (some _) = refuse (codes "authority_binding") (codes "not an object")

-- The one constraint kind: `evidence.work_binding`, which names one work subject.
abbrev pub only_kind_and_work : Fields → Bool
only_kind_and_work no_fields = true
only_kind_and_work (field name value more) =
    (text_eq name (codes "kind") || text_eq name (codes "work")) && only_kind_and_work more

abbrev pub is_closed_object : Value → Bool
is_closed_object (object members) = only_kind_and_work members
is_closed_object _ = false

abbrev pub names_work : Value → Bool
names_work value =
    is_closed_object value
    && (is_some (text_of (get_in (get value (codes "work")) (codes "kind")))
        && is_some (text_of (get_in (get value (codes "work")) (codes "id"))))

abbrev pub is_work_binding : Option Text → Bool
is_work_binding none = false
is_work_binding (some kind) = text_eq kind (codes "evidence.work_binding")

unfoldable pub check_constraint : Text → Value → Checked
check_constraint path value =
    if is_work_binding (text_at value (codes "kind"))
    then (if names_work value
        then ok tt
        else refuse (path ++ codes "/work") (codes "a work binding names one work subject"))
    else refuse (path ++ codes "/kind") (codes "no such constraint kind is implemented")

unfoldable pub check_constraints : ℕ → Items → Checked
check_constraints index no_items = ok tt
check_constraints index (item value more) = do
  _ ← check_constraint (codes "constraints/" ++ digits index) value
  check_constraints (index + 1) more

unfoldable pub constraints_of : Option Value → Result Items ProtocolError
constraints_of none = ok no_items
constraints_of (some (array items)) = do _ ← check_constraints 0 items; ok items
constraints_of (some _) = refuse (codes "constraints") (codes "not an array")

unfoldable pub parent_of : Option Value → Result (Option Text) ProtocolError
parent_of none = ok none
parent_of (some (string id)) =
    if is_identifier id then ok (some id) else refuse (codes "parent") (codes "not an identifier")
parent_of (some _) = refuse (codes "parent") (codes "not an identifier")

unfoldable pub parse_issue : Text → Text → Value → Result Grant ProtocolError
parse_issue id issuer payload = do
  rights ← rights_of (get payload (codes "rights"))
  resources ← resources_of (get payload (codes "resources"))
  delegation ← terms_of (get payload (codes "delegation"))
  expires_at ← expiry_of (get payload (codes "expires_at"))
  authority_binding ← binding_of (get payload (codes "authority_binding"))
  constraints ← constraints_of (get payload (codes "constraints"))
  parent ← parent_of (get payload (codes "parent"))
  holder ← nonempty_at payload (codes "holder")
  audience ← nonempty_at payload (codes "audience")
  ok (record {
    id = id;
    issuer = issuer;
    holder = holder;
    audience = audience;
    rights = rights;
    resources = resources;
    expires_at = expires_at;
    authority_binding = authority_binding;
    delegation = delegation;
    parent = parent;
    revoked = false;
    constraints = constraints;
  })
