-- ===== src/Envelope/Members.antt =====
-- crates/cbr-provider/src/envelope.rs: the closed objects of an envelope.
use cbr.Prelude.Results.{Result, ok, err, ◌>>=◌}
use cbr.Prelude.{
  ℕ, ◌+◌, Bool, true, false, ◌&&◌, not, Option, none, some, List, [], ◌∷◌, ◌++◌, Text, codes, any,
  text_eq, ◌==◌, if◌then◌else◌,
}
use cbr.Encoding.Decimal.{digits}
use cbr.Encoding.Access.{get_in}
use cbr.Encoding.Value.{
  Value, string, array, object, Items, no_items, item, Fields, no_fields, field, get, as_str,
}
use cbr.Envelope.Names.{is_identifier, is_dotted_name}
use cbr.Protocol.{ProtocolError, invalid_envelope}

abbrev pub Checked : Type 0
Checked = Result (Unit {0}) ProtocolError

abbrev pub command_members : List Text
command_members =
    codes "operation"
    ∷ codes "message_id"
    ∷ codes "command_id"
    ∷ codes "dedupe_generation"
    ∷ codes "subject"
    ∷ codes "preconditions"
    ∷ codes "authority_epoch"
    ∷ codes "requires"
    ∷ codes "correlation"
    ∷ codes "caused_by"
    ∷ codes "extensions"
    ∷ codes "grant"
    ∷ codes "command_digest"
    ∷ codes "payload"
    ∷ []

abbrev pub command_required : List Text
command_required =
    codes "operation"
    ∷ codes "message_id"
    ∷ codes "command_id"
    ∷ codes "dedupe_generation"
    ∷ codes "subject"
    ∷ codes "preconditions"
    ∷ codes "requires"
    ∷ codes "command_digest"
    ∷ codes "payload"
    ∷ []

abbrev pub query_members : List Text
query_members =
    codes "operation"
    ∷ codes "message_id"
    ∷ codes "requires"
    ∷ codes "extensions"
    ∷ codes "grant"
    ∷ codes "payload"
    ∷ []

abbrev pub query_required : List Text
query_required = codes "operation" ∷ codes "message_id" ∷ codes "payload" ∷ []

-- `allowed.contains(&name)`
abbrev pub holds : List Text → Text → Bool
holds names name = any (λ other. text_eq other name) names

-- The two loops over the names; `path` is in front of the name in the error.
unfoldable pub all_known : Text → List Text → Fields → Checked
all_known path allowed no_fields = ok tt
all_known path allowed (field name value more) = elim (holds allowed name) [
  | true ↦ all_known path allowed more
  | false ↦ err (invalid_envelope (path ++ name) (codes "unknown field"))
]

abbrev pub is_present : Option Value → Bool
is_present none = false
is_present (some value) = true

unfoldable pub all_present : Text → Value → List Text → Checked
all_present path envelope [] = ok tt
all_present path envelope (name ∷ names) = elim (is_present (get envelope name)) [
  | true ↦ all_present path envelope names
  | false ↦ err (invalid_envelope (path ++ name) (codes "required field absent"))
]

unfoldable pub closed_object : Text → Fields → List Text → List Text → Checked
closed_object path members allowed required = do
  _ ← all_known path allowed members
  all_present path (object members) required

unfoldable pub check_members : Value → List Text → List Text → Checked
check_members (object members) allowed required = closed_object (codes "/") members allowed required
check_members _ allowed required = err (invalid_envelope [] (codes "envelope is not an object"))

abbrev pub names_identifier : Value → Bool
names_identifier (string text) = is_identifier text
names_identifier _ = false

unfoldable pub check_identifier : Value → Text → Checked
check_identifier envelope name = elim (get envelope name) [
  | none ↦ ok tt
  | some value ↦
      if names_identifier value
      then ok tt
      else err (invalid_envelope (codes "/" ++ name) (codes "not an identifier"))
]

abbrev pub names_kind : Option Value → Bool
names_kind (some (string text)) = is_dotted_name text
names_kind _ = false

abbrev pub names_id : Option Value → Bool
names_id (some (string text)) = is_identifier text
names_id _ = false

unfoldable pub check_subject : Value → Text → Checked
check_subject (object members) path = do
  _ ← all_known (path ++ codes "/") (codes "kind" ∷ codes "id" ∷ []) members
  if names_kind (get (object members) (codes "kind"))
      then if names_id (get (object members) (codes "id"))
        then ok tt
        else err (invalid_envelope (path ++ codes "/id") (codes "not an identifier"))
      else err (invalid_envelope (path ++ codes "/kind") (codes "not a subject kind"))
check_subject _ path = err (invalid_envelope path (codes "subject is not an object"))

abbrev pub has_slash : Text → Bool
has_slash name = any (λ c. c == b'/') name

-- One entry of `requires`, behind those that were seen.
unfoldable pub required_entry : Value → List Text → ℕ → Value → Result Text ProtocolError
required_entry envelope seen index entry = elim (as_str entry) [
  | none ↦ err (invalid_envelope (codes "/requires/" ++ digits index) (codes "not a string"))
  | some name ↦
      if holds seen name
      then err (invalid_envelope (codes "/requires") (codes "duplicate entry"))
      else if has_slash name && not (is_present (get_in (get envelope (codes "extensions")) name))
      then err
          (invalid_envelope (codes "/requires") (codes "required extension absent from extensions"))
      else ok name
]

unfoldable pub required_entries : Value → List Text → ℕ → Items → Result (List Text) ProtocolError
required_entries envelope seen index no_items = ok seen
required_entries envelope seen index (item entry more) = do
  name ← required_entry envelope seen index entry
  required_entries envelope (seen ++ name ∷ []) (index + 1) more

abbrev pub requires_of : Value → Option Value → Result (List Text) ProtocolError
requires_of envelope none = ok []
requires_of envelope (some (array items)) = required_entries envelope [] 0 items
requires_of envelope (some _) = err (invalid_envelope (codes "/requires") (codes "not an array"))

unfoldable pub check_requires : Value → Result (List Text) ProtocolError
check_requires envelope = requires_of envelope (get envelope (codes "requires"))

-- The payload members that an operation defines: those allowed, and those required.
abbrev pub Shape : Type 0
Shape = List Text × List Text

abbrev pub payload_shapes : List (Text × Shape)
payload_shapes =
    (codes "core.describe", ([], []))
    ∷ (codes "core.feature_dependencies", ([], []))
    ∷ (codes "core.authenticate", (codes "credential" ∷ [], codes "credential" ∷ []))
    ∷ (
      codes "core.negotiate",
      (
        codes "caller" ∷ codes "receive_limits" ∷ codes "profiles" ∷ [],
        codes "caller" ∷ codes "receive_limits" ∷ codes "profiles" ∷ [],
      ),
    )
    ∷ (codes "core-test.subject.put", (codes "value" ∷ codes "labels" ∷ [], codes "value" ∷ []))
    ∷ (codes "core-test.subject.get", (codes "subject" ∷ [], codes "subject" ∷ []))
    ∷ (codes "core-test.subject.applied_count", (codes "subject" ∷ [], codes "subject" ∷ []))
    ∷ (codes "core-test.authority.claim", ([], []))
    ∷ (
      codes "core.grant.issue",
      (
        codes "holder"
            ∷ codes "audience"
            ∷ codes "rights"
            ∷ codes "resources"
            ∷ codes "expires_at"
            ∷ codes "authority_binding"
            ∷ codes "delegation"
            ∷ codes "parent"
            ∷ codes "constraints"
            ∷ [],
        codes "holder"
            ∷ codes "audience"
            ∷ codes "rights"
            ∷ codes "resources"
            ∷ codes "delegation"
            ∷ [],
      ),
    )
    ∷ (codes "core.grant.revoke", ([], []))
    ∷ (codes "core.effects.get", (codes "effect" ∷ [], codes "effect" ∷ []))
    ∷ (codes "core.effects.abort_obligation", (codes "obligation" ∷ [], codes "obligation" ∷ []))
    ∷ (codes "core.grant.get", (codes "grant" ∷ [], codes "grant" ∷ []))
    ∷ []

abbrev pub find_shape : List (Text × Shape) → Text → Option Shape
find_shape [] operation = none
find_shape ((name, shape) ∷ more) operation =
    if text_eq name operation then some shape else find_shape more operation

unfoldable pub payload_members : Text → Option Shape
payload_members operation = find_shape payload_shapes operation

unfoldable pub payload_within : Shape → Value → Checked
payload_within (allowed, required) (object members) =
    closed_object (codes "/payload/") members allowed required
payload_within shape _ = err (invalid_envelope (codes "/payload") (codes "not an object"))

unfoldable pub check_payload : Text → Value → Checked
check_payload operation payload = elim (payload_members operation) [
  | none ↦ ok tt
  | some shape ↦ payload_within shape payload
]
