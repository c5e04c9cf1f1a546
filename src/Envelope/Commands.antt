-- ===== src/Envelope/Commands.antt =====
-- crates/cbr-provider/src/envelope.rs: command and query envelopes.
use cbr.Prelude.Results.{Result, ok, err, ◌>>=◌}
use cbr.Prelude.{
  ℕ, ◌+◌, Bool, Option, none, some, List, [], ◌∷◌, ◌++◌, Text, codes, any, ltb, if◌then◌else◌,
}
use cbr.Encoding.Decimal.{digits}
use cbr.Encoding.Access.{text_at, as_natural, texts_of}
use cbr.Encoding.Equality.{value_eq}
use cbr.Encoding.Value.{Value, null, string, array, object, Items, no_items, item, get, is_object}
use cbr.Envelope.Limits.{count}
use cbr.Envelope.Names.{is_dotted_name}
use cbr.Envelope.Members.{
  command_members, command_required, query_members, query_required, all_known, check_members,
  check_identifier, check_subject, check_requires, check_payload,
}
use cbr.Protocol.{ProtocolError, invalid_envelope}

pub record Command : Type 0 where
  pub operation : Text
  pub command_id : Text
  pub dedupe_generation : ℕ
  pub subject : Value
  pub preconditions : List (Value × ℕ)
  pub authority_epoch : Option ℕ
  pub requires : List Text
  pub command_digest : Text
  pub payload : Value
  pub grant : Option Text
  pub caused_by : List Text

abbrev pub operation_of : Option Value → Result Text ProtocolError
operation_of (some (string name)) =
    if is_dotted_name name
    then ok name
    else err (invalid_envelope (codes "/operation") (codes "not an operation name"))
operation_of _ = err (invalid_envelope (codes "/operation") (codes "not an operation name"))

abbrev pub natural_at : Text → Option Value → Result ℕ ProtocolError
natural_at path none = err (invalid_envelope path (codes "not a non-negative integer"))
natural_at path (some value) = elim (as_natural value) [
  | some n ↦ ok n
  | none ↦ err (invalid_envelope path (codes "not a non-negative integer"))
]

-- A member that `check_members` has found.
abbrev pub present : Value → Text → Value
present envelope name = elim (get envelope name) [ none ↦ null | some value ↦ value ]

abbrev pub is_named : List (Value × ℕ) → Value → Bool
is_named entries subject = any (λ entry. value_eq entry.0 subject) entries

-- The subject of a precondition's entry, its revision, and the test against the entries before.
unfoldable pub precondition : Text → List (Value × ℕ) → Value → Result (Value × ℕ) ProtocolError
precondition path before (object members) = do
  _ ← all_known (path ++ codes "/") (codes "subject" ∷ codes "revision" ∷ []) members
  elim (get (object members) (codes "subject")) [
    | none ↦ err (invalid_envelope (path ++ codes "/subject") (codes "required field absent"))
    | some subject ↦ do
      _ ← check_subject subject (path ++ codes "/subject")
      revision ← natural_at (path ++ codes "/revision") (get (object members) (codes "revision"))
      if is_named before subject
          then err
              (invalid_envelope (codes "/preconditions") (codes "duplicate precondition subject"))
          else ok (subject, revision)
  ]
precondition path before _ = err (invalid_envelope path (codes "not an object"))

unfoldable pub precondition_entries :
    List (Value × ℕ) → ℕ → Items → Result (List (Value × ℕ)) ProtocolError
precondition_entries before index no_items = ok before
precondition_entries before index (item entry more) = do
  read ← precondition (codes "/preconditions/" ++ digits index) before entry
  precondition_entries (before ++ read ∷ []) (index + 1) more

unfoldable pub preconditions_of : Option Value → Result (List (Value × ℕ)) ProtocolError
preconditions_of (some (array items)) =
    if ltb 16 (count items)
    then err (invalid_envelope (codes "/preconditions") (codes "too many entries"))
    else precondition_entries [] 0 items
preconditions_of _ = err (invalid_envelope (codes "/preconditions") (codes "not an array"))

abbrev pub epoch_at : Option Value → Result (Option ℕ) ProtocolError
epoch_at none = ok none
epoch_at (some value) = natural_at (codes "/authority_epoch") (some value) >>= λ n. ok (some n)

abbrev pub digest_at : Option Value → Result Text ProtocolError
digest_at (some (string text)) = ok text
digest_at _ = err (invalid_envelope (codes "/command_digest") (codes "not a digest"))

abbrev pub payload_at : Value → Result Value ProtocolError
payload_at envelope =
    if is_object (present envelope (codes "payload"))
    then ok (present envelope (codes "payload"))
    else err (invalid_envelope (codes "/payload") (codes "not an object"))

abbrev pub causes_at : Option Value → Result (List Text) ProtocolError
causes_at none = ok []
causes_at (some (array items)) = ok (texts_of items)
causes_at (some _) = err (invalid_envelope (codes "/caused_by") (codes "not an array"))

abbrev or_empty : Option Text → Text
or_empty none = []
or_empty (some text) = text

unfoldable pub parse_command : Value → Result Command ProtocolError
parse_command envelope = do
  _ ← check_members envelope command_members command_required
  _ ← check_identifier envelope (codes "message_id")
  _ ← check_identifier envelope (codes "command_id")
  _ ← check_identifier envelope (codes "grant")
  operation ← operation_of (get envelope (codes "operation"))
  dedupe_generation ←
      natural_at (codes "/dedupe_generation") (get envelope (codes "dedupe_generation"))
  _ ← check_subject (present envelope (codes "subject")) (codes "/subject")
  preconditions ← preconditions_of (get envelope (codes "preconditions"))
  authority_epoch ← epoch_at (get envelope (codes "authority_epoch"))
  requires ← check_requires envelope
  command_digest ← digest_at (get envelope (codes "command_digest"))
  payload ← payload_at envelope
  _ ← check_payload operation payload
  caused_by ← causes_at (get envelope (codes "caused_by"))
  ok (record {
    operation = operation;
    command_id = or_empty (text_at envelope (codes "command_id"));
    dedupe_generation = dedupe_generation;
    subject = present envelope (codes "subject");
    preconditions = preconditions;
    authority_epoch = authority_epoch;
    requires = requires;
    command_digest = command_digest;
    payload = payload;
    grant = text_at envelope (codes "grant");
    caused_by = caused_by;
  })

pub record Query : Type 0 where
  pub operation : Text
  pub requires : List Text
  pub payload : Value
  pub grant : Option Text

unfoldable pub parse_query : Value → Result Query ProtocolError
parse_query envelope = do
  _ ← check_members envelope query_members query_required
  _ ← check_identifier envelope (codes "message_id")
  _ ← check_identifier envelope (codes "grant")
  operation ← operation_of (get envelope (codes "operation"))
  requires ← check_requires envelope
  payload ← payload_at envelope
  _ ← check_payload operation payload
  ok (record {
    operation = operation;
    requires = requires;
    payload = payload;
    grant = text_at envelope (codes "grant");
  })
