-- ===== src/Encoding/Intent.antt =====
-- crates/cbr-encoding/src/intent.rs: command intent and its digest.
use cbr.Prelude.Results.{Result, ok, err, ◌>>=◌}
use cbr.Prelude.{
  Bool, true, false, not, Option, none, some, List, [], ◌∷◌, Text, Bytes, codes, text_eq, any, ◌==◌,
  if◌then◌else◌,
}
use cbr.Encoding.Value.{
  Value, Items, Fields, array, object, no_items, item, no_fields, field, find_field, get, as_str,
  is_object,
}
use cbr.Encoding.Digest.{digest_canonical}

abbrev pub intent_members : List Text
intent_members =
    codes "operation"
    ∷ codes "subject"
    ∷ codes "preconditions"
    ∷ codes "requires"
    ∷ codes "payload"
    ∷ []

pub data IntentError : Type 0 where
  not_an_object : IntentError
  missing_member : Text → IntentError
  malformed_requires : IntentError
  malformed_extensions : IntentError
  required_extension_missing : Text → IntentError
  duplicate_requires : Text → IntentError

-- `entry.contains('/')`
unfoldable pub is_extension_key : Text → Bool
is_extension_key entry = any (λ c. c == b'/') entry

-- The first loop: the named members of the envelope.
unfoldable pub take_members : Value → List Text → Result Fields IntentError
take_members envelope [] = ok no_fields
take_members envelope (name ∷ names) = elim (get envelope name) [
  | none ↦ err (missing_member name)
  | some member ↦ take_members envelope names >>= λ fields. ok (field name member fields)
]

-- `intent.push((name, value))`
unfoldable pub push_field : Fields → Text → Value → Fields
push_field no_fields name value = field name value no_fields
push_field (field key member more) name value = field key member (push_field more name value)

-- The strings of `requires`.
unfoldable pub strings_of : Items → Result (List Text) IntentError
strings_of no_items = ok []
strings_of (item entry more) = elim (as_str entry) [
  | none ↦ err malformed_requires
  | some key ↦ strings_of more >>= λ keys. ok (key ∷ keys)
]

unfoldable pub required_keys : Option Value → Result (List Text) IntentError
unfolding strings_of
required_keys (some (array items)) = strings_of items
required_keys _ = err malformed_requires

unfoldable pub declared_extensions : Option Value → Result Fields IntentError
declared_extensions none = ok no_fields
declared_extensions (some (object members)) = ok members
declared_extensions (some _) = err malformed_extensions

-- `seen.contains(&key)`
abbrev pub contains : List Text → Text → Bool
contains seen key = any (λ other. text_eq other key) seen

-- The loop over the required keys: the extensions that are included, in order.
unfoldable pub include : Fields → List Text → List Text → Result Fields IntentError
include declared seen [] = ok no_fields
include declared seen (key ∷ keys) = elim (contains seen key) [
  | true ↦ err (duplicate_requires key)
  | false ↦ elim (is_extension_key key) [
    | false ↦ include declared (key ∷ seen) keys
    | true ↦ elim (find_field key declared) [
      | none ↦ err (required_extension_missing key)
      | some value ↦ include declared (key ∷ seen) keys >>= λ more. ok (field key value more)
    ]
  ]
]

unfoldable pub command_intent : Value → Result Value IntentError
command_intent envelope = if not (is_object envelope) then err not_an_object else (do
  intent ← take_members envelope intent_members
  required ← required_keys (get envelope (codes "requires"))
  declared ← declared_extensions (get envelope (codes "extensions"))
  included ← include declared [] required
  ok (object (push_field intent (codes "extensions") (object included))))

unfoldable pub command_digest : (Bytes → Bytes) → Value → Result Text IntentError
command_digest sha256 envelope = do
  intent ← command_intent envelope
  ok (digest_canonical sha256 intent)
