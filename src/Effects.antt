-- ===== src/Effects.antt =====
-- crates/cbr-provider/src/effects.rs: effect records and their obligations, as values.
pub mod Edits
pub mod Waits
use cbr.Prelude.{
  ℕ, ◌+◌, Bool, true, false, ◌&&◌, ◌||◌, not, Option, none, some, List, [], ◌∷◌, ◌++◌, Text, codes,
  text_eq, text_le, if◌then◌else◌, ℤ,
}
use cbr.Encoding.Value.{
  Value, null, int, string, array, object, Items, no_items, item, Fields, no_fields, field,
  find_field, get, as_str, as_array,
}
unfoldable pub use cbr.Encoding.Access.{text_of, items_of}
use cbr.Encoding.Access.{with_text, with_some}
pub use cbr.Encoding.Access.{text_at, items_at}
use cbr.Encoding.Decimal.{digits}

pub data RetryClass : Type 0 where
  pure_class read_class idempotent_key compensatable non_repeatable : RetryClass

-- `RetryClass::name`
abbrev pub class_name : RetryClass → Text
class_name pure_class = codes "pure"
class_name read_class = codes "read"
class_name idempotent_key = codes "idempotent_key"
class_name compensatable = codes "compensatable"
class_name non_repeatable = codes "non_repeatable"

pub record SubjectKey : Type 0 where
  pub kind : Text
  pub id : Text

pub record Obligation : Type 0 where
  pub id : Text
  pub expects : Text
  pub deadline : Option Text

pub record NewEffect : Type 0 where
  pub kind : Text
  pub target : SubjectKey
  pub payload_digest : Text
  pub retry_class : RetryClass
  pub idempotency_key : Option Text
  pub obligations : List Obligation

abbrev pub effect_id : Text → ℕ → Text
effect_id operation_ref index = operation_ref ++ codes ".e" ++ digits (index + 1)

abbrev subject_value : SubjectKey → Value
subject_value key =
    object (with_text (codes "kind") key.kind (with_text (codes "id") key.id no_fields))

abbrev pub observation : Text → Text → Text → Text → Value
observation status class source recorded_at = object (
    with_text (codes "status") status (
      field (codes "evidence")
        (object (with_text (codes "class") class (with_text (codes "source") source no_fields)))
        (with_text (codes "recorded_at") recorded_at no_fields)))

abbrev pub open_obligations : List Obligation → Items
open_obligations [] = no_items
open_obligations (o ∷ more) =
    item
      (object (
        with_text (codes "id") o.id (
          with_text (codes "expects") o.expects (
            field (codes "deadline")
              (elim o.deadline [ none ↦ null | some deadline ↦ string deadline ])
              (with_text (codes "state") (codes "open") no_fields)))))
      (open_obligations more)

abbrev pub new_record : NewEffect → Text → Text → Text → Option Text → Text → Value
new_record effect id operation_ref principal grant recorded_at = object (
    field (codes "descriptor")
      (object (
        with_text (codes "id") id (
          with_text (codes "kind") effect.kind (
            field (codes "target") (subject_value effect.target) (
              with_text (codes "payload_digest") effect.payload_digest (
                field (codes "authorization")
                  (object (
                    with_text (codes "principal") principal
                      (with_some (codes "grant") grant no_fields)))
                  (with_text (codes "retry_class") (class_name effect.retry_class) (
                    with_text (codes "operation_ref") operation_ref
                      (with_some (codes "idempotency_key") effect.idempotency_key no_fields)))))))))
      (field (codes "observations")
        (array (
          item
            (observation (codes "pending") (codes "provider")
              (codes "recorded before any external action") recorded_at)
            no_items))
        (field (codes "attempts") (array no_items)
          (field (codes "obligations") (array (open_obligations effect.obligations)) no_fields))))

abbrev last : Items → Option Value
last no_items = none
last (item value no_items) = some value
last (item value (item next more)) = last (item next more)

abbrev or_unknown : Option Text → Text
or_unknown none = codes "unknown"
or_unknown (some text) = text

-- `record.get("observations")`, its last one's `status`
abbrev pub latest : Option Value → Text
latest none = codes "unknown"
latest (some (array items)) = elim (last items) [
  | none ↦ codes "unknown"
  | some value ↦ or_unknown (text_at value (codes "status"))
]
latest (some null) = codes "unknown"
latest (some (Value.bool b)) = codes "unknown"
latest (some (int n)) = codes "unknown"
latest (some (string text)) = codes "unknown"
latest (some (object members)) = codes "unknown"

unfoldable pub status : Value → Text
status record_value = latest (get record_value (codes "observations"))

abbrev member : Value → Text → Value
member record_value name = elim (get record_value name) [
  | none ↦ array no_items
  | some value ↦ value
]

abbrev pub get_result : Value → ℤ → Value
get_result record_value revision = object (
    field (codes "effect")
      (elim (get record_value (codes "descriptor")) [ none ↦ null | some value ↦ value ])
      (field (codes "revision") (int revision) (
        with_text (codes "status") (status record_value) (
          field (codes "observations") (member record_value (codes "observations")) (
            field (codes "attempts") (member record_value (codes "attempts")) (
              field (codes "obligations") (member record_value (codes "obligations"))
                no_fields))))))

-- The first field of a name, changed.
abbrev pub update_field : Text → (Value → Value) → Fields → Fields
update_field name change no_fields = no_fields
update_field name change (field key value more) =
    if text_eq key name
    then field key (change value) more
    else field key value (update_field name change more)

-- The objects among the items, changed.
abbrev pub map_objects : (Fields → Fields) → Items → Items
map_objects change no_items = no_items
map_objects change (item (object members) more) =
    item (object (change members)) (map_objects change more)
map_objects change (item null more) = item null (map_objects change more)
map_objects change (item (Value.bool b) more) = item (Value.bool b) (map_objects change more)
map_objects change (item (int n) more) = item (int n) (map_objects change more)
map_objects change (item (string text) more) = item (string text) (map_objects change more)
map_objects change (item (array items) more) = item (array items) (map_objects change more)

-- What `obligations_mut` hands out, changed in place.
abbrev in_array : (Fields → Fields) → Value → Value
in_array change (array items) = array (map_objects change items)
in_array change null = null
in_array change (Value.bool b) = Value.bool b
in_array change (int n) = int n
in_array change (string text) = string text
in_array change (object members) = object members

unfoldable pub change_obligations : (Fields → Fields) → Value → Value
change_obligations change (object members) =
    object (update_field (codes "obligations") (in_array change) members)
change_obligations change null = null
change_obligations change (Value.bool b) = Value.bool b
change_obligations change (int n) = int n
change_obligations change (string text) = string text
change_obligations change (array items) = array items

-- `field`
abbrev pub text_field : Fields → Text → Option Text
text_field members name = text_of (find_field name members)

abbrev pub is_text : Option Text → Text → Bool
is_text none expected = false
is_text (some text) expected = text_eq text expected

abbrev pub set_state : Text → Fields → Fields
set_state state members = update_field (codes "state") (λ old. string state) members

-- `open` or `overdue`
abbrev pub is_waiting : Option Text → Bool
is_waiting state = is_text state (codes "open") || is_text state (codes "overdue")

abbrev pub waits_as : Text → Value → Bool
waits_as obligation entry =
    is_text (text_at entry (codes "id")) obligation && is_waiting (text_at entry (codes "state"))

abbrev pub any_item : (Value → Bool) → Items → Bool
any_item p no_items = false
any_item p (item value more) = p value || any_item p more

unfoldable pub obligation_waiting : Value → Text → Bool
obligation_waiting record_value obligation =
    any_item (waits_as obligation) (items_at record_value (codes "obligations"))

abbrev pub abort_fields : Text → Fields → Fields
abort_fields obligation members =
    if is_text (text_field members (codes "id")) obligation
    then set_state (codes "aborted") members
    else members

unfoldable pub abort : Value → Text → Value
abort record_value obligation = change_obligations (abort_fields obligation) record_value

abbrev has_passed : Option Text → Text → Bool
has_passed none now = false
has_passed (some deadline) now = text_le deadline now

abbrev pub is_overdue : Text → Fields → Bool
is_overdue now members =
    is_text (text_field members (codes "state")) (codes "open")
    && has_passed (text_field members (codes "deadline")) now

abbrev pub overdue_fields : Text → Fields → Fields
overdue_fields now members =
    if is_overdue now members then set_state (codes "overdue") members else members

abbrev or_empty : Option Text → Text
or_empty none = []
or_empty (some text) = text

-- The ids that `mark_overdue` returns.
abbrev pub overdue_ids : Text → Items → List Text
overdue_ids now no_items = []
overdue_ids now (item (object members) more) =
    if is_overdue now members
    then or_empty (text_field members (codes "id")) ∷ overdue_ids now more
    else overdue_ids now more
overdue_ids now (item null more) = overdue_ids now more
overdue_ids now (item (Value.bool b) more) = overdue_ids now more
overdue_ids now (item (int n) more) = overdue_ids now more
overdue_ids now (item (string text) more) = overdue_ids now more
overdue_ids now (item (array items) more) = overdue_ids now more

unfoldable pub mark_overdue : Value → Text → Value × List Text
mark_overdue record_value now = (
  change_obligations (overdue_fields now) record_value,
  overdue_ids now (items_at record_value (codes "obligations")),
)

abbrev pub is_settled : Text → Bool
is_settled outcome = text_eq outcome (codes "succeeded") || text_eq outcome (codes "failed")

abbrev pub satisfy_fields : Fields → Fields
satisfy_fields members =
    if is_text (text_field members (codes "expects")) (codes "outcome")
      && is_waiting (text_field members (codes "state"))
    then set_state (codes "satisfied") members
    else members

abbrev snoc : Items → Value → Items
snoc no_items value = item value no_items
snoc (item first more) value = item first (snoc more value)

abbrev pub push_item : Value → Value → Value
push_item value (array items) = array (snoc items value)
push_item value null = null
push_item value (Value.bool b) = Value.bool b
push_item value (int n) = int n
push_item value (string text) = string text
push_item value (object members) = object members

unfoldable pub record_observation : Value → Value → Value
record_observation value (object members) =
    object (update_field (codes "observations") (push_item value) members)
record_observation value null = null
record_observation value (Value.bool b) = Value.bool b
record_observation value (int n) = int n
record_observation value (string text) = string text
record_observation value (array items) = array items

unfoldable pub observe : Value → Text → Text → Text → Text → Value
observe record_value outcome class source recorded_at =
    let observed = record_observation (observation outcome class source recorded_at) record_value in
    if is_settled outcome then change_obligations satisfy_fields observed else observed
