-- ===== src/Encoding/Access.antt =====
-- Chains of the accessors of `Value` that the program writes out again and again.
use cbr.Prelude.{ℕ, Option, none, some, List, [], ◌∷◌, Text, pos}
use cbr.Encoding.Value.{
  Value, int, string, Items, no_items, item, Fields, no_fields, field, get, as_str, as_array,
}

-- `and_then(Value::as_str)`
unfoldable pub text_of : Option Value → Option Text
unfolding as_str
text_of none = none
text_of (some value) = as_str value

abbrev pub text_at : Value → Text → Option Text
text_at value name = text_of (get value name)

-- `and_then(Value::as_array).unwrap_or_default()`
unfoldable pub items_of : Option Value → Items
unfolding as_array
items_of none = no_items
items_of (some value) = elim (as_array value) [ none ↦ no_items | some items ↦ items ]

abbrev pub items_at : Value → Text → Items
items_at value name = items_of (get value name)

-- `Value::Int(number) if *number >= 0`
unfoldable pub as_natural : Value → Option ℕ
as_natural (int (pos n)) = some n
as_natural _ = none

-- `and_then(|value| value.get(name))`
abbrev pub get_in : Option Value → Text → Option Value
get_in none name = none
get_in (some value) name = get value name

-- An object's members in front of others, one that is only there when it has a value, and the
-- members in front of those that are pushed later.
abbrev pub with_text : Text → Text → Fields → Fields
with_text name text more = field name (string text) more

abbrev pub with_some : Text → Option Text → Fields → Fields
with_some name none more = more
with_some name (some text) more = field name (string text) more

abbrev pub push_member : Fields → Text → Value → Fields
push_member no_fields name value = field name value no_fields
push_member (field key first more) name value = field key first (push_member more name value)

-- `filter_map(Value::as_str)`
abbrev pub texts_of : Items → List Text
texts_of no_items = []
texts_of (item value more) = elim (as_str value) [
  | none ↦ texts_of more
  | some text ↦ text ∷ texts_of more
]

-- `.map(Value::String).collect()`
abbrev pub strings : List Text → Items
strings [] = no_items
strings (text ∷ more) = item (string text) (strings more)
