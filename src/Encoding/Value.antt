-- ===== src/Encoding/Value.antt =====
-- crates/cbr-encoding/src/value.rs: the JSON value domain. `Items` and `Fields` are the vectors
-- inside an array and an object.
use Prim.Native.Nat.{bit_and}
use cbr.Prelude.{
  ℕ, Bool, true, false, ◌||◌, Option, none, some, List, [], ◌∷◌, Text, text_eq, in_range, ◌==◌,
  if◌then◌else◌, ℤ,
}

mutual
  pub data Value : Type 0 where
    null : Value
    bool : Bool → Value
    int : ℤ → Value
    string : Text → Value
    array : Items → Value
    object : Fields → Value

  pub data Items : Type 0 where
    no_items : Items
    item : Value → Items → Items

  pub data Fields : Type 0 where
    no_fields : Fields
    field : Text → Value → Fields → Fields

abbrev pub max_safe_integer : ℕ
max_safe_integer = 9007199254740991

-- `members.iter().find(|(key, _)| key == name).map(|(_, value)| value)`
unfoldable pub find_field : Text → Fields → Option Value
find_field name no_fields = none
find_field name (field key value more) =
    if text_eq key name then some value else find_field name more

unfoldable pub get : Value → Text → Option Value
unfolding find_field
get (object members) name = find_field name members
get _ name = none

unfoldable pub field_names : Fields → List Text
field_names no_fields = []
field_names (field key value more) = key ∷ field_names more

unfoldable pub keys : Value → List Text
unfolding field_names
keys (object members) = field_names members
keys _ = []

unfoldable pub as_str : Value → Option Text
as_str (string text) = some text
as_str _ = none

unfoldable pub as_array : Value → Option Items
as_array (array items) = some items
as_array _ = none

unfoldable pub is_object : Value → Bool
is_object (object members) = true
is_object _ = false

unfoldable pub is_noncharacter : ℕ → Bool
is_noncharacter code_point =
    in_range 0xFDD0 0xFDEF code_point || bit_and code_point 0xFFFE == 0xFFFE
