-- ===== src/Effects/Edits.antt =====
-- Edits of one field and of the objects of an array.
use cbr.Prelude.{
  ◌≡◌, refl, ◌∙◌, ap, Bool, false, Option, none, some, Text, codes, text_eq, text_eq→eq, Bool-cases,
  inl, inr,
}
use cbr.Encoding.Value.{
  Value, null, int, string, array, object, Items, no_items, item, Fields, no_fields, field,
  find_field, get, as_array,
}
use cbr.Effects.{
  update_field, map_objects, change_obligations, in_array, any_item, items_at, items_of,
  record_observation,
}

abbrev pub map_option : (Value → Value) → Option Value → Option Value
map_option change none = none
map_option change (some value) = some (change value)

pub find_field-update_same :
    (name : Text) (change : Value → Value) (members : Fields)
    → find_field name (update_field name change members)
      ≡ map_option change (find_field name members)
unfolding find_field
find_field-update_same name change no_fields = refl
find_field-update_same name change (field key value more) = elim (Bool-cases (text_eq key name)) [
  | inl t ↦ rw t (rw t refl)
  | inr f ↦ rw f (rw f (find_field-update_same name change more))
]

pub find_field-update_other :
    (name other : Text) (change : Value → Value) (members : Fields)
    → text_eq other name ≡ false
    → find_field name (update_field other change members) ≡ find_field name members
unfolding find_field
find_field-update_other name other change no_fields d = refl
find_field-update_other name other change (field key value more) d =
    elim (Bool-cases (text_eq key other)) [
      | inl t ↦
          let e : text_eq key name ≡ false =
            ap (λ x. text_eq x name) (text_eq→eq key other t) ∙ d in
          rw t (rw e refl)
      | inr f ↦ elim (Bool-cases (text_eq key name)) [
        | inl t ↦ rw f (rw t refl)
        | inr g ↦ rw f (rw g (find_field-update_other name other change more d))
      ]
    ]

-- A change of the obligations leaves every other member of the record.
pub get-change_obligations :
    (name : Text) (change : Fields → Fields) (record_value : Value)
    → text_eq (codes "obligations") name ≡ false
    → get (change_obligations change record_value) name ≡ get record_value name
unfolding change_obligations get
get-change_obligations name change (object members) d = find_field-update_other name _ _ members d
get-change_obligations name change null d = refl
get-change_obligations name change (Value.bool b) d = refl
get-change_obligations name change (int n) d = refl
get-change_obligations name change (string text) d = refl
get-change_obligations name change (array items) d = refl

pub get-record_observation :
    (name : Text) (value record_value : Value)
    → text_eq (codes "observations") name ≡ false
    → get (record_observation value record_value) name ≡ get record_value name
unfolding record_observation get
get-record_observation name value (object members) d = find_field-update_other name _ _ members d
get-record_observation name value null d = refl
get-record_observation name value (Value.bool b) d = refl
get-record_observation name value (int n) d = refl
get-record_observation name value (string text) d = refl
get-record_observation name value (array items) d = refl

-- The obligations of a changed record are the changed obligations.
items_of-in_array :
    (change : Fields → Fields) (found : Option Value)
    → items_of (map_option (in_array change) found) ≡ map_objects change (items_of found)
unfolding items_of as_array
items_of-in_array change none = refl
items_of-in_array change (some (array items)) = refl
items_of-in_array change (some null) = refl
items_of-in_array change (some (Value.bool b)) = refl
items_of-in_array change (some (int n)) = refl
items_of-in_array change (some (string text)) = refl
items_of-in_array change (some (object members)) = refl

pub items_at-change_obligations :
    (change : Fields → Fields) (record_value : Value)
    → items_at (change_obligations change record_value) (codes "obligations")
      ≡ map_objects change (items_at record_value (codes "obligations"))
unfolding change_obligations get items_of
items_at-change_obligations change (object members) =
    ap items_of (find_field-update_same (codes "obligations") (in_array change) members)
    ∙ items_of-in_array change (find_field (codes "obligations") members)
items_at-change_obligations change null = refl
items_at-change_obligations change (Value.bool b) = refl
items_at-change_obligations change (int n) = refl
items_at-change_obligations change (string text) = refl
items_at-change_obligations change (array items) = refl

-- A test of the items that a change of the objects decides.
pub any_item-map_objects :
    (p q : Value → Bool) (change : Fields → Fields) (items : Items)
    → ((members : Fields) → p (object (change members)) ≡ q (object members))
    → ((value : Value) → ((name : Text) → get value name ≡ none) → p value ≡ q value)
    → any_item p (map_objects change items) ≡ any_item q items
unfolding get
any_item-map_objects p q change no_items same plain = refl
any_item-map_objects p q change (item (object members) more) same plain =
    rw (same members, any_item-map_objects p q change more same plain) refl
any_item-map_objects p q change (item null more) same plain =
    rw (plain null (λ name. refl), any_item-map_objects p q change more same plain) refl
any_item-map_objects p q change (item (Value.bool b) more) same plain =
    rw (plain (Value.bool b) (λ name. refl), any_item-map_objects p q change more same plain) refl
any_item-map_objects p q change (item (int n) more) same plain =
    rw (plain (int n) (λ name. refl), any_item-map_objects p q change more same plain) refl
any_item-map_objects p q change (item (string text) more) same plain =
    rw (plain (string text) (λ name. refl), any_item-map_objects p q change more same plain) refl
any_item-map_objects p q change (item (array items) more) same plain =
    rw (plain (array items) (λ name. refl), any_item-map_objects p q change more same plain) refl
