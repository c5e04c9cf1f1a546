-- ===== src/Encoding/Domain.antt =====
-- The JSON domain of crates/cbr-encoding/src/value.rs as a predicate: integers in the safe range,
-- texts of scalar values that are no noncharacters, member names that differ, nesting bounded.
use cbr.Prelude.{
  ℕ, ◌+◌, ◌≤◌, ◌≡◌, true, false, List, [], ◌∷◌, Text, text_eq, any, All, ℤ, pos, negsuc,
}
use cbr.Encoding.Value.{
  Value, Items, Fields, null, bool, int, string, array, object, no_items, item, no_fields, field,
  max_safe_integer, is_noncharacter,
}
use cbr.Encoding.Utf8.{is_scalar}

abbrev pub IsSafe : ℤ → Type 0
IsSafe (pos n) = n ≤ max_safe_integer
IsSafe (negsuc n) = n + 1 ≤ max_safe_integer

pub record IsChar (c : ℕ) : Type 0 where
  pub scalar : is_scalar c ≡ true
  pub character : is_noncharacter c ≡ false

-- The members' names differ from each other and from those already seen.
abbrev pub AreFresh : List Text → Fields → Type 0
AreFresh seen no_fields = Unit
AreFresh seen (field name member more) =
    (any (text_eq name) seen ≡ false) × AreFresh (name ∷ seen) more

-- In the domain, at a depth, with no part below the greatest depth.
abbrev mutual
  pub InDomain : ℕ → ℕ → Value → Type 0
  InDomain max_depth depth null = depth ≤ max_depth
  InDomain max_depth depth (bool b) = depth ≤ max_depth
  InDomain max_depth depth (int number) = (depth ≤ max_depth) × IsSafe number
  InDomain max_depth depth (string text) = (depth ≤ max_depth) × All IsChar text
  InDomain max_depth depth (array items) =
      (depth ≤ max_depth) × ItemsInDomain max_depth (depth + 1) items
  InDomain max_depth depth (object members) =
      (depth ≤ max_depth) × AreFresh [] members × FieldsInDomain max_depth (depth + 1) members

  pub ItemsInDomain : ℕ → ℕ → Items → Type 0
  ItemsInDomain max_depth depth no_items = Unit
  ItemsInDomain max_depth depth (item value more) =
      InDomain max_depth depth value × ItemsInDomain max_depth depth more

  pub FieldsInDomain : ℕ → ℕ → Fields → Type 0
  FieldsInDomain max_depth depth no_fields = Unit
  FieldsInDomain max_depth depth (field name value more) =
      All IsChar name × InDomain max_depth depth value × FieldsInDomain max_depth depth more
