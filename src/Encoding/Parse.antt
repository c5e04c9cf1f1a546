-- ===== src/Encoding/Parse.antt =====
-- crates/cbr-encoding/src/parse.rs: the strict reader, by recursive descent.
pub mod Steps
pub mod Number
pub mod Strings
pub mod Ensures
pub mod Progress
pub mod Characters
pub mod Tokens
pub mod Containers
pub mod Sound
use cbr.Prelude.{
  ℕ, zero, suc, ◌+◌, ◌*◌, Bool, true, false, Option, none, some, List, [], ◌∷◌, Text, Bytes, codes,
  text_eq, any, length, ltb, in_range, ◌==◌, ◌||◌, ◌&&◌, if◌then◌else◌,
}
use cbr.Encoding.Errors.{
  Error, ErrorKind, invalid_utf8, byte_order_mark, not_json, trailing_garbage, duplicate_member,
  unexpected_end, depth_exceeded,
}
use cbr.Encoding.Value.{
  Value, Items, Fields, null, bool, string, array, object, no_items, item, no_fields, field,
}
use cbr.Encoding.Utf8.{valid_up_to}
use Steps.{
  Cursor, Parser, Outcome, ok, fail, out_of_fuel, ◌>>=◌, err, peek, sees, advance, skip_whitespace,
  expect, literal,
}
use Number.{number}
use Strings.{string_value}

abbrev pub default_max_depth : ℕ
default_max_depth = 128

-- What the byte ahead announces.
pub data Lead : Type 0 where
  end brace bracket quote letter_t letter_f letter_n numeric other : Lead

unfoldable pub lead : Option ℕ → Lead
lead none = end
lead (some b) =
    if b == b'{'
    then brace
    else if b == b'['
    then bracket
    else if b == 0x22
    then quote
    else if b == b't'
    then letter_t
    else if b == b'f'
    then letter_f
    else if b == b'n'
    then letter_n
    else if b == b'-' || in_range b'0' b'9' b
    then numeric
    else other

-- How a loop over members or items goes on.
pub data After : Type 0 where
  comma close stray stop : After

unfoldable pub after : ℕ → Option ℕ → After
after closing none = stop
after closing (some b) = if b == b',' then comma else if b == closing then close else stray

-- Each call spends a unit of fuel. The loops return what they push, in order.
unfoldable mutual
  pub value : ℕ → ℕ → ℕ → Parser Value
  value zero max_depth depth c = out_of_fuel
  value (suc fuel) max_depth depth c = elim (ltb max_depth depth) [
    | true ↦ fail (err depth_exceeded c)
    | false ↦ elim (lead (peek c)) [
      | end ↦ fail (err unexpected_end c)
      | brace ↦ object_value fuel max_depth depth c
      | bracket ↦ array_value fuel max_depth depth c
      | quote ↦ string_value c >>= λ text c'. ok (string text) c'
      | letter_t ↦ literal (codes "true") (bool true) c
      | letter_f ↦ literal (codes "false") (bool false) c
      | letter_n ↦ literal (codes "null") null c
      | numeric ↦ number c
      | other ↦ fail (err not_json c)
    ]
  ]

  pub object_value : ℕ → ℕ → ℕ → Parser Value
  object_value zero max_depth depth c = out_of_fuel
  object_value (suc fuel) max_depth depth c = expect b'{' c >>= λ _ c₁.
      let c₂ = skip_whitespace c₁ in
      elim (sees b'}' c₂) [
        | true ↦ ok (object no_fields) (advance 1 c₂)
        | false ↦ members fuel max_depth depth [] c₂ >>= λ fields c₃. ok (object fields) c₃
      ]

  -- `seen` holds the names read so far.
  pub members : ℕ → ℕ → ℕ → List Text → Parser Fields
  members zero max_depth depth seen c = out_of_fuel
  members (suc fuel) max_depth depth seen c =
      let c₁ = skip_whitespace c in
      elim (sees 0x22 c₁) [
        | false ↦ fail (err not_json c₁)
        | true ↦ string_value c₁ >>= λ name c₂. elim (any (text_eq name) seen) [
          | true ↦ fail (err duplicate_member c₁)
          | false ↦ expect b':' (skip_whitespace c₂) >>= λ _ c₃.
              value fuel max_depth (depth + 1) (skip_whitespace c₃) >>= λ member c₄.
              let c₅ = skip_whitespace c₄ in
              elim (after b'}' (peek c₅)) [
                | comma ↦ members fuel max_depth depth (name ∷ seen) (advance 1 c₅) >>= λ more c₆.
                    ok (field name member more) c₆
                | close ↦ ok (field name member no_fields) (advance 1 c₅)
                | stray ↦ fail (err not_json c₅)
                | stop ↦ fail (err unexpected_end c₅)
              ]
        ]
      ]

  pub array_value : ℕ → ℕ → ℕ → Parser Value
  array_value zero max_depth depth c = out_of_fuel
  array_value (suc fuel) max_depth depth c = expect b'[' c >>= λ _ c₁.
      let c₂ = skip_whitespace c₁ in
      elim (sees b']' c₂) [
        | true ↦ ok (array no_items) (advance 1 c₂)
        | false ↦ elements fuel max_depth depth c₂ >>= λ items c₃. ok (array items) c₃
      ]

  pub elements : ℕ → ℕ → ℕ → Parser Items
  elements zero max_depth depth c = out_of_fuel
  elements (suc fuel) max_depth depth c =
      value fuel max_depth (depth + 1) (skip_whitespace c) >>= λ element c₁.
      let c₂ = skip_whitespace c₁ in
      elim (after b']' (peek c₂)) [
        | comma ↦
            elements fuel max_depth depth (advance 1 c₂) >>= λ more c₃. ok (item element more) c₃
        | close ↦ ok (item element no_items) (advance 1 c₂)
        | stray ↦ fail (err not_json c₂)
        | stop ↦ fail (err unexpected_end c₂)
      ]

-- A byte of input pays for at most three calls.
abbrev pub fuel_for : Bytes → ℕ
fuel_for input = 3 * length input + 3

-- What follows the checks of the text as a whole.
unfoldable pub parse_text : ℕ → Bytes → Outcome Value
unfolding value
parse_text max_depth input =
    value (fuel_for input) max_depth 0 (skip_whitespace (record { rest = input; at = 0 }))
    >>= λ v c.
        let c' = skip_whitespace c in
        elim (peek c') [ none ↦ ok v c' | some b ↦ fail (err trailing_garbage c') ]

abbrev pub starts_with_bom : Bytes → Bool
starts_with_bom (a ∷ b ∷ c ∷ rest) = a == 0xEF && b == 0xBB && c == 0xBF
starts_with_bom _ = false

unfoldable pub parse_with_depth : Bytes → ℕ → Outcome Value
unfolding parse_text valid_up_to
parse_with_depth input max_depth = elim (valid_up_to (length input) input 0) [
  | some offset ↦ fail (record { kind = invalid_utf8; offset = offset })
  | none ↦ elim (starts_with_bom input) [
    | true ↦ fail (record { kind = byte_order_mark; offset = 0 })
    | false ↦ parse_text max_depth input
  ]
]

unfoldable pub parse : Bytes → Outcome Value
unfolding parse_with_depth
parse input = parse_with_depth input default_max_depth
