-- ===== src/Encoding/Canonical.antt =====
-- crates/cbr-encoding/src/canonical.rs: canonical form, RFC 8785 over the integer-only domain.
use cbr.Prelude.{
  ℕ, ◌+◌, ◌-◌, ◌/◌, ◌%◌, ◌^◌, Bool, true, false, List, [], ◌∷◌, ◌++◌, Text, Bytes, codes, text_le,
  ltb, ◌==◌, if◌then◌else◌,
}
use cbr.Encoding.Value.{
  Value, Items, Fields, null, bool, int, string, array, object, no_items, item, no_fields, field,
}
use cbr.Encoding.Utf8.{encode_utf8}
use cbr.Encoding.Decimal.{int_text}

-- `text.encode_utf16()`
unfoldable pub encode_utf16 : Text → List ℕ
encode_utf16 [] = []
encode_utf16 (c ∷ text) =
    if ltb c 0x10000
    then c ∷ encode_utf16 text
    else (0xD800 + (c - 0x10000) / 2 ^ 10) ∷ (0xDC00 + (c - 0x10000) % 2 ^ 10) ∷ encode_utf16 text

-- `compare_utf16(left, right)` is not `Greater`.
unfoldable pub utf16_le : Text → Text → Bool
unfolding text_le encode_utf16
utf16_le left right = text_le (encode_utf16 left) (encode_utf16 right)

abbrev hex_digit : ℕ → ℕ
hex_digit d = if ltb d 10 then b'0' + d else b'a' + (d - 10)

unfoldable pub write_char : ℕ → Bytes
unfolding encode_utf8
write_char ch =
    if ch == b'"'
    then codes "\\\""
    else if ch == 0x5C
    then codes "\\\\"
    else if ch == 0x08
    then codes "\\b"
    else if ch == 0x09
    then codes "\\t"
    else if ch == 0x0A
    then codes "\\n"
    else if ch == 0x0C
    then codes "\\f"
    else if ch == 0x0D
    then codes "\\r"
    else if ltb ch 0x20
    then codes "\\u00" ++ (hex_digit (ch / 16) ∷ hex_digit (ch % 16) ∷ [])
    else encode_utf8 ch

unfoldable pub write_chars : Text → Bytes
write_chars [] = []
write_chars (ch ∷ text) = write_char ch ++ write_chars text

unfoldable pub write_string : Text → Bytes
write_string text = b'"' ∷ (write_chars text ++ b'"' ∷ [])

-- A stable sort of the members by their names. The members are written before they are sorted,
-- which the sort does not see.
unfoldable pub insert_member : Text → Bytes → List (Text × Bytes) → List (Text × Bytes)
insert_member name member [] = (name, member) ∷ []
insert_member name member ((other, written) ∷ more) =
    if utf16_le name other
    then (name, member) ∷ (other, written) ∷ more
    else (other, written) ∷ insert_member name member more

unfoldable pub sort_members : List (Text × Bytes) → List (Text × Bytes)
sort_members [] = []
sort_members ((name, member) ∷ more) = insert_member name member (sort_members more)

abbrev pub comma : Bool → Bytes
comma first = if first then [] else b',' ∷ []

unfoldable pub write_members : Bool → List (Text × Bytes) → Bytes
write_members first [] = []
write_members first ((name, member) ∷ more) =
    comma first ++ (write_string name ++ b':' ∷ (member ++ write_members false more))

unfoldable mutual
  pub write : Value → Bytes
  write null = codes "null"
  write (bool true) = codes "true"
  write (bool false) = codes "false"
  write (int number) = int_text number
  write (string text) = write_string text
  write (array items) = b'[' ∷ (write_items true items ++ b']' ∷ [])
  write (object members) = b'{' ∷ (write_members true (sort_members (written members)) ++ b'}' ∷ [])

  pub write_items : Bool → Items → Bytes
  write_items first no_items = []
  write_items first (item value more) = comma first ++ (write value ++ write_items false more)

  pub written : Fields → List (Text × Bytes)
  written no_fields = []
  written (field name value more) = (name, write value) ∷ written more

unfoldable pub to_canonical : Value → Bytes
to_canonical value = write value
