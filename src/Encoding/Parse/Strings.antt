-- ===== src/Encoding/Parse/Strings.antt =====
-- crates/cbr-encoding/src/parse.rs: `Parser::string` and the escapes.
use cbr.Prelude.{
  ℕ, zero, suc, ◌+◌, ◌-◌, ◌*◌, ◌^◌, not, Option, none, some, [], ◌∷◌, Text, codes, starts_with,
  length, in_range, ltb, ◌==◌, if◌then◌else◌,
}
use cbr.Encoding.Errors.{
  unpaired_surrogate, noncharacter, control_character_in_string, invalid_escape, unexpected_end,
}
use cbr.Encoding.Value.{is_noncharacter}
use cbr.Encoding.Utf8.{is_scalar, next_char, len_utf8}
use cbr.Encoding.Parse.Steps.{Parser, ok, fail, out_of_fuel, ◌>>=◌, err, peek, advance, expect}

abbrev pub hex_value : ℕ → Option ℕ
hex_value byte =
    if in_range b'0' b'9' byte
    then some (byte - b'0')
    else if in_range b'a' b'f' byte
    then some (byte - b'a' + 10)
    else if in_range b'A' b'F' byte
    then some (byte - b'A' + 10)
    else none

-- `count` more digits of the loop; a `u16` holds four of them.
unfoldable pub hex_digits : ℕ → ℕ → Parser ℕ
hex_digits zero value c = ok value c
hex_digits (suc count) value c = elim (peek c) [
  | none ↦ fail (err unexpected_end c)
  | some byte ↦ elim (hex_value byte) [
    | none ↦ fail (err invalid_escape c)
    | some digit ↦ hex_digits count (value * 16 + digit) (advance 1 c)
  ]
]

unfoldable pub hex4 : Parser ℕ
unfolding hex_digits
hex4 c = if ltb (length c.rest) 4 then fail (err unexpected_end c) else hex_digits 4 0 c

-- The checks on the code point of an escape that began at `start`.
unfoldable pub scalar_of : ℕ → ℕ → Parser ℕ
scalar_of start code_point c =
    if is_noncharacter code_point
    then fail (record { kind = noncharacter; offset = start })
    else if is_scalar code_point
    then ok code_point c
    else fail (record { kind = unpaired_surrogate; offset = start })

-- The `u` is read; the escape began two bytes before.
unfoldable pub unicode_escape : Parser ℕ
unfolding hex4 scalar_of
unicode_escape c =
    let start = c.at - 2 in
    hex4 c >>= λ first c₁.
    if in_range 0xD800 0xDBFF first
    then (if not (starts_with (codes "\\u") c₁.rest)
        then fail (record { kind = unpaired_surrogate; offset = start })
        else hex4 (advance 2 c₁) >>= λ second c₂.
            if not (in_range 0xDC00 0xDFFF second)
            then fail (record { kind = unpaired_surrogate; offset = start })
            else scalar_of start (0x10000 + (first - 0xD800) * 2 ^ 10 + (second - 0xDC00)) c₂)
    else if in_range 0xDC00 0xDFFF first
    then fail (record { kind = unpaired_surrogate; offset = start })
    else scalar_of start first c₁

-- The character that a short escape stands for.
abbrev pub short_escape : ℕ → Option ℕ
short_escape byte =
    if byte == 0x22
    then some 0x22
    else if byte == 0x5C
    then some 0x5C
    else if byte == b'/'
    then some b'/'
    else if byte == b'b'
    then some 0x08
    else if byte == b'f'
    then some 0x0C
    else if byte == b'n'
    then some 0x0A
    else if byte == b'r'
    then some 0x0D
    else if byte == b't'
    then some 0x09
    else none

-- The backslash is read. The character of the escape is returned, where the program pushes it.
unfoldable pub escape : Parser ℕ
unfolding unicode_escape
escape c = elim (peek c) [
  | none ↦ fail (err unexpected_end c)
  | some byte ↦ if byte == b'u' then unicode_escape (advance 1 c) else elim (short_escape byte) [
    | some ch ↦ ok ch (advance 1 c)
    | none ↦ fail (err invalid_escape c)
  ]
]

-- What the byte ahead asks of the loop.
pub data Next : Type 0 where
  end quote backslash control plain : Next

unfoldable pub next_of : Option ℕ → Next
next_of none = end
next_of (some byte) =
    if byte == 0x22
    then quote
    else if byte == 0x5C
    then backslash
    else if ltb byte 0x20
    then control
    else plain

-- A character that stands for itself.
unfoldable pub plain_char : Parser ℕ
plain_char c = elim (next_char c.rest) [
  | none ↦ fail (err unexpected_end c)
  | some (ch, behind) ↦
      if is_noncharacter ch
      then fail (err noncharacter c)
      else ok ch (record { rest = behind; at = c.at + len_utf8 ch })
]

-- The loop of `string`; the text read from here on is returned, where the program pushes.
unfoldable pub string_body : ℕ → Parser Text
unfolding plain_char escape next_of
string_body zero c = out_of_fuel
string_body (suc fuel) c = elim (next_of (peek c)) [
  | end ↦ fail (err unexpected_end c)
  | quote ↦ ok [] (advance 1 c)
  | backslash ↦
      escape (advance 1 c) >>= λ ch c'. string_body fuel c' >>= λ text c''. ok (ch ∷ text) c''
  | control ↦ fail (err control_character_in_string c)
  | plain ↦ plain_char c >>= λ ch c'. string_body fuel c' >>= λ text c''. ok (ch ∷ text) c''
]

-- Every round takes a byte.
unfoldable pub string_value : Parser Text
unfolding string_body
string_value c = expect 0x22 c >>= λ _ c'. string_body (length c'.rest + 1) c'
