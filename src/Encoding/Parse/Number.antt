-- ===== src/Encoding/Parse/Number.antt =====
-- crates/cbr-encoding/src/parse.rs: `Parser::number`.
use cbr.Prelude.{
  ℕ, zero, suc, ◌+◌, ◌-◌, ◌*◌, Bool, true, false, ◌||◌, ◌&&◌, Option, none, some, [], ◌∷◌, Bytes,
  in_range, ltb, text_eq, length, ◌==◌, if◌then◌else◌, ℤ, pos, negsuc,
}
use cbr.Encoding.Errors.{
  leading_zero, not_json, non_integer_number, negative_zero, integer_out_of_range,
}
use cbr.Encoding.Value.{Value, int, max_safe_integer}
use cbr.Encoding.Parse.Steps.{Cursor, Parser, Outcome, ok, fail, err, peek, sees, advance}

abbrev pub is_digit : ℕ → Bool
is_digit b = in_range b'0' b'9' b

abbrev pub sees_digit : Option ℕ → Bool
sees_digit none = false
sees_digit (some b) = is_digit b

-- The digits ahead, and the rest.
unfoldable pub span_digits : Bytes → Bytes × Bytes
span_digits [] = ([], [])
span_digits (b ∷ rest) =
    let (digits, behind) = span_digits rest in
    if is_digit b then (b ∷ digits, behind) else ([], b ∷ rest)

-- The loop over `digits.bytes()`: it stops at the first magnitude out of range.
unfoldable pub magnitude_of : ℕ → Bytes → Option ℕ
magnitude_of magnitude [] = some magnitude
magnitude_of magnitude (byte ∷ more) =
    let magnitude' = magnitude * 10 + (byte - b'0') in
    let rest = magnitude_of magnitude' more in
    if ltb max_safe_integer magnitude' then none else rest

-- `if negative { -magnitude } else { magnitude }`
abbrev pub signed : Bool → ℕ → ℤ
signed false magnitude = pos magnitude
signed true zero = pos 0
signed true (suc n) = negsuc n

-- `Some(b'.' | b'e' | b'E')`
abbrev pub sees_fraction : Option ℕ → Bool
sees_fraction none = false
sees_fraction (some b) = b == b'.' || (b == b'e' || b == b'E')

-- What follows the digits, `c` behind them.
unfoldable pub finish_number : ℕ → Bool → Bytes → Cursor → Outcome Value
unfolding magnitude_of
finish_number start negative digits c =
    if sees_fraction (peek c)
    then fail (record { kind = non_integer_number; offset = start })
    else if negative && text_eq digits (b'0' ∷ [])
    then fail (record { kind = negative_zero; offset = start })
    else elim (magnitude_of 0 digits) [
      | none ↦ fail (record { kind = integer_out_of_range; offset = start })
      | some magnitude ↦ ok (int (signed negative magnitude)) c
    ]

-- The cursor behind the digits of `c`.
abbrev pub behind_digits : Cursor → Cursor
behind_digits c =
    let (digits, behind) = span_digits c.rest in record { rest = behind; at = c.at + length digits }

unfoldable pub number : Parser Value
unfolding span_digits finish_number
number c =
    let start = c.at in
    let negative = sees b'-' c in
    let c₁ = if negative then advance 1 c else c in
    if sees b'0' c₁
    then (let c₂ = advance 1 c₁ in
        if sees_digit (peek c₂)
        then fail (err leading_zero c₁)
        else finish_number start negative (b'0' ∷ []) c₂)
    else if sees_digit (peek c₁)
    then finish_number start negative (span_digits c₁.rest).0 (behind_digits c₁)
    else fail (err not_json c₁)
