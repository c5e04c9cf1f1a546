-- ===== src/Encoding/Errors.antt =====
-- crates/cbr-encoding/src/error.rs: why a byte sequence is not a value in the domain.
use cbr.Prelude.{ℕ, Text, codes}

pub data ErrorKind : Type 0 where
  invalid_utf8 byte_order_mark not_json trailing_garbage duplicate_member non_integer_number :
      ErrorKind
  negative_zero leading_zero integer_out_of_range unpaired_surrogate noncharacter : ErrorKind
  control_character_in_string invalid_escape unexpected_end depth_exceeded : ErrorKind

-- `offset` is the byte where the problem was detected.
pub record Error : Type 0 where
  pub kind : ErrorKind
  pub offset : ℕ

unfoldable pub reason : ErrorKind → Text
reason invalid_utf8 = codes "invalid UTF-8"
reason byte_order_mark = codes "byte-order mark"
reason not_json = codes "not JSON"
reason trailing_garbage = codes "trailing garbage"
reason duplicate_member = codes "duplicate member name"
reason non_integer_number = codes "non-integer number"
reason negative_zero = codes "negative zero"
reason leading_zero = codes "leading zero"
reason integer_out_of_range = codes "integer outside safe range"
reason unpaired_surrogate = codes "unpaired surrogate"
reason noncharacter = codes "noncharacter"
reason control_character_in_string = codes "control character in string"
reason invalid_escape = codes "invalid escape"
reason unexpected_end = codes "unexpected end of input"
reason depth_exceeded = codes "nesting too deep"
