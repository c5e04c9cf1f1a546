-- ===== src/Envelope/Names.antt =====
-- crates/cbr-provider/src/envelope.rs: the identifiers and the dotted names, over the bytes of a
-- text.
use cbr.Prelude.{
  ℕ, Bool, true, false, ◌&&◌, ◌||◌, not, List, [], ◌∷◌, Text, Bytes, length, all, any, ltb, leb,
  in_range, ◌==◌, if◌then◌else◌,
}
use cbr.Encoding.Utf8.{utf8}

abbrev is_lowercase : ℕ → Bool
is_lowercase b = in_range b'a' b'z' b

abbrev is_digit : ℕ → Bool
is_digit b = in_range b'0' b'9' b

abbrev pub is_alphanumeric : ℕ → Bool
is_alphanumeric b = is_lowercase b || (in_range b'A' b'Z' b || is_digit b)

abbrev pub is_identifier_byte : ℕ → Bool
is_identifier_byte b =
    is_alphanumeric b || (b == b'.' || (b == b'_' || (b == b':' || (b == b'~' || b == b'-'))))

abbrev pub identifier_bytes : Bytes → Bool
identifier_bytes [] = false
identifier_bytes (first ∷ more) =
    leb (length (first ∷ more)) 128 && (is_alphanumeric first && all is_identifier_byte more)

unfoldable pub is_identifier : Text → Bool
unfolding utf8
is_identifier text = identifier_bytes (utf8 text)

-- `split('.')`: the part in front of the first dot, and the parts behind it.
abbrev pub split_dots : Text → Text × List Text
split_dots [] = ([], [])
split_dots (c ∷ text) =
    let (part, parts) = split_dots text in
    if c == b'.' then ([], part ∷ parts) else (c ∷ part, parts)

abbrev pub name_part : (ℕ → Bool) → Bytes → Bool
name_part test [] = false
name_part test (first ∷ more) = is_lowercase first && all test (first ∷ more)

abbrev is_head_byte : ℕ → Bool
is_head_byte b = is_lowercase b || (is_digit b || b == b'-')

abbrev is_part_byte : ℕ → Bool
is_part_byte b = is_head_byte b || b == b'_'

-- `any_tail` is that a part follows the head.
abbrev is_some_part : List Text → Bool
is_some_part [] = false
is_some_part (part ∷ parts) = true

unfoldable pub is_dotted_name : Text → Bool
unfolding utf8
is_dotted_name text =
    if ltb 128 (length (utf8 text)) || not (any (λ c. c == b'.') text)
    then false
    else let (head, parts) = split_dots text in
      name_part is_head_byte (utf8 head)
      && (all (λ part. name_part is_part_byte (utf8 part)) parts && is_some_part parts)
