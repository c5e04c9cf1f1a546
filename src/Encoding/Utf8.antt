-- ===== src/Encoding/Utf8.antt =====
-- UTF-8 as Rust's `str` has it: one scalar value to bytes, the strict reader of one scalar value,
-- and the test that `std::str::from_utf8` makes.
use cbr.Prelude.{
  ℕ, zero, suc, ◌+◌, ◌-◌, ◌*◌, ◌/◌, ◌%◌, ◌^◌, Bool, not, ◌&&◌, ◌||◌, Option, none, some, [], ◌∷◌,
  ◌++◌, Text, Bytes, ltb, leb, in_range, ◌==◌, if◌then◌else◌,
}

-- `char::from_u32` accepts exactly these.
abbrev pub is_scalar : ℕ → Bool
is_scalar c = ltb c 0x110000 && not (in_range 0xD800 0xDFFF c)

unfoldable pub encode_utf8 : ℕ → Bytes
encode_utf8 c =
    if ltb c 0x80
    then c ∷ []
    else if ltb c 0x800
    then (0xC0 + c / 2 ^ 6) ∷ (0x80 + c % 2 ^ 6) ∷ []
    else if ltb c 0x10000
    then (0xE0 + c / 2 ^ 12) ∷ (0x80 + c / 2 ^ 6 % 2 ^ 6) ∷ (0x80 + c % 2 ^ 6) ∷ []
    else (0xF0 + c / 2 ^ 18)
      ∷ (0x80 + c / 2 ^ 12 % 2 ^ 6)
      ∷ (0x80 + c / 2 ^ 6 % 2 ^ 6)
      ∷ (0x80 + c % 2 ^ 6)
      ∷ []

unfoldable pub utf8 : Text → Bytes
utf8 [] = []
utf8 (c ∷ text) = encode_utf8 c ++ utf8 text

-- A continuation byte.
abbrev pub is_tail : ℕ → Bool
is_tail b = in_range 0x80 0xBF b

unfoldable pub read_two : ℕ → Bytes → Option (ℕ × Bytes)
read_two a (b ∷ rest) = if is_tail b then some ((a - 0xC0) * 2 ^ 6 + (b - 0x80), rest) else none
read_two a [] = none

-- Overlong forms and surrogates are refused by the range of the second byte.
unfoldable pub read_three : ℕ → Bytes → Option (ℕ × Bytes)
read_three a (b ∷ c ∷ rest) =
    if is_tail b && is_tail c && (not (a == 0xE0) || leb 0xA0 b) && (not (a == 0xED) || leb b 0x9F)
    then some ((a - 0xE0) * 2 ^ 12 + (b - 0x80) * 2 ^ 6 + (c - 0x80), rest)
    else none
read_three a _ = none

unfoldable pub read_four : ℕ → Bytes → Option (ℕ × Bytes)
read_four a (b ∷ c ∷ d ∷ rest) =
    if is_tail b
      && is_tail c
      && is_tail d
      && (not (a == 0xF0) || leb 0x90 b)
      && (not (a == 0xF4) || leb b 0x8F)
    then some ((a - 0xF0) * 2 ^ 18 + (b - 0x80) * 2 ^ 12 + (c - 0x80) * 2 ^ 6 + (d - 0x80), rest)
    else none
read_four a _ = none

-- The first scalar value and the bytes behind it.
unfoldable pub next_char : Bytes → Option (ℕ × Bytes)
next_char [] = none
next_char (a ∷ rest) =
    if ltb a 0x80
    then some (a, rest)
    else if in_range 0xC2 0xDF a
    then read_two a rest
    else if in_range 0xE0 0xEF a
    then read_three a rest
    else if in_range 0xF0 0xF4 a
    then read_four a rest
    else none

-- `char::len_utf8`
abbrev pub len_utf8 : ℕ → ℕ
len_utf8 c = if ltb c 0x80 then 1 else if ltb c 0x800 then 2 else if ltb c 0x10000 then 3 else 4

-- `from_utf8(input).map_err(|e| e.valid_up_to())`: the offset of the first bad sequence, if there
-- is one. Every character takes a byte, so the length of the input is enough fuel.
unfoldable pub valid_up_to : ℕ → Bytes → ℕ → Option ℕ
valid_up_to fuel [] at = none
valid_up_to zero (b ∷ rest) at = some at
valid_up_to (suc fuel) (b ∷ rest) at = elim (next_char (b ∷ rest)) [
  | none ↦ some at
  | some (c, more) ↦ valid_up_to fuel more (at + len_utf8 c)
]
