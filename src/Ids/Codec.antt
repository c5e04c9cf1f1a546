-- ===== src/Ids/Codec.antt =====
-- crates/cbr-provider/src/ids.rs: any bytes spelled inside the identifier grammar, and read back.
use cbr.Prelude.{
  ℕ, ◌+◌, ◌-◌, ◌*◌, ◌/◌, ◌%◌, Bool, ◌||◌, Option, none, some, [], ◌∷◌, Bytes, ltb, in_range, ◌==◌,
  if◌then◌else◌,
}
use cbr.Envelope.Names.{is_alphanumeric}

-- `kept` and `in_grammar`
abbrev pub kept : ℕ → Bool
kept byte = is_alphanumeric byte || (byte == b'.' || (byte == b'_' || byte == b'-'))

abbrev pub in_grammar : ℕ → Bool
in_grammar byte = kept byte || (byte == b':' || byte == b'~')

-- `{:X}` of a digit
abbrev pub upper_digit : ℕ → ℕ
upper_digit d = if ltb d 10 then b'0' + d else b'A' + (d - 10)

unfoldable pub encode : Bytes → Bytes
encode [] = []
encode (byte ∷ more) =
    let rest = encode more in
    if kept byte
    then byte ∷ rest
    else if byte == b'/'
    then b':' ∷ rest
    else b'~' ∷ upper_digit (byte / 16) ∷ upper_digit (byte % 16) ∷ rest

-- A digit of `0-9A-F`, as a number.
abbrev pub digit_value : ℕ → Option ℕ
digit_value byte =
    if in_range b'0' b'9' byte
    then some (byte - b'0')
    else if in_range b'A' b'F' byte
    then some (10 + (byte - b'A'))
    else none

abbrev pub both_digits : Option ℕ → Option ℕ → Option ℕ
both_digits none low = none
both_digits (some h) none = none
both_digits (some h) (some l) = some (16 * h + l)

abbrev pub escaped : ℕ → ℕ → Option ℕ
escaped high low = both_digits (digit_value high) (digit_value low)

-- What a byte is to `decode`.
pub data Step : Type 0 where
  plain : ℕ → Step
  escape refused : Step

abbrev pub step_of : ℕ → Step
step_of byte =
    if byte == b':'
    then Step.plain b'/'
    else if byte == b'~'
    then Step.escape
    else if kept byte
    then Step.plain byte
    else Step.refused

abbrev pub push : ℕ → Option Bytes → Option Bytes
push byte none = none
push byte (some more) = some (byte ∷ more)

abbrev pub push_escaped : Option ℕ → Option Bytes → Option Bytes
push_escaped none more = none
push_escaped (some byte) more = push byte more

unfoldable pub decode : Bytes → Option Bytes
decode [] = some []
decode (a ∷ []) = elim (step_of a) [
  | Step.plain byte ↦ some (byte ∷ [])
  | Step.escape ↦ none
  | Step.refused ↦ none
]
decode (a ∷ b ∷ []) = elim (step_of a) [
  | Step.plain byte ↦ push byte (decode (b ∷ []))
  | Step.escape ↦ none
  | Step.refused ↦ none
]
decode (a ∷ b ∷ c ∷ more) = elim (step_of a) [
  | Step.plain byte ↦ push byte (decode (b ∷ c ∷ more))
  | Step.escape ↦ push_escaped (escaped b c) (decode more)
  | Step.refused ↦ none
]
