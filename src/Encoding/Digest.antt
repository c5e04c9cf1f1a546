-- ===== src/Encoding/Digest.antt =====
-- crates/cbr-encoding/src/digest.rs: digest strings. SHA-256 is the `sha2` crate's: a parameter,
-- `sha256`, from bytes to the bytes of the hash.
use cbr.Prelude.Results.{Result, ok, err}
use cbr.Prelude.{
  ℕ, ◌+◌, ◌-◌, ◌/◌, ◌%◌, Bool, true, false, not, ◌||◌, ◌&&◌, Option, none, some, [], ◌∷◌, ◌++◌,
  Text, Bytes, codes, text_eq, all, length, in_range, ltb, ◌==◌, if◌then◌else◌,
}
use cbr.Encoding.Value.{Value}
use cbr.Encoding.Canonical.{to_canonical}

abbrev pub hex_digit : ℕ → ℕ
hex_digit d = if ltb d 10 then b'0' + d else b'a' + (d - 10)

-- `{byte:02x}` for each byte
unfoldable pub hex : Bytes → Text
hex [] = []
hex (byte ∷ more) = hex_digit (byte / 16) ∷ hex_digit (byte % 16) ∷ hex more

module _ (sha256 : Bytes → Bytes) where
  unfoldable pub sha256_hex : Bytes → Text
  unfolding hex
  sha256_hex bytes = hex (sha256 bytes)

  unfoldable pub digest_bytes : Bytes → Text
  unfolding sha256_hex
  digest_bytes bytes = codes "sha256:" ++ sha256_hex bytes

  unfoldable pub digest_canonical : Value → Text
  unfolding digest_bytes
  digest_canonical value = digest_bytes (to_canonical value)

pub data Algorithm : Type 0 where
  sha256 sha512 : Algorithm

unfoldable pub hex_length : Algorithm → ℕ
hex_length sha256 = 64
hex_length sha512 = 128

pub data DigestError : Type 0 where
  malformed : DigestError
  unsupported_algorithm : Text → DigestError
  wrong_length : DigestError

-- `text.split_once(':')`
unfoldable pub split_once : ℕ → Text → Option (Text × Text)
split_once mark [] = none
split_once mark (c ∷ text) =
    let rest = split_once mark text in
    if c == mark
    then some ([], text)
    else elim rest [ none ↦ none | some (before, behind) ↦ some (c ∷ before, behind) ]

abbrev pub is_lower_hex : ℕ → Bool
is_lower_hex b = in_range b'0' b'9' b || in_range b'a' b'f' b

abbrev pub is_name_char : ℕ → Bool
is_name_char b = in_range b'a' b'z' b || in_range b'0' b'9' b

abbrev pub is_separator : ℕ → Bool
is_separator b = b == b'+' || (b == b'.' || (b == b'_' || b == b'-'))

-- The groups of `name.split(['+', '.', '_', '-'])` are all not empty and of name characters;
-- `inside` says that the present group has a character.
unfoldable pub valid_groups : Bool → Text → Bool
valid_groups inside [] = inside
valid_groups inside (c ∷ name) =
    let next = valid_groups (not (is_separator c)) name in
    if is_separator c then inside && next else is_name_char c && next

-- An empty name has one empty group, so the test for it is the first group's.
unfoldable pub valid_algorithm_name : Text → Bool
unfolding valid_groups
valid_algorithm_name name = valid_groups false name

abbrev pub named : Text → Option Algorithm
named name =
    if text_eq name (codes "sha256")
    then some sha256
    else if text_eq name (codes "sha512")
    then some sha512
    else none

abbrev is_empty : Text → Bool
is_empty [] = true
is_empty (c ∷ text) = false

-- The checks on the two sides of the colon.
unfoldable pub check_digest : Text → Text → Result (Algorithm × Text) DigestError
check_digest algorithm encoded =
    if not (valid_algorithm_name algorithm)
    then err malformed
    else if is_empty encoded || not (all is_lower_hex encoded)
    then err malformed
    else elim (named algorithm) [
      | none ↦ err (unsupported_algorithm algorithm)
      | some known ↦
          if not (length encoded == hex_length known) then err wrong_length else ok (known, encoded)
    ]

unfoldable pub parse_digest : Text → Result (Algorithm × Text) DigestError
unfolding check_digest split_once
parse_digest text = elim (split_once b':' text) [
  | none ↦ err malformed
  | some (algorithm, encoded) ↦ check_digest algorithm encoded
]
