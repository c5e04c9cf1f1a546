-- ===== src/Ids/Bounded.antt =====
-- crates/cbr-provider/src/ids.rs: an identifier that is too long, or outside the grammar, is
-- shortened. SHA-256 is the `sha2` crate's: a parameter.
use cbr.Prelude.{
  ℕ, zero, suc, ◌+◌, ◌-◌, max, Bool, true, false, ◌&&◌, ◌||◌, not, Option, none, some, List, [],
  ◌∷◌, ◌++◌, Bytes, codes, length, take, drop, get_or, in_range, ◌==◌, ℤ, if◌then◌else◌,
}
use cbr.Encoding.Decimal.{digits, int_text}
use cbr.Encoding.Digest.{sha256_hex}
use cbr.Envelope.Names.{identifier_bytes}
use cbr.Ids.Codec.{in_grammar, encode}

abbrev pub max_bytes : ℕ
max_bytes = 128

abbrev pub mark : Bytes
mark = codes "~~"

abbrev pub digest_digits : ℕ
digest_digits = 32

abbrev pub domain : Bytes
domain = codes "cbr-packet-id/1" ++ 10 ∷ []

abbrev is_hex_digit : ℕ → Bool
is_hex_digit byte = in_range b'0' b'9' byte || (in_range b'a' b'f' byte || in_range b'A' b'F' byte)

abbrev pub is_escape : ℕ → ℕ → ℕ → Bool
is_escape a b c = a == b'~' && (is_hex_digit b && is_hex_digit c)

-- Which positions are inside an escape; there is one more of them than there are bytes.
unfoldable pub marks : Bytes → List Bool
marks [] = false ∷ []
marks (a ∷ []) = false ∷ false ∷ []
marks (a ∷ b ∷ []) = false ∷ false ∷ false ∷ []
marks (a ∷ b ∷ c ∷ more) = elim (is_escape a b c) [
  | true ↦ false ∷ true ∷ true ∷ marks more
  | false ↦ false ∷ marks (b ∷ c ∷ more)
]

-- `rposition`, and `map_or(0, |at| at + 1)`
abbrev pub next_position : Bool → Option ℕ → Option ℕ
next_position found (some at) = some (suc at)
next_position true none = some 0
next_position false none = none

abbrev pub last_position : (ℕ → Bool) → Bytes → Option ℕ
last_position test [] = none
last_position test (byte ∷ more) = next_position (test byte) (last_position test more)

abbrev pub behind : Option ℕ → ℕ
behind none = 0
behind (some at) = at + 1

-- `(from..from + count).find(test)`
unfoldable pub find_from : (ℕ → Bool) → ℕ → ℕ → Option ℕ
find_from test from zero = none
find_from test from (suc count) =
    let later = find_from test (suc from) count in if test from then some from else later

abbrev pub lowest : Bytes → ℕ → ℕ
lowest rest room =
    max (length rest - room) (behind (last_position (λ byte. not (in_grammar byte)) rest))

abbrev pub or_else : Option ℕ → ℕ → ℕ
or_else none other = other
or_else (some at) other = at

abbrev pub tail_start : Bytes → ℕ → ℕ
tail_start rest room =
    or_else
      (find_from (λ at. get_or rest at 0 == b':' && not (get_or (marks rest) at false))
        (lowest rest room) (length rest - lowest rest room))
      (or_else
        (find_from (λ at. not (get_or (marks rest) at false)) (lowest rest room)
          (suc (length rest) - lowest rest room))
        (length rest))

unfoldable pub tail : Bytes → ℕ → Bytes
tail rest room = drop (tail_start rest room) rest

abbrev pub starts_escaped : Bytes → Bool
starts_escaped [] = false
starts_escaped (byte ∷ more) = byte == b'~'

abbrev pub is_whole : Bytes → Bytes → Bool
is_whole before rest = not (starts_escaped rest) && identifier_bytes (before ++ rest)

unfoldable pub span : Bytes → Bytes → ℤ → Bytes
span repository path start_byte =
    codes "span-"
    ++ (repository ++ (codes ":" ++ (encode path ++ (codes "-" ++ int_text start_byte))))

unfoldable pub anchor : Bytes → Bytes → Bytes
anchor repository name = codes "anchor-" ++ (repository ++ (codes ":" ++ encode name))

unfoldable pub claim : Bytes → Bytes
claim id = codes "claim-" ++ id

module _ (sha256 : Bytes → Bytes) where
  abbrev pub kept_digest : Bytes → Bytes
  kept_digest rest = take digest_digits (sha256_hex sha256 (domain ++ rest))

  unfoldable pub bounded : Bytes → Bytes → Bytes
  bounded before rest =
      if is_whole before rest
      then before ++ rest
      else before
        ++ (mark
            ++ (kept_digest rest
                ++ tail rest (max_bytes - (length before + length mark + digest_digits))))

  unfoldable pub discovered_section : Bytes → Bytes
  discovered_section id = bounded (codes "d-") id

  unfoldable pub discovered_citation : Bytes → Bytes
  discovered_citation id = bounded (codes "dc-") id

  unfoldable pub claim_section : Bytes → Bytes
  claim_section id = discovered_section (claim id)

  unfoldable pub item_section : Bytes → Bytes
  item_section item = bounded (codes "s-") item

  unfoldable pub item_citation : Bytes → Bytes
  item_citation item = bounded (codes "c-") item

  unfoldable pub omission : Bytes → ℕ → Bytes
  omission item number = bounded (codes "s-") (item ++ (codes ".o" ++ digits number))

  unfoldable pub packet_artifact : Bytes → ℤ → Bytes
  packet_artifact request revision =
      bounded (codes "packet.") (request ++ (codes "." ++ int_text revision))
