-- ===== src/Ids/Grammar.antt =====
-- What `bounded` returns is an identifier of the protocol.
use cbr.Prelude.{
  ℕ, zero, suc, ◌+◌, ◌-◌, ◌/◌, ◌%◌, ◌≤◌, ◌<◌, ◌≡◌, refl, arith, Bool, true, false, ◌&&◌, not,
  Bool-cases, inl, inr, [], ◌∷◌, ◌++◌, Bytes, All, length, length-append, length-take, take, all,
  leb, le→leb, leb→le,
}
use cbr.Encoding.Digest.{hex_digit, hex, sha256_hex}
use cbr.Encoding.Equality.{and_parts}
use cbr.Envelope.Names.{is_alphanumeric, is_identifier_byte, identifier_bytes}
use cbr.Ids.Codec.{in_grammar}
use cbr.Ids.Bounded.{
  mark, max_bytes, digest_digits, domain, tail, starts_escaped, is_whole, kept_digest, bounded,
}
use cbr.Ids.Tail.{length-tail, all-in_grammar-tail}

both : {a b : Bool} → a ≡ true → b ≡ true → (a && b) ≡ true
both h k = rw (h, k) refl

all-append :
    (test : ℕ → Bool) (xs ys : Bytes)
    → all test xs ≡ true
    → all test ys ≡ true
    → all test (xs ++ ys) ≡ true
all-append test [] ys h k = k
all-append test (x ∷ xs) ys h k = ground (arith, h, all-append test xs ys)

all-take : (test : ℕ → Bool) (n : ℕ) (xs : Bytes) → all test xs ≡ true → all test (take n xs) ≡ true
all-take test zero xs h = refl
all-take test (suc n) [] h = refl
all-take test (suc n) (x ∷ xs) h = ground (arith, h, all-take test n xs)

all-implied :
    (p q : ℕ → Bool)
    → ((byte : ℕ) → p byte ≡ true → q byte ≡ true)
    → (xs : Bytes) → all p xs ≡ true
    → all q xs ≡ true
all-implied p q f [] h = refl
all-implied p q f (x ∷ xs) h = ground (arith, h, f x, all-implied p q f xs)

hex_digit-grammar : (d : ℕ) → d < 16 → is_identifier_byte (hex_digit d) ≡ true
hex_digit-grammar d h = ground arith

all-hex :
    (bytes : Bytes) → All (λ byte. byte < 256) bytes → all is_identifier_byte (hex bytes) ≡ true
unfolding hex
all-hex [] h = refl
all-hex (byte ∷ more) h =
    both (hex_digit-grammar (byte / 16) (omega (arith, h.0)))
      (both (hex_digit-grammar (byte % 16) (omega arith)) (all-hex more h.1))

pub length-hex : (bytes : Bytes) → length (hex bytes) ≡ length bytes + length bytes
unfolding hex
length-hex [] = omega arith
length-hex (byte ∷ more) = omega (arith, length-hex more)

-- A text in front of which an identifier's bytes may stand.
abbrev pub is_prefix : Bytes → Bool
is_prefix [] = false
is_prefix (first ∷ more) =
    leb (length (first ∷ more) + 34) 128 && (is_alphanumeric first && all is_identifier_byte more)

identifier-append :
    (before behind : Bytes)
    → is_prefix before ≡ true
    → all is_identifier_byte behind ≡ true
    → length before + length behind ≤ 128
    → identifier_bytes (before ++ behind) ≡ true
identifier-append (first ∷ more) behind p h k =
    let (short, rest) =
      and_parts (leb (length (first ∷ more) + 34) 128)
        (is_alphanumeric first && all is_identifier_byte more) p in
    let (starts, inside) = and_parts (is_alphanumeric first) (all is_identifier_byte more) rest in
    both
      (le→leb (length (first ∷ more ++ behind)) 128 (omega (arith, k, length-append more behind)))
      (both starts (all-append is_identifier_byte more behind inside h))
identifier-append [] behind p h k = cc

prefix-room : (before : Bytes) → is_prefix before ≡ true → length before + 34 ≤ 128
prefix-room [] p = cc
prefix-room (first ∷ more) p = leb→le (length (first ∷ more) + 34) 128 (and_parts _ _ p).0

in_grammar-identifier : (byte : ℕ) → in_grammar byte ≡ true → is_identifier_byte byte ≡ true
in_grammar-identifier byte h = ground arith

abbrev room : Bytes → ℕ
room before = max_bytes - (length before + length mark + digest_digits)

module _ (sha256 : Bytes → Bytes)
    (is_bytes : (bytes : Bytes) → All (λ byte. byte < 256) (sha256 bytes)) where
  all_digest : (rest : Bytes) → all is_identifier_byte (sha256_hex sha256 (domain ++ rest)) ≡ true
  unfolding sha256_hex
  all_digest rest = all-hex (sha256 (domain ++ rest)) (is_bytes (domain ++ rest))

  -- Behind a prefix that starts with a letter or a digit, is inside the grammar and leaves room
  -- for the mark and the digest, an identifier of any text is an identifier of the protocol.
  pub bounded-IsIdentifier :
      (before rest : Bytes)
      → is_prefix before ≡ true
      → identifier_bytes (bounded sha256 before rest) ≡ true
  unfolding bounded
  bounded-IsIdentifier before rest p = elim (Bool-cases (is_whole before rest)) [
    | inl e ↦ rw e (and_parts (not (starts_escaped rest)) (identifier_bytes (before ++ rest)) e).1
    | inr e ↦ rw e (
        identifier-append before _ p
          (all-append is_identifier_byte (mark ++ kept_digest sha256 rest) (tail rest (room before))
            (all-take is_identifier_byte digest_digits (sha256_hex sha256 (domain ++ rest))
              (all_digest rest))
            (all-implied in_grammar is_identifier_byte in_grammar-identifier
              (tail rest (room before)) (all-in_grammar-tail rest (room before))))
          (omega (
            arith,
            prefix-room before p,
            length-append (kept_digest sha256 rest) (tail rest (room before)),
            length-take digest_digits (sha256_hex sha256 (domain ++ rest)),
            length-tail rest (room before),
          )))
  ]
