-- ===== src/Ids/RoundTrip.antt =====
-- What `encode` writes, `decode` reads back.
use cbr.Prelude.{
  ℕ, ◌/◌, ◌%◌, ◌<◌, ◌≡◌, refl, ap, ◌∙◌, arith, true, Bool-cases, inl, inr, some, [], ◌∷◌, Bytes,
  All, ◌==◌,
}
use cbr.Ids.Codec.{
  kept, upper_digit, encode, digit_value, both_digits, escaped, Step, step_of, push, decode,
}

digit_value-upper_digit : (d : ℕ) → d < 16 → digit_value (upper_digit d) ≡ some d
digit_value-upper_digit d h = ground arith

escaped-upper_digit :
    (byte : ℕ)
    → byte < 256
    → escaped (upper_digit (byte / 16)) (upper_digit (byte % 16)) ≡ some byte
escaped-upper_digit byte h =
    ap (λ high. both_digits high (digit_value (upper_digit (byte % 16))))
      (digit_value-upper_digit (byte / 16) (omega (arith, h)))
    ∙ ap (both_digits (some (byte / 16))) (digit_value-upper_digit (byte % 16) (omega arith))
    ∙ ap some (omega arith)

step_of-kept : (byte : ℕ) → kept byte ≡ true → step_of byte ≡ Step.plain byte
step_of-kept byte h = ground arith

decode-plain :
    (a byte : ℕ) (more : Bytes)
    → step_of a ≡ Step.plain byte
    → decode (a ∷ more) ≡ push byte (decode more)
unfolding decode
decode-plain a byte [] e = rw (e, decode) refl
decode-plain a byte (b ∷ []) e = rw (e, decode) refl
decode-plain a byte (b ∷ c ∷ more) e = rw (e, decode) refl

-- The bytes that an identifier spells are read back from it.
pub decode-encode_raw :
    (raw : Bytes) → All (λ byte. byte < 256) raw → decode (encode raw) ≡ some raw
unfolding encode decode
decode-encode_raw [] h = refl
decode-encode_raw (byte ∷ more) h = elim (Bool-cases (kept byte)) [
  | inl e ↦
      rw (e, encode)
        (decode-plain byte byte (encode more) (step_of-kept byte e)
          ∙ ap (push byte) (decode-encode_raw more h.1))
  | inr e ↦
      rw (e, encode)
        (elim (Bool-cases (byte == b'/')) [
          | inl f ↦
              rw (f, encode)
                (decode-plain b':' b'/' (encode more) refl
                  ∙ rw (decode-encode_raw more h.1) (ap (λ b. some (b ∷ more)) (ground arith)))
          | inr f ↦
              rw (f, encode) (rw (escaped-upper_digit byte h.0, decode-encode_raw more h.1) refl)
        ])
]
