-- ===== src/Encoding/Base64/RoundTrip.antt =====
-- Encoding and decoding are inverse: every byte string is read back, and only its own text is
-- read as it.
use cbr.Prelude.{
  ℕ, ◌+◌, ◌*◌, ◌/◌, ◌%◌, ◌^◌, ◌<◌, ◌≡◌, refl, ◌∙◌, Bool, true, ap, some, [], ◌∷◌, ◌++◌, Text, Bytes,
  length, arith, All,
}
use cbr.Encoding.Base64.Alphabet.{symbol, position-symbol, symbol-ne-pad}
use cbr.Encoding.Base64.{
  join, encode_base64, padding_of, digit, quad_value, stray_bits, quad_bytes, decode_quad,
  decode_quads, decode_base64, is_empty,
}

abbrev pub IsByte : ℕ → Type 0
IsByte b = b < 256

-- `(((v₀ << 6 | v₁) << 6 | v₂) << 6) | v₃`
abbrev pub spelled : ℕ → ℕ → ℕ → ℕ → ℕ
spelled v₀ v₁ v₂ v₃ = ((v₀ * 2 ^ 6 + v₁) * 2 ^ 6 + v₂) * 2 ^ 6 + v₃

-- Quads of digits are read as the number that they spell.
module _ (v₀ v₁ : ℕ) (h₀ : v₀ < 64) (h₁ : v₁ < 64) where
  decode_quad-digits :
      (last : Bool) (v₂ v₃ : ℕ)
      → v₂ < 64
      → v₃ < 64
      → decode_quad last (symbol v₀) (symbol v₁) (symbol v₂) (symbol v₃)
        ≡ some (quad_bytes 0 (spelled v₀ v₁ v₂ v₃))
  unfolding decode_quad padding_of quad_value digit stray_bits
  decode_quad-digits last v₂ v₃ h₂ h₃ = ground (
    arith,
    symbol-ne-pad v₃,
    position-symbol v₀,
    position-symbol v₁,
    position-symbol v₂,
    position-symbol v₃,
  )

  decode_quad-one_pad :
      (v₂ : ℕ)
      → v₂ < 64
      → v₂ % 4 ≡ 0
      → decode_quad true (symbol v₀) (symbol v₁) (symbol v₂) b'='
        ≡ some (quad_bytes 1 (spelled v₀ v₁ v₂ 0))
  unfolding decode_quad padding_of quad_value digit stray_bits
  decode_quad-one_pad v₂ h₂ z =
      ground (arith, symbol-ne-pad v₂, position-symbol v₀, position-symbol v₁, position-symbol v₂)

  decode_quad-two_pads :
      v₁ % 16 ≡ 0
      → decode_quad true (symbol v₀) (symbol v₁) b'=' b'=' ≡ some (quad_bytes 2 (spelled v₀ v₁ 0 0))
  unfolding decode_quad padding_of quad_value digit stray_bits
  decode_quad-two_pads z = ground (arith, symbol-ne-pad v₁, position-symbol v₀, position-symbol v₁)

decode_quads-step :
    (a b c d : ℕ) (rest : Text) (q more : Bytes)
    → decode_quad (is_empty rest) a b c d ≡ some q
    → decode_quads rest ≡ some more
    → decode_quads (a ∷ b ∷ c ∷ d ∷ rest) ≡ some (q ++ more)
unfolding decode_quads
decode_quads-step a b c d rest q more e f = ground (arith, e, f)

-- The three bytes of a full chunk, and the bytes of the two short ones.
module _ (b₀ b₁ b₂ : ℕ) (h₀ : b₀ < 256) (h₁ : b₁ < 256) (h₂ : b₂ < 256) where
  full_bytes :
      (n : ℕ)
      → n ≡ join b₀ b₁ b₂
      → quad_bytes 0 (spelled (n / 2 ^ 18 % 64) (n / 2 ^ 12 % 64) (n / 2 ^ 6 % 64) (n % 64))
        ≡ b₀ ∷ b₁ ∷ b₂ ∷ []
  unfolding quad_bytes
  full_bytes n e = ground arith

decode_quads-encode :
    (bytes : Bytes) → All IsByte bytes → decode_quads (encode_base64 bytes) ≡ some bytes
unfolding encode_base64
decode_quads-encode [] h = unfold decode_quads in refl
decode_quads-encode (b₀ ∷ []) h =
    let n = join b₀ 0 0 in
    unfold decode_quads in
    rw
      (decode_quad-two_pads (n / 2 ^ 18 % 64) (n / 2 ^ 12 % 64) (omega arith) (omega arith)
        (omega arith))
      (unfold quad_bytes in ground arith)
decode_quads-encode (b₀ ∷ b₁ ∷ []) h =
    let n = join b₀ b₁ 0 in
    unfold decode_quads in
    rw
      (decode_quad-one_pad (n / 2 ^ 18 % 64) (n / 2 ^ 12 % 64) (omega arith) (omega arith)
        (n / 2 ^ 6 % 64) (omega arith) (omega arith))
      (unfold quad_bytes in ground arith)
decode_quads-encode (b₀ ∷ b₁ ∷ b₂ ∷ rest) h =
    let n = join b₀ b₁ b₂ in
    decode_quads-step _ _ _ _ (encode_base64 rest) (b₀ ∷ b₁ ∷ b₂ ∷ []) rest
      (decode_quad-digits (n / 2 ^ 18 % 64) (n / 2 ^ 12 % 64) (omega arith) (omega arith)
          (is_empty (encode_base64 rest)) (n / 2 ^ 6 % 64) (n % 64) (omega arith) (omega arith)
        ∙ ap some (full_bytes b₀ b₁ b₂ h.0 h.1.0 h.1.1.0 n refl))
      (decode_quads-encode rest h.1.1.1)

length-encode_base64 : (bytes : Bytes) → length (encode_base64 bytes) ≡ 4 * ((length bytes + 2) / 3)
unfolding encode_base64
length-encode_base64 [] = refl
length-encode_base64 (b₀ ∷ []) = refl
length-encode_base64 (b₀ ∷ b₁ ∷ []) = refl
length-encode_base64 (b₀ ∷ b₁ ∷ b₂ ∷ rest) = omega (arith, length-encode_base64 rest)

-- Every byte string is read back from its text, and the text has four characters for every three
-- bytes, the last chunk filled up.
pub decode-encode :
    (bytes : Bytes)
    → All IsByte bytes
    → (decode_base64 (encode_base64 bytes) ≡ some bytes)
      × (length (encode_base64 bytes) ≡ 4 * ((length bytes + 2) / 3))
unfolding decode_base64
decode-encode bytes h = (
  rw (length-encode_base64 bytes) (ground (arith, decode_quads-encode bytes h)),
  length-encode_base64 bytes,
)
