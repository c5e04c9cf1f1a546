-- ===== src/Encoding/Base64.antt =====
-- crates/cbr-encoding/src/base64.rs: padded standard base64, strict.
pub mod Alphabet
pub mod RoundTrip
pub mod Strict
use cbr.Prelude.Partial.{◌>>=◌}
use cbr.Prelude.{
  ℕ, zero, suc, ◌+◌, ◌-◌, ◌*◌, ◌/◌, ◌%◌, ◌^◌, Bool, true, false, not, ◌&&◌, ◌||◌, Option, none,
  some, List, [], ◌∷◌, ◌++◌, Text, Bytes, length, ltb, leb, ◌==◌, if◌then◌else◌,
}
use Alphabet.{symbol, position}

abbrev pad : ℕ
pad = b'='

-- `(b0 << 16) | (b1 << 8) | b2`: the bytes are below 256, so the parts do not overlap.
abbrev pub join : ℕ → ℕ → ℕ → ℕ
join b₀ b₁ b₂ = b₀ * 2 ^ 16 + b₁ * 2 ^ 8 + b₂

-- One chunk of one, two or three bytes; a missing byte reads as 0 and its character is `=`.
unfoldable pub encode_base64 : Bytes → Text
encode_base64 [] = []
encode_base64 (b₀ ∷ []) =
    let n = join b₀ 0 0 in symbol (n / 2 ^ 18 % 64) ∷ symbol (n / 2 ^ 12 % 64) ∷ pad ∷ pad ∷ []
encode_base64 (b₀ ∷ b₁ ∷ []) =
    let n = join b₀ b₁ 0 in
    symbol (n / 2 ^ 18 % 64) ∷ symbol (n / 2 ^ 12 % 64) ∷ symbol (n / 2 ^ 6 % 64) ∷ pad ∷ []
encode_base64 (b₀ ∷ b₁ ∷ b₂ ∷ rest) =
    let n = join b₀ b₁ b₂ in
    symbol (n / 2 ^ 18 % 64)
    ∷ symbol (n / 2 ^ 12 % 64)
    ∷ symbol (n / 2 ^ 6 % 64)
    ∷ symbol (n % 64)
    ∷ encode_base64 rest

-- `quad.iter().rev().take_while(|c| **c == b'=').count()`
unfoldable pub padding_of : ℕ → ℕ → ℕ → ℕ → ℕ
padding_of a b c d =
    if not (d == pad)
    then 0
    else if not (c == pad)
    then 1
    else if not (b == pad)
    then 2
    else if not (a == pad)
    then 3
    else 4

-- The digit of the `i`th character of a quad.
unfoldable pub digit : ℕ → ℕ → ℕ → Option ℕ
digit padding i c = if leb (4 - padding) i then some 0 else position c

-- `n = (n << 6) | digit`, four times from 0
unfoldable pub quad_value : ℕ → ℕ → ℕ → ℕ → ℕ → Option ℕ
quad_value padding a b c d = do
  v₀ ← digit padding 0 a
  v₁ ← digit padding 1 b
  v₂ ← digit padding 2 c
  v₃ ← digit padding 3 d
  some (((v₀ * 2 ^ 6 + v₁) * 2 ^ 6 + v₂) * 2 ^ 6 + v₃)

-- Bits that the padding discards.
unfoldable pub stray_bits : ℕ → ℕ → Bool
stray_bits padding n =
    (padding == 1 && not (n % 2 ^ 8 == 0)) || (padding == 2 && not (n % 2 ^ 16 == 0))

-- `as u8` keeps the low eight bits.
unfoldable pub quad_bytes : ℕ → ℕ → Bytes
quad_bytes padding n =
    (n / 2 ^ 16 % 256)
    ∷ ((if ltb padding 2 then (n / 2 ^ 8 % 256) ∷ [] else [])
        ++ (if ltb padding 1 then (n % 256) ∷ [] else []))

-- The body of the loop over the quads.
unfoldable pub decode_quad : Bool → ℕ → ℕ → ℕ → ℕ → Option Bytes
decode_quad last a b c d =
    let padding = padding_of a b c d in
    if ltb 2 padding || (ltb 0 padding && not last) then none else (do
      n ← quad_value padding a b c d
      if stray_bits padding n then none else some (quad_bytes padding n))

abbrev pub is_empty : Text → Bool
is_empty [] = true
is_empty (_ ∷ _) = false

-- The loop: the last quad is the one with nothing after it. The short tails are unreachable
-- behind the test on the length.
unfoldable pub decode_quads : Text → Option Bytes
decode_quads [] = some []
decode_quads (a ∷ b ∷ c ∷ d ∷ rest) = do
  bytes ← decode_quad (is_empty rest) a b c d
  more ← decode_quads rest
  some (bytes ++ more)
decode_quads _ = none

unfoldable pub decode_base64 : Text → Option Bytes
decode_base64 text = if length text % 4 == 0 then decode_quads text else none
