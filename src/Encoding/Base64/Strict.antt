-- ===== src/Encoding/Base64/Strict.antt =====
-- Decoding is strict: a text that is read as some bytes is the text of those bytes.
use mathlib.Core.Path.{ap₂}
use cbr.Prelude.Partial.{eq_of_some, ◌>>=◌}
use cbr.Prelude.{
  ℕ, zero, suc, ◌/◌, ◌%◌, ◌^◌, ◌<◌, ◌≡◌, refl, ◌↔◌, Bool, true, false, Option, none, ap, some, [],
  ◌∷◌, ◌++◌, Text, Bytes, arith, All, ltb, ◌∙◌, subst, inl, inr, Option-cases, Bool-cases,
  append-nil, sym,
}
use cbr.Encoding.Base64.Alphabet.{symbol, position, position_sound}
use cbr.Encoding.Base64.RoundTrip.{IsByte, decode-encode, spelled}
use cbr.Encoding.Base64.{
  join, encode_base64, padding_of, digit, quad_value, stray_bits, quad_bytes, decode_quad,
  decode_quads, decode_base64, is_empty,
}

-- The characters spell `n`, after the padding the padding character.
record Spells (padding a b c d n : ℕ) : Type 0 where
  v₀ : ℕ
  v₁ : ℕ
  v₂ : ℕ
  v₃ : ℕ
  value : n ≡ spelled v₀ v₁ v₂ v₃
  at₀ : position a ≡ some v₀
  at₁ : position b ≡ some v₁
  at₂ : (padding < 2 → position c ≡ some v₂)
  at₃ : (padding < 1 → position d ≡ some v₃)
  no₂ : (1 < padding → v₂ ≡ 0)
  no₃ : (0 < padding → v₃ ≡ 0)

four :
    (o₀ o₁ o₂ o₃ : Option ℕ) (n : ℕ)
    → (do v₀ ← o₀; v₁ ← o₁; v₂ ← o₂; v₃ ← o₃; some (spelled v₀ v₁ v₂ v₃)) ≡ some n
    → (v₀ : ℕ) × (v₁ : ℕ) × (v₂ : ℕ) × (v₃ : ℕ) × (o₀ ≡ some v₀)
      × (o₁ ≡ some v₁)
      × (o₂ ≡ some v₂)
      × (o₃ ≡ some v₃)
      × (n ≡ spelled v₀ v₁ v₂ v₃)
four (some v₀) (some v₁) (some v₂) (some v₃) n h =
    (v₀, v₁, v₂, v₃, refl, refl, refl, refl, ground arith)
four none o₁ o₂ o₃ n h = cc
four (some v₀) none o₂ o₃ n h = cc
four (some v₀) (some v₁) none o₃ n h = cc
four (some v₀) (some v₁) (some v₂) none n h = cc

quad_value_sound :
    (padding a b c d n : ℕ)
    → padding < 3
    → quad_value padding a b c d ≡ some n
    → Spells padding a b c d n
unfolding quad_value
quad_value_sound padding a b c d n h e =
    let (v₀, v₁, v₂, v₃, e₀, e₁, e₂, e₃, value) =
      four (digit padding 0 a) (digit padding 1 b) (digit padding 2 c) (digit padding 3 d) n e in
    unfold digit in
    record {
      v₀ = v₀;
      v₁ = v₁;
      v₂ = v₂;
      v₃ = v₃;
      value = value;
      at₀ = ground arith;
      at₁ = ground arith;
      at₂ = λ l. ground arith;
      at₃ = λ l. ground arith;
      no₂ = λ l. ground arith;
      no₃ = λ l. ground arith;
    }

record Decoded (last : Bool) (a b c d : ℕ) (q : Bytes) : Type 0 where
  n : ℕ
  short : padding_of a b c d < 3
  final : last ≡ false → padding_of a b c d ≡ 0
  value : quad_value (padding_of a b c d) a b c d ≡ some n
  clean : stray_bits (padding_of a b c d) n ≡ false
  bytes : q ≡ quad_bytes (padding_of a b c d) n

decode_quad_sound :
    (last : Bool) (a b c d : ℕ) (q : Bytes)
    → decode_quad last a b c d ≡ some q
    → Decoded last a b c d q
unfolding decode_quad
decode_quad_sound last a b c d q h = elim (Option-cases (quad_value (padding_of a b c d) a b c d)) [
  | inl e ↦ ground arith
  | inr (n, e) ↦ record {
    n = n;
    short = ground arith;
    final = ground arith;
    value = e;
    clean = ground arith;
    bytes = ground arith;
  }
]

padding_of_chars :
    (a b c d : ℕ)
    → padding_of a b c d < 3
    → (0 < padding_of a b c d → d ≡ b'=') × (1 < padding_of a b c d → c ≡ b'=')
unfolding padding_of
padding_of_chars a b c d h = ground arith

-- The bytes of a quad are encoded by its digits.
module _ (v₀ v₁ v₂ v₃ : ℕ) (h₀ : v₀ < 64) (h₁ : v₁ < 64) (h₂ : v₂ < 64) (h₃ : v₃ < 64) where
  digits_of :
      (n : ℕ)
      → n ≡ spelled v₀ v₁ v₂ v₃
      → (n / 2 ^ 18 % 64 ≡ v₀) × (n / 2 ^ 12 % 64 ≡ v₁) × (n / 2 ^ 6 % 64 ≡ v₂) × (n % 64 ≡ v₃)
  digits_of n e = (omega arith, omega arith, omega arith, omega arith)

  -- one, two or three bytes
  bytes_of :
      (n : ℕ) → n ≡ spelled v₀ v₁ v₂ v₃ → join (n / 2 ^ 16 % 256) (n / 2 ^ 8 % 256) (n % 256) ≡ n
  bytes_of n e = omega arith

  encode_full :
      (more : Bytes)
      → encode_base64 (quad_bytes 0 (spelled v₀ v₁ v₂ v₃) ++ more)
        ≡ symbol v₀ ∷ symbol v₁ ∷ symbol v₂ ∷ symbol v₃ ∷ encode_base64 more
  unfolding encode_base64 quad_bytes
  encode_full more =
      let n = spelled v₀ v₁ v₂ v₃ in
      rw (
        bytes_of n refl,
        (digits_of n refl).0,
        (digits_of n refl).1,
        (digits_of n refl).2,
        (digits_of n refl).3,
      )

encode_one_pad :
    (v₀ v₁ v₂ : ℕ)
    → v₀ < 64
    → v₁ < 64
    → v₂ < 64
    → v₂ % 4 ≡ 0
    → encode_base64 (quad_bytes 1 (spelled v₀ v₁ v₂ 0))
      ≡ symbol v₀ ∷ symbol v₁ ∷ symbol v₂ ∷ b'=' ∷ []
unfolding encode_base64 quad_bytes
encode_one_pad v₀ v₁ v₂ h₀ h₁ h₂ z =
    ground (arith, digits_of v₀ v₁ v₂ 0 h₀ h₁ h₂ (omega arith) (spelled v₀ v₁ v₂ 0) refl)

encode_two_pads :
    (v₀ v₁ : ℕ)
    → v₀ < 64
    → v₁ < 64
    → v₁ % 16 ≡ 0
    → encode_base64 (quad_bytes 2 (spelled v₀ v₁ 0 0)) ≡ symbol v₀ ∷ symbol v₁ ∷ b'=' ∷ b'=' ∷ []
unfolding encode_base64 quad_bytes
encode_two_pads v₀ v₁ h₀ h₁ z =
    ground (arith, digits_of v₀ v₁ 0 0 h₀ h₁ (omega arith) (omega arith) (spelled v₀ v₁ 0 0) refl)

quad_bytes-IsByte : (padding n : ℕ) → All IsByte (quad_bytes padding n)
unfolding quad_bytes
quad_bytes-IsByte padding n = elim (Bool-cases (ltb padding 2)) [
  | inl e ↦ elim (Bool-cases (ltb padding 1)) [
    | inl f ↦ rw (e, f) (omega arith)
    | inr f ↦ rw (e, f) (omega arith)
  ]
  | inr e ↦ elim (Bool-cases (ltb padding 1)) [
    | inl f ↦ rw (e, f) (omega arith)
    | inr f ↦ rw (e, f) (omega arith)
  ]
]

module _ (a b c d n : ℕ) (more : Bytes) where
  encode-quad :
      (k : ℕ)
      → Spells k a b c d n
      → (0 < k → d ≡ b'=')
      → (1 < k → c ≡ b'=')
      → stray_bits k n ≡ false
      → (0 < k → more ≡ [])
      → k < 3
      → encode_base64 (quad_bytes k n ++ more) ≡ a ∷ b ∷ c ∷ d ∷ encode_base64 more
  unfolding stray_bits
  encode-quad zero v pads₃ pads₂ clean final h =
      let (s₀, l₀) = position_sound a v.v₀ v.at₀ in
      let (s₁, l₁) = position_sound b v.v₁ v.at₁ in
      let (s₂, l₂) = position_sound c v.v₂ (v.at₂ (omega arith)) in
      let (s₃, l₃) = position_sound d v.v₃ (v.at₃ (omega arith)) in
      rw (v.value) (encode_full v.v₀ v.v₁ v.v₂ v.v₃ l₀ l₁ l₂ l₃ more ∙ cc (s₀, s₁, s₂, s₃))
  encode-quad (suc zero) v pads₃ pads₂ clean final h =
      let (s₀, l₀) = position_sound a v.v₀ v.at₀ in
      let (s₁, l₁) = position_sound b v.v₁ v.at₁ in
      let (s₂, l₂) = position_sound c v.v₂ (v.at₂ (omega arith)) in
      let e : n ≡ spelled v.v₀ v.v₁ v.v₂ 0 =
        v.value ∙ ap (spelled v.v₀ v.v₁ v.v₂) (v.no₃ (omega arith)) in
      let z : v.v₂ % 4 ≡ 0 = ground arith in
      rw (final (omega arith), append-nil, e, pads₃ (omega arith))
        (encode_one_pad v.v₀ v.v₁ v.v₂ l₀ l₁ l₂ z ∙ unfold encode_base64 in cc (s₀, s₁, s₂))
  encode-quad (suc (suc zero)) v pads₃ pads₂ clean final h =
      let (s₀, l₀) = position_sound a v.v₀ v.at₀ in
      let (s₁, l₁) = position_sound b v.v₁ v.at₁ in
      let e : n ≡ spelled v.v₀ v.v₁ 0 0 =
        v.value ∙ ap₂ (spelled v.v₀ v.v₁) (v.no₂ (omega arith)) (v.no₃ (omega arith)) in
      let z : v.v₁ % 16 ≡ 0 = ground arith in
      rw (final (omega arith), append-nil, e, pads₃ (omega arith), pads₂ (omega arith))
        (encode_two_pads v.v₀ v.v₁ l₀ l₁ z ∙ unfold encode_base64 in cc (s₀, s₁))
  encode-quad (suc (suc (suc k))) v pads₃ pads₂ clean final h = absurd (omega arith)

decode_quad_strict :
    (last : Bool) (a b c d : ℕ) (q more : Bytes)
    → decode_quad last a b c d ≡ some q
    → (last ≡ true → more ≡ [])
    → encode_base64 (q ++ more) ≡ a ∷ b ∷ c ∷ d ∷ encode_base64 more
decode_quad_strict last a b c d q more h final =
    let w = decode_quad_sound last a b c d q h in
    let (pads₃, pads₂) = padding_of_chars a b c d w.short in
    rw (w.bytes) (
      encode-quad a b c d w.n more (padding_of a b c d)
        (quad_value_sound (padding_of a b c d) a b c d w.n w.short w.value) pads₃ pads₂ w.clean
        (λ padded. elim (Bool-cases last) [
          | inl e ↦ final e
          | inr e ↦ absurd (omega (arith, w.final e))
        ])
        w.short)

decode_quad-IsByte :
    (last : Bool) (a b c d : ℕ) (q : Bytes) → decode_quad last a b c d ≡ some q → All IsByte q
decode_quad-IsByte last a b c d q h =
    let w = decode_quad_sound last a b c d q h in
    rw (w.bytes) (quad_bytes-IsByte (padding_of a b c d) w.n)

All-append : (xs ys : Bytes) → All IsByte xs → All IsByte ys → All IsByte (xs ++ ys)
All-append [] ys h k = k
All-append (x ∷ xs) ys h k = (h.0, All-append xs ys h.1 k)

-- With nothing left to read, nothing more was decoded.
decode_quads-empty :
    (rest : Text) (more : Bytes) → decode_quads rest ≡ some more → is_empty rest ≡ true → more ≡ []
unfolding decode_quads
decode_quads-empty [] more h e = cc
decode_quads-empty (x ∷ rest) more h e = cc

two :
    (o r : Option Bytes) (bytes : Bytes)
    → (do q ← o; more ← r; some (q ++ more)) ≡ some bytes
    → (q : Bytes) × (more : Bytes) × (o ≡ some q)
      × (r ≡ some more)
      × (some bytes ≡ some (q ++ more))
two (some q) (some more) bytes h = (q, more, refl, refl, sym h)
two none r bytes h = cc
two (some q) none bytes h = cc

decode_quads-cons :
    (a b c d : ℕ) (rest : Text) (bytes : Bytes)
    → decode_quads (a ∷ b ∷ c ∷ d ∷ rest) ≡ some bytes
    → (q : Bytes) × (more : Bytes) × (decode_quad (is_empty rest) a b c d ≡ some q)
      × (decode_quads rest ≡ some more)
      × (some bytes ≡ some (q ++ more))
unfolding decode_quads
decode_quads-cons a b c d rest bytes h =
    two (decode_quad (is_empty rest) a b c d) (decode_quads rest) bytes h

decode_quads_strict :
    (text : Text) (bytes : Bytes)
    → decode_quads text ≡ some bytes
    → (encode_base64 bytes ≡ text) × All IsByte bytes
decode_quads_strict [] bytes h =
    let e : [] ≡ bytes = unfold decode_quads in eq_of_some h in
    subst (λ b. (encode_base64 b ≡ []) × All IsByte b) e (unfold encode_base64 in (refl, tt))
decode_quads_strict (a ∷ b ∷ c ∷ d ∷ rest) bytes h =
    let (q, more, e, f, g) = decode_quads-cons a b c d rest bytes h in
    let (same, all) = decode_quads_strict rest more f in
    rw (eq_of_some g) (
      decode_quad_strict (is_empty rest) a b c d q more e (decode_quads-empty rest more f)
          ∙ ap (λ t. a ∷ b ∷ c ∷ d ∷ t) same,
      All-append q more (decode_quad-IsByte (is_empty rest) a b c d q e) all,
    )
decode_quads_strict (a ∷ []) bytes h = unfold decode_quads in cc
decode_quads_strict (a ∷ b ∷ []) bytes h = unfold decode_quads in cc
decode_quads_strict (a ∷ b ∷ c ∷ []) bytes h = unfold decode_quads in cc

-- A text is decoded to some bytes exactly when they are bytes and it is the text that encodes
-- them: no two texts carry the same bytes.
pub decode-eq-some_iff :
    (text : Text) (bytes : Bytes)
    → (decode_base64 text ≡ some bytes) ↔ ((encode_base64 bytes ≡ text) × All IsByte bytes)
unfolding decode_base64
decode-eq-some_iff text bytes = (
  λ h. decode_quads_strict text bytes (ground arith),
  λ h. rw (← h.0) (unfold decode_base64 in (decode-encode bytes h.1).0),
)
