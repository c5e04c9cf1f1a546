-- ===== src/Encoding/Parse/Characters.antt =====
-- What the readers of one character ensure.
use cbr.Prelude.{
  ℕ, zero, suc, ◌+◌, ◌-◌, ◌*◌, ◌^◌, ◌≤◌, ◌<◌, ◌≡◌, refl, inl, inr, true, not, ◌&&◌, some, [], ◌∷◌,
  Bytes, length, length-drop, starts_with, arith, ◌==◌, Option-cases, ltb, in_range, codes,
}
use cbr.Prelude.Tables.{holds_below, holds_below_sound}
use cbr.Encoding.Utf8.{is_scalar, next_char, read_two, read_three, read_four}
use cbr.Encoding.Value.{is_noncharacter}
use cbr.Encoding.Domain.{IsChar}
use cbr.Encoding.Parse.Steps.{Cursor, peek, advance}
use cbr.Encoding.Parse.Strings.{
  hex_value, hex_digits, hex4, scalar_of, unicode_escape, short_escape, escape, plain_char,
}
use cbr.Encoding.Parse.Progress.{left, left-advance}
use cbr.Encoding.Parse.Ensures.{Ensures, holds, rejected, Ensures-if, Ensures-bind, Ensures-weaken}

read_two_sound :
    (a : ℕ) (rest : Bytes) (c : ℕ) (behind : Bytes)
    → in_range 0xC2 0xDF a ≡ true
    → read_two a rest ≡ some (c, behind)
    → (is_scalar c ≡ true) × (length behind < length rest)
unfolding read_two
read_two_sound a [] c behind h e = cc
read_two_sound a (b ∷ rest) c behind h e = ground arith

read_three_sound :
    (a : ℕ) (rest : Bytes) (c : ℕ) (behind : Bytes)
    → in_range 0xE0 0xEF a ≡ true
    → read_three a rest ≡ some (c, behind)
    → (is_scalar c ≡ true) × (length behind < length rest)
unfolding read_three
read_three_sound a [] c behind h e = cc
read_three_sound a (x ∷ []) c behind h e = cc
read_three_sound a (x ∷ y ∷ rest) c behind h e = ground arith

read_four_sound :
    (a : ℕ) (rest : Bytes) (c : ℕ) (behind : Bytes)
    → in_range 0xF0 0xF4 a ≡ true
    → read_four a rest ≡ some (c, behind)
    → (is_scalar c ≡ true) × (length behind < length rest)
unfolding read_four
read_four_sound a [] c behind h e = cc
read_four_sound a (x ∷ []) c behind h e = cc
read_four_sound a (x ∷ y ∷ []) c behind h e = cc
read_four_sound a (x ∷ y ∷ z ∷ rest) c behind h e = ground arith

pub next_char_sound :
    (rest : Bytes) (c : ℕ) (behind : Bytes)
    → next_char rest ≡ some (c, behind)
    → (is_scalar c ≡ true) × (length behind < length rest)
unfolding next_char
next_char_sound [] c behind h = cc
next_char_sound (a ∷ rest) c behind h = ground (
  arith,
  read_two_sound a rest c behind,
  read_three_sound a rest c behind,
  read_four_sound a rest c behind,
)

-- A piece of input that yields a character has taken at least the bytes given.
abbrev TakesChar : Cursor → ℕ → Cursor → Type 0
TakesChar c ch c' = IsChar ch × (left c' ≤ left c)

hex_digits-Ensures :
    (count value : ℕ) (c : Cursor) → Ensures (λ _ c'. left c' ≤ left c) (hex_digits count value c)
unfolding hex_digits
hex_digits-Ensures zero value c = holds (omega arith)
hex_digits-Ensures (suc count) value c = elim (Option-cases (peek c)) [
  | inl e ↦ rw (e, hex_digits) rejected
  | inr (byte, e) ↦ elim (Option-cases (hex_value byte)) [
    | inl f ↦ rw (e, hex_digits) (rw f rejected)
    | inr (digit, f) ↦
        rw (e, hex_digits)
          (rw f (
            Ensures-weaken (hex_digits-Ensures count (value * 16 + digit) (advance 1 c))
              λ v c' h. holds (omega (arith, left-advance c byte e))))
  ]
]

scalar_of-Ensures :
    (start code_point : ℕ) (c : Cursor)
    → Ensures (λ ch c'. IsChar ch × (left c' ≤ left c)) (scalar_of start code_point c)
unfolding scalar_of
scalar_of-Ensures start code_point c =
    Ensures-if (is_noncharacter code_point) (λ _. rejected)
      λ character.
        Ensures-if (is_scalar code_point)
          (λ scalar. holds (record { scalar = scalar; character = character }, omega arith))
          (λ _. rejected)

hex4-Ensures : (c : Cursor) → Ensures (λ _ c'. left c' ≤ left c) (hex4 c)
unfolding hex4
hex4-Ensures c = Ensures-if (ltb (left c) 4) (λ _. rejected) (λ _. hex_digits-Ensures 4 0 c)

pub advance-le : (n : ℕ) (c : Cursor) → left (advance n c) ≤ left c
advance-le n c = omega (arith, length-drop n c.rest)

unicode_escape-Ensures :
    (c : Cursor) → Ensures (λ ch c'. IsChar ch × (left c' ≤ left c)) (unicode_escape c)
unfolding unicode_escape
unicode_escape-Ensures c = Ensures-bind (hex4-Ensures c) λ first c₁ h₁.
    Ensures-if (in_range 0xD800 0xDBFF first)
      (λ _.
        Ensures-if (not (starts_with (codes "\\u") c₁.rest)) (λ _. rejected)
          λ _. Ensures-bind (hex4-Ensures (advance 2 c₁)) λ second c₂ h₂.
            Ensures-if (not (in_range 0xDC00 0xDFFF second)) (λ _. rejected)
              λ _.
                Ensures-weaken
                  (scalar_of-Ensures (c.at - 2)
                    (0x10000 + (first - 0xD800) * 2 ^ 10 + (second - 0xDC00)) c₂)
                  λ ch c₃ h₃. holds (h₃.0, omega (arith, advance-le 2 c₁)))
      (λ _.
        Ensures-if (in_range 0xDC00 0xDFFF first) (λ _. rejected)
          λ _.
            Ensures-weaken (scalar_of-Ensures (c.at - 2) first c₁)
              λ ch c₂ h₂. holds (h₂.0, omega arith))

-- The eight short escapes stand for characters of the domain.
short_escape-le : (byte ch : ℕ) → short_escape byte ≡ some ch → ch < 128
short_escape-le byte ch h = ground arith

ascii_table : holds_below (λ c. is_scalar c && not (is_noncharacter c)) 128 ≡ true
unfolding holds_below is_noncharacter
ascii_table = refl

pub ascii-IsChar : (c : ℕ) → c < 128 → IsChar c
ascii-IsChar c h =
    let e = holds_below_sound (λ c. is_scalar c && not (is_noncharacter c)) 128 c h ascii_table in
    record { scalar = ground (arith, e); character = ground (arith, e) }

short_escape-IsChar : (byte ch : ℕ) → short_escape byte ≡ some ch → IsChar ch
short_escape-IsChar byte ch h = ascii-IsChar ch (short_escape-le byte ch h)

pub escape-Ensures : (c : Cursor) → Ensures (λ ch c'. IsChar ch × (left c' < left c)) (escape c)
unfolding escape
escape-Ensures c = elim (Option-cases (peek c)) [
  | inl e ↦ rw (e, escape) rejected
  | inr (byte, e) ↦
      rw (e, escape)
        (Ensures-if (byte == b'u')
          (λ _.
            Ensures-weaken (unicode_escape-Ensures (advance 1 c))
              λ ch c' h. holds (h.0, omega (arith, left-advance c byte e)))
          (λ _. elim (Option-cases (short_escape byte)) [
            | inl f ↦ rw f rejected
            | inr (ch, f) ↦
                rw f (holds (short_escape-IsChar byte ch f, omega (arith, left-advance c byte e)))
          ]))
]

pub plain_char-Ensures :
    (c : Cursor) → Ensures (λ ch c'. IsChar ch × (left c' < left c)) (plain_char c)
unfolding plain_char
plain_char-Ensures c = elim (Option-cases (next_char c.rest)) [
  | inl e ↦ rw (e, plain_char) rejected
  | inr (r, e) ↦
      rw (e, plain_char)
        (Ensures-if (is_noncharacter r.0) (λ _. rejected)
          λ character.
            let (scalar, shorter) = next_char_sound c.rest r.0 r.1 e in
            holds (record { scalar = scalar; character = character }, shorter))
]
