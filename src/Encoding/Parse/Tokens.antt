-- ===== src/Encoding/Parse/Tokens.antt =====
-- Strings and numbers as the reader returns them are in the domain.
use cbr.Prelude.{
  ℕ, zero, suc, ◌+◌, ◌-◌, ◌*◌, ◌≤◌, ◌<◌, ◌≡◌, refl, inl, inr, Bool, true, false, ◌&&◌, ◌≢◌, Option,
  none, some, [], ◌∷◌, Text, Bytes, length, arith, if◌then◌else◌, Option-cases, All, text_eq, ℤ,
}
use cbr.Encoding.Value.{Value, int, max_safe_integer}
use cbr.Encoding.Domain.{IsChar, IsSafe}
use cbr.Encoding.Parse.Steps.{Cursor, peek, sees, advance, head_of}
use cbr.Encoding.Parse.Strings.{
  Next, end, quote, backslash, control, plain, next_of, string_body, string_value,
}
use cbr.Encoding.Parse.Number.{
  span_digits, magnitude_of, signed, finish_number, number, behind_digits, sees_digit,
  sees_fraction,
}
use cbr.Encoding.Parse.Progress.{left, left-advance, expect-Ensures, peek-of-sees}
use cbr.Encoding.Parse.Ensures.{Ensures, holds, rejected, Ensures-if, Ensures-bind, Ensures-weaken}
use cbr.Encoding.Parse.Characters.{advance-le, escape-Ensures, plain_char-Ensures}

some_byte : (o : Option ℕ) → next_of o ≢ end → (b : ℕ) × (o ≡ some b)
unfolding next_of
some_byte none h = absurd (h refl)
some_byte (some b) h = (b, refl)

-- A text read from `c`.
abbrev ReadsText : Cursor → Text → Cursor → Type 0
ReadsText c text c' = All IsChar text × (left c' < left c)

string_body-step :
    (fuel : ℕ) (c : Cursor)
    → ((c' : Cursor) → left c' < fuel → Ensures (ReadsText c') (string_body fuel c'))
    → left c < suc fuel
    → (n : Next) → next_of (peek c) ≡ n
    → Ensures (ReadsText c) (string_body (suc fuel) c)
string_body-step fuel c ih h end e = unfold string_body in rw (e, string_body) rejected
string_body-step fuel c ih h control e = unfold string_body in rw (e, string_body) rejected
string_body-step fuel c ih h quote e =
    let (b, f) = some_byte (peek c) (rw e (λ q. cc)) in
    unfold string_body in rw (e, string_body) (holds (tt, omega (arith, left-advance c b f)))
string_body-step fuel c ih h backslash e =
    let (b, f) = some_byte (peek c) (rw e (λ q. cc)) in
    unfold string_body in
    rw (e, string_body)
      (Ensures-bind (escape-Ensures (advance 1 c)) λ ch c₁ h₁.
        Ensures-bind (ih c₁ (omega (arith, left-advance c b f)))
          λ text c₂ h₂. holds ((h₁.0, h₂.0), omega (arith, left-advance c b f)))
string_body-step fuel c ih h plain e =
    unfold string_body in
    rw (e, string_body)
      (Ensures-bind (plain_char-Ensures c) λ ch c₁ h₁.
        Ensures-bind (ih c₁ (omega arith)) λ text c₂ h₂. holds ((h₁.0, h₂.0), omega arith))

string_body-Ensures :
    (fuel : ℕ) (c : Cursor) → left c < fuel → Ensures (ReadsText c) (string_body fuel c)
string_body-Ensures zero c h = absurd (omega arith)
string_body-Ensures (suc fuel) c h =
    string_body-step fuel c (λ c' h'. string_body-Ensures fuel c' h') h (next_of (peek c)) refl

-- A string that is read holds characters of the domain only.
pub string_value-Ensures : (c : Cursor) → Ensures (ReadsText c) (string_value c)
unfolding string_value
string_value-Ensures c = Ensures-bind (expect-Ensures 0x22 c) λ _ c₁ h₁.
    Ensures-weaken (string_body-Ensures (left c₁ + 1) c₁ (omega arith))
      λ text c₂ h₂. holds (h₂.0, omega arith)

magnitude_of-le :
    (start : ℕ) (digits : Bytes) (n : ℕ)
    → start ≤ max_safe_integer
    → magnitude_of start digits ≡ some n
    → n ≤ max_safe_integer
unfolding magnitude_of
magnitude_of-le start [] n h e = ground arith
magnitude_of-le start (byte ∷ more) n h e =
    ground (arith, magnitude_of-le (start * 10 + (byte - b'0')) more n)

abbrev IsSafeInt : Value → Type 0
IsSafeInt v = (z : ℤ) × (v ≡ int z) × IsSafe z

signed-IsSafe : (negative : Bool) (n : ℕ) → n ≤ max_safe_integer → IsSafe (signed negative n)
signed-IsSafe false n h = h
signed-IsSafe true zero h = omega arith
signed-IsSafe true (suc n) h = omega arith

finish_number-Ensures :
    (start : ℕ) (negative : Bool) (digits : Bytes) (c : Cursor)
    → Ensures (λ v c'. IsSafeInt v × (c' ≡ c)) (finish_number start negative digits c)
unfolding finish_number
finish_number-Ensures start negative digits c =
    Ensures-if (sees_fraction (peek c)) (λ _. rejected)
      λ _.
        Ensures-if (negative && text_eq digits (b'0' ∷ [])) (λ _. rejected)
          λ _. elim (Option-cases (magnitude_of 0 digits)) [
            | inl e ↦ rw e rejected
            | inr (n, e) ↦ rw e (
                holds (
                  (
                    signed negative n,
                    refl,
                    signed-IsSafe negative n (magnitude_of-le 0 digits n (omega arith) e),
                  ),
                  refl,
                ))
          ]

span_digits-le : (rest : Bytes) → length (span_digits rest).1 ≤ length rest
unfolding span_digits
span_digits-le [] = omega arith
span_digits-le (b ∷ rest) = ground (arith, span_digits-le rest)

span_digits-lt :
    (rest : Bytes) → sees_digit (head_of rest) ≡ true → length (span_digits rest).1 < length rest
unfolding span_digits
span_digits-lt [] h = cc
span_digits-lt (b ∷ rest) h = ground (arith, span_digits-le rest)

-- A number that is read is an integer of the safe range.
pub number-Ensures : (c : Cursor) → Ensures (λ v c'. IsSafeInt v × (left c' < left c)) (number c)
unfolding number
number-Ensures c =
    let c₁ : Cursor = if sees b'-' c then advance 1 c else c in
    let shorter : left c₁ ≤ left c = ground (arith, advance-le 1 c) in
    Ensures-if (sees b'0' c₁)
      (λ zero_ahead.
        Ensures-if (sees_digit (peek (advance 1 c₁))) (λ _. rejected)
          λ _.
            Ensures-weaken (finish_number-Ensures c.at (sees b'-' c) (b'0' ∷ []) (advance 1 c₁))
              λ v c₂ h. holds (
                h.0,
                rw (h.1) (omega (arith, left-advance c₁ b'0' (peek-of-sees c₁ b'0' zero_ahead))),
              ))
      (λ _.
        Ensures-if (sees_digit (peek c₁))
          (λ digit_ahead.
            Ensures-weaken
              (finish_number-Ensures c.at (sees b'-' c) (span_digits c₁.rest).0 (behind_digits c₁))
              λ v c₂ h. holds (h.0, rw (h.1) (omega (arith, span_digits-lt c₁.rest digit_ahead))))
          (λ _. rejected))
