-- ===== src/Encoding/Parse/Sound.antt =====
-- What the reader returns is in the domain, and its fuel always suffices.
use cbr.Prelude.{
  ℕ, zero, suc, ◌+◌, ◌*◌, ◌≤◌, ◌<◌, ◌≡◌, ◌≢◌, refl, inl, inr, true, false, none, List, [], Text,
  Bytes, length, arith, Bool-cases, Option-cases, ltb, codes,
}
use cbr.Encoding.Value.{Value, null, bool}
use cbr.Encoding.Domain.{InDomain}
use cbr.Encoding.Utf8.{valid_up_to}
use cbr.Encoding.Parse.Steps.{Cursor, ok, out_of_fuel, peek, skip_whitespace}
use cbr.Encoding.Parse.Ensures.{
  Ensures, holds, rejected, Ensures-bind, Ensures-weaken, Ensures-ok, Ensures-out_of_fuel,
}
use cbr.Encoding.Parse.Progress.{left, left-advance, skip_whitespace-le, literal-Ensures}
use cbr.Encoding.Parse.Tokens.{string_value-Ensures, number-Ensures}
use cbr.Encoding.Parse.{
  Lead, end, brace, bracket, quote, letter_t, letter_f, letter_n, numeric, other, lead, value,
  object_value, members, array_value, elements, fuel_for, parse_text, parse_with_depth,
  starts_with_bom,
}
use cbr.Encoding.Parse.Containers.{
  ReadsValue, ReadsMembers, ReadsElements, elements-step, members-step, object_value-step,
  array_value-step,
}

byte_ahead : (c : Cursor) → lead (peek c) ≢ end → 0 < left c
byte_ahead c h = elim (Option-cases (peek c)) [
  | inl e ↦ absurd (h (unfold lead in rw e))
  | inr (b, e) ↦ omega (arith, left-advance c b e)
]

module _ (max_depth fuel depth : ℕ) (c : Cursor)
    (in_object : depth ≤ max_depth
      → 0 < left c
      → Ensures (ReadsValue max_depth depth c) (object_value fuel max_depth depth c))
    (in_array : depth ≤ max_depth
      → 0 < left c
      → Ensures (ReadsValue max_depth depth c) (array_value fuel max_depth depth c)) where
  value-at :
      depth ≤ max_depth
      → (l : Lead) → lead (peek c) ≡ l
      → ltb max_depth depth ≡ false
      → Ensures (ReadsValue max_depth depth c) (value (suc fuel) max_depth depth c)
  unfolding value
  value-at h end e d = rw (d, e, value) rejected
  value-at h brace e d = rw (d, e, value) (in_object h (byte_ahead c (rw e (λ q. cc))))
  value-at h bracket e d = rw (d, e, value) (in_array h (byte_ahead c (rw e (λ q. cc))))
  value-at h quote e d =
      rw (d, e, value) (Ensures-bind (string_value-Ensures c) λ text c' h'. holds ((h, h'.0), h'.1))
  value-at h letter_t e d =
      rw (d, e, value)
        (Ensures-weaken (literal-Ensures b't' (codes "rue") (bool true) c)
          λ v c' h'. holds (rw (h'.0) h, h'.1))
  value-at h letter_f e d =
      rw (d, e, value)
        (Ensures-weaken (literal-Ensures b'f' (codes "alse") (bool false) c)
          λ v c' h'. holds (rw (h'.0) h, h'.1))
  value-at h letter_n e d =
      rw (d, e, value)
        (Ensures-weaken (literal-Ensures b'n' (codes "ull") null c)
          λ v c' h'. holds (rw (h'.0) h, h'.1))
  value-at h numeric e d =
      rw (d, e, value)
        (Ensures-weaken (number-Ensures c) λ v c' h'. holds (rw (h'.0.1) (h, h'.0.2), h'.1))
  value-at h other e d = rw (d, e, value) rejected

  value-step : Ensures (ReadsValue max_depth depth c) (value (suc fuel) max_depth depth c)
  value-step = elim (Bool-cases (ltb max_depth depth)) [
    | inl e ↦ unfold value in rw (e, value) rejected
    | inr e ↦ value-at (ground arith) (lead (peek c)) refl e
  ]

-- One induction on the fuel, three units for each byte.
mutual
  value-Ensures :
      (max_depth fuel depth : ℕ) (c : Cursor)
      → 3 * left c < fuel
      → Ensures (ReadsValue max_depth depth c) (value fuel max_depth depth c)
  value-Ensures max_depth zero depth c h = absurd (omega arith)
  value-Ensures max_depth (suc fuel) depth c h =
      value-step max_depth fuel depth c (object_value-Ensures max_depth fuel depth c h)
        (array_value-Ensures max_depth fuel depth c h)

  object_value-Ensures :
      (max_depth fuel depth : ℕ) (c : Cursor)
      → 3 * left c < suc fuel
      → depth ≤ max_depth
      → 0 < left c
      → Ensures (ReadsValue max_depth depth c) (object_value fuel max_depth depth c)
  object_value-Ensures max_depth zero depth c h s more = absurd (omega arith)
  object_value-Ensures max_depth (suc fuel) depth c h s more =
      object_value-step max_depth fuel depth c h s
        λ c' h'. members-Ensures max_depth fuel depth [] c' h'

  array_value-Ensures :
      (max_depth fuel depth : ℕ) (c : Cursor)
      → 3 * left c < suc fuel
      → depth ≤ max_depth
      → 0 < left c
      → Ensures (ReadsValue max_depth depth c) (array_value fuel max_depth depth c)
  array_value-Ensures max_depth zero depth c h s more = absurd (omega arith)
  array_value-Ensures max_depth (suc fuel) depth c h s more =
      array_value-step max_depth fuel depth c h s
        λ c' h'. elements-Ensures max_depth fuel depth c' h'

  members-Ensures :
      (max_depth fuel depth : ℕ) (seen : List Text) (c : Cursor)
      → 3 * left c + 1 < fuel
      → Ensures (ReadsMembers max_depth depth seen c) (members fuel max_depth depth seen c)
  members-Ensures max_depth zero depth seen c h = absurd (omega arith)
  members-Ensures max_depth (suc fuel) depth seen c h =
      members-step max_depth fuel (λ d c' h'. value-Ensures max_depth fuel d c' h')
        (λ d seen' c' h'. members-Ensures max_depth fuel d seen' c' h') depth seen c h

  elements-Ensures :
      (max_depth fuel depth : ℕ) (c : Cursor)
      → 3 * left c + 1 < fuel
      → Ensures (ReadsElements max_depth depth c) (elements fuel max_depth depth c)
  elements-Ensures max_depth zero depth c h = absurd (omega arith)
  elements-Ensures max_depth (suc fuel) depth c h =
      elements-step max_depth fuel (λ d c' h'. value-Ensures max_depth fuel d c' h')
        (λ d c' h'. elements-Ensures max_depth fuel d c' h') depth c h

abbrev pub start_of : Bytes → Cursor
start_of input = record { rest = input; at = 0 }

parse_text-Ensures :
    (max_depth : ℕ) (input : Bytes)
    → Ensures (λ v c'. InDomain max_depth 0 v × (left c' ≡ 0)) (parse_text max_depth input)
unfolding parse_text
parse_text-Ensures max_depth input =
    Ensures-bind
      (value-Ensures max_depth (fuel_for input) 0 (skip_whitespace (start_of input))
        (omega (arith, skip_whitespace-le (start_of input))))
      λ v c h. elim (Option-cases (peek (skip_whitespace c))) [
        | inl e ↦ rw e (holds (h.0, nothing_left (skip_whitespace c) e))
        | inr (b, e) ↦ rw e rejected
      ]
  where
    nothing_left : (c : Cursor) → peek c ≡ none → left c ≡ 0
    nothing_left c e = ground arith

parse-Ensures :
    (input : Bytes) (max_depth : ℕ)
    → Ensures (λ v c'. InDomain max_depth 0 v × (left c' ≡ 0)) (parse_with_depth input max_depth)
unfolding parse_with_depth
parse-Ensures input max_depth = elim (Option-cases (valid_up_to (length input) input 0)) [
  | inr (offset, e) ↦ rw (e, parse_with_depth) rejected
  | inl e ↦ elim (Bool-cases (starts_with_bom input)) [
    | inl f ↦ rw (e, parse_with_depth) (rw f rejected)
    | inr f ↦ rw (e, parse_with_depth) (rw f (parse_text-Ensures max_depth input))
  ]
]

-- Every value that the reader returns is in the domain, nested no deeper than the limit, and all
-- of the input was read.
pub parse-InDomain :
    (input : Bytes) (max_depth : ℕ) (v : Value) (c : Cursor)
    → parse_with_depth input max_depth ≡ ok v c
    → InDomain max_depth 0 v × (length c.rest ≡ 0)
parse-InDomain input max_depth v c h = Ensures-ok (parse-Ensures input max_depth) h

-- The fuel of the model suffices for every input, so the reader always comes to an answer.
pub parse-ne-out_of_fuel :
    (input : Bytes) (max_depth : ℕ) → parse_with_depth input max_depth ≢ out_of_fuel
parse-ne-out_of_fuel input max_depth = Ensures-out_of_fuel (parse-Ensures input max_depth)
