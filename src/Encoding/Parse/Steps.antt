-- ===== src/Encoding/Parse/Steps.antt =====
-- crates/cbr-encoding/src/parse.rs: the parser's position, and the steps that move it.
use cbr.Prelude.{
  ℕ, ◌+◌, Bool, false, ◌||◌, Option, none, some, [], ◌∷◌, Text, Bytes, length, drop, starts_with,
  ◌==◌, if◌then◌else◌,
}
use cbr.Encoding.Errors.{Error, ErrorKind, not_json, unexpected_end}

-- `bytes[at..]`, and `at`
pub record Cursor : Type 0 where
  pub rest : Bytes
  pub at : ℕ

-- `out_of_fuel` has no counterpart in the program.
pub data Outcome {ℓ} (A : Type ℓ) : Type ℓ where
  ok : A → Cursor → Outcome A
  fail : Error → Outcome A
  out_of_fuel : Outcome A

abbrev pub Parser {ℓ} : Type ℓ → Type ℓ
Parser A = Cursor → Outcome A

infixl 5 ◌>>=◌
abbrev pub ◌>>=◌ {ℓ κ} : {A : Type ℓ} {B : Type κ} → Outcome A → (A → Parser B) → Outcome B
ok a c >>= f = f a c
fail e >>= f = fail e
out_of_fuel >>= f = out_of_fuel

abbrev pub err : ErrorKind → Cursor → Error
err kind c = record { kind = kind; offset = c.at }

abbrev pub head_of : Bytes → Option ℕ
head_of [] = none
head_of (b ∷ rest) = some b

abbrev pub peek : Cursor → Option ℕ
peek c = head_of c.rest

abbrev pub is_some_of : ℕ → Option ℕ → Bool
is_some_of b none = false
is_some_of b (some found) = found == b

-- `self.peek() == Some(byte)`
abbrev pub sees : ℕ → Cursor → Bool
sees b c = is_some_of b (peek c)

abbrev pub advance : ℕ → Cursor → Cursor
advance n c = record { rest = drop n c.rest; at = c.at + n }

abbrev pub is_whitespace : ℕ → Bool
is_whitespace b = b == 0x20 || (b == 0x09 || (b == 0x0A || b == 0x0D))

unfoldable pub skip_from : Bytes → ℕ → Cursor
skip_from [] at = record { rest = []; at = at }
skip_from (b ∷ rest) at =
    let skipped = skip_from rest (at + 1) in
    if is_whitespace b then skipped else record { rest = b ∷ rest; at = at }

unfoldable pub skip_whitespace : Cursor → Cursor
unfolding skip_from
skip_whitespace c = skip_from c.rest c.at

unfoldable pub expect : ℕ → Parser (Unit {0})
expect byte c = elim (peek c) [
  | none ↦ fail (err unexpected_end c)
  | some found ↦ if found == byte then ok tt (advance 1 c) else fail (err not_json c)
]

unfoldable pub literal {ℓ} : {A : Type ℓ} → Text → A → Parser A
unfolding starts_with
literal word value c =
    if starts_with word c.rest then ok value (advance (length word) c) else fail (err not_json c)
