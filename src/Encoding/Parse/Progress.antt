-- ===== src/Encoding/Parse/Progress.antt =====
-- Every step of the reader keeps to the input that is left, and the steps that read a token take
-- at least a byte of it.
use cbr.Prelude.{
  ℕ, suc, ◌+◌, ◌≤◌, ◌<◌, ◌≡◌, refl, inl, inr, true, some, [], ◌∷◌, Text, Bytes, length, drop,
  starts_with, arith, ◌==◌, Option-cases,
}
use cbr.Encoding.Parse.Steps.{
  Cursor, peek, sees, advance, skip_from, skip_whitespace, expect, literal, head_of,
}
use cbr.Encoding.Parse.Ensures.{Ensures, holds, rejected, Ensures-if}

abbrev pub left : Cursor → ℕ
left c = length c.rest

skip_from-le : (rest : Bytes) (at : ℕ) → left (skip_from rest at) ≤ length rest
unfolding skip_from
skip_from-le [] at = omega arith
skip_from-le (b ∷ rest) at = ground (arith, skip_from-le rest (at + 1))

pub skip_whitespace-le : (c : Cursor) → left (skip_whitespace c) ≤ left c
unfolding skip_whitespace
skip_whitespace-le c = skip_from-le c.rest c.at

-- A byte ahead is a byte left.
pub left-drop : (b : ℕ) (rest : Bytes) → length (drop 1 (b ∷ rest)) ≡ length rest
left-drop b rest = refl

pub left-advance : (c : Cursor) (b : ℕ) → peek c ≡ some b → suc (left (advance 1 c)) ≡ left c
left-advance c b h = go c.rest h
  where
    go : (rest : Bytes) → head_of rest ≡ some b → suc (length (drop 1 rest)) ≡ length rest
    go [] e = cc
    go (x ∷ rest) e = refl

pub peek-of-sees : (c : Cursor) (b : ℕ) → sees b c ≡ true → peek c ≡ some b
peek-of-sees c b h = ground arith

pub expect-Ensures : (b : ℕ) (c : Cursor) → Ensures (λ _ c'. suc (left c') ≡ left c) (expect b c)
unfolding expect
expect-Ensures b c = elim (Option-cases (peek c)) [
  | inl e ↦ rw (e, expect) rejected
  | inr (found, e) ↦
      rw (e, expect) (Ensures-if (found == b) (λ _. holds (left-advance c found e)) (λ _. rejected))
]

starts_with-le :
    (word rest : Text)
    → starts_with word rest ≡ true
    → length (drop (length word) rest) + length word ≡ length rest
unfolding starts_with
starts_with-le [] rest h = omega arith
starts_with-le (p ∷ word) [] h = cc
starts_with-le (p ∷ word) (t ∷ rest) h = ground (arith, starts_with-le word rest)

pub literal-Ensures {ℓ} :
    {A : Type ℓ} (b : ℕ) (word : Text) (value : A) (c : Cursor)
    → Ensures (λ a c'. (a ≡ value) × (left c' < left c)) (literal (b ∷ word) value c)
unfolding literal
literal-Ensures b word value c =
    Ensures-if (starts_with (b ∷ word) c.rest)
      (λ h. holds (refl, omega (arith, starts_with-le (b ∷ word) c.rest h))) (λ _. rejected)
