-- ===== src/Encoding/Base64/Alphabet.antt =====
-- crates/cbr-encoding/src/base64.rs: the 64 symbols and the search for one.
use cbr.Prelude.{
  ap, inl, inr, false, Bool-cases, ℕ, zero, suc, ◌<◌, ◌≡◌, refl, Bool, true, Option, none, some, [],
  ◌∷◌, Text, codes, get_or, length, arith, ◌==◌, ==_iff, if◌then◌else◌,
}
use mathlib.Core.Option
use cbr.Prelude.Tables.{holds_below, holds_below_sound}

abbrev alphabet : Text
alphabet = codes "ABCDEFGHIJKLMNOPQRSTUVWXYZabcdefghijklmnopqrstuvwxyz0123456789+/"

-- `ALPHABET[i]`; every index in the program is below 64
unfoldable pub symbol : ℕ → ℕ
symbol i = get_or alphabet i 0

-- `iter().position(|a| *a == c)`
unfoldable pub position_in : Text → ℕ → Option ℕ
position_in [] c = none
position_in (a ∷ more) c = if a == c then some 0 else Option.map suc (position_in more c)

unfoldable pub position : ℕ → Option ℕ
unfolding position_in
position c = position_in alphabet c

position_in_sound :
    (symbols : Text) (c i : ℕ)
    → position_in symbols c ≡ some i
    → (get_or symbols i 0 ≡ c) × (i < length symbols)
unfolding position_in
position_in_sound [] c i h = cc
position_in_sound (a ∷ more) c zero h = ground arith
position_in_sound (a ∷ more) c (suc i) h = ground (arith, position_in_sound more c i)

abbrev finds : Option ℕ → ℕ → Bool
finds none i = Bool.false
finds (some j) i = j == i

finds→eq : (o : Option ℕ) (i : ℕ) → finds o i ≡ true → o ≡ some i
finds→eq none i h = cc
finds→eq (some j) i h = ground arith

symbol_table : holds_below (λ i. finds (position (symbol i)) i) 64 ≡ true
unfolding holds_below position symbol
symbol_table = refl

-- The search finds a symbol where it stands.
pub position-symbol : (i : ℕ) → i < 64 → position (symbol i) ≡ some i
position-symbol i h =
    finds→eq _ i (holds_below_sound (λ x. finds (position (symbol x)) x) 64 i h symbol_table)

-- No symbol is the padding character.
pub position-pad : position b'=' ≡ none
unfolding position
position-pad = refl

-- A symbol that is found is below 64 and is the one at its place.
pub position_sound : (c i : ℕ) → position c ≡ some i → (symbol i ≡ c) × (i < 64)
unfolding position symbol
position_sound c i h = position_in_sound alphabet c i h

pub symbol-ne-pad : (i : ℕ) → i < 64 → (symbol i == b'=') ≡ false
symbol-ne-pad i h = elim (Bool-cases (symbol i == b'=')) [
  | inl e ↦ cc (position-symbol i h, position-pad, ap position ((==_iff _ _).0 e))
  | inr e ↦ e
]
