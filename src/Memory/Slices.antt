-- ===== src/Memory/Slices.antt =====
-- Slices of a text, and the line feeds in them.
use cbr.Prelude.{
  ℕ, ◌+◌, ◌≤◌, ◌<◌, ◌≡◌, ◌⊎◌, inl, inr, Bool-cases, if◌then◌else◌, false, refl, ap, arith, Bool,
  true, ◌||◌, ◌&&◌, not, [], ◌∷◌, ◌++◌, Bytes, length, take, drop, ltb, ◌==◌,
}
use cbr.Encoding.Equality.{and_parts}
use cbr.Memory.Chunks.{newlines}

-- Each line feed ends fewer bytes than the bound.
abbrev pub all_below : ℕ → ℕ → Bytes → Bool
all_below bound at [] = true
all_below bound at (byte ∷ more) =
    (not (byte == 10) || ltb (at + 1) bound) && all_below bound (at + 1) more

abbrev pub but_last : Bytes → Bytes
but_last [] = []
but_last (byte ∷ []) = []
but_last (byte ∷ next ∷ more) = byte ∷ but_last (next ∷ more)

pub drop-append : (xs ys : Bytes) → drop (length xs) (xs ++ ys) ≡ ys
drop-append [] ys = refl
drop-append (x ∷ xs) ys = drop-append xs ys

pub take-append : (xs ys : Bytes) → take (length xs) (xs ++ ys) ≡ xs
take-append [] ys = refl
take-append (x ∷ xs) ys = ap (λ z. x ∷ z) (take-append xs ys)

pub newlines-append : (xs ys : Bytes) → newlines (xs ++ ys) ≡ newlines xs + newlines ys
newlines-append [] ys = omega arith
newlines-append (x ∷ xs) ys = ground (arith, newlines-append xs ys)

pub all_below-snoc :
    (bound at : ℕ) (bytes : Bytes) (byte : ℕ)
    → all_below bound at bytes ≡ true
    → (not (byte == 10) || ltb (at + length bytes + 1) bound) ≡ true
    → all_below bound at (bytes ++ byte ∷ []) ≡ true
all_below-snoc bound at [] byte h k = ground arith
all_below-snoc bound at (b ∷ bytes) byte h k =
    ground (arith, h, k, all_below-snoc bound (at + 1) bytes byte)

pub all_below-but_last :
    (bound at : ℕ) (bytes : Bytes)
    → all_below bound at bytes ≡ true
    → all_below bound at (but_last bytes) ≡ true
all_below-but_last bound at [] h = refl
all_below-but_last bound at (b ∷ []) h = refl
all_below-but_last bound at (b ∷ c ∷ bytes) h =
    ground (arith, h, all_below-but_last bound (at + 1) (c ∷ bytes))

pub but_last-snoc : (bytes : Bytes) (byte : ℕ) → but_last (bytes ++ byte ∷ []) ≡ bytes
but_last-snoc [] byte = refl
but_last-snoc (b ∷ []) byte = refl
but_last-snoc (b ∷ c ∷ bytes) byte = ap (λ z. b ∷ z) (but_last-snoc (c ∷ bytes) byte)

pub append-snoc : (xs ys : Bytes) (y : ℕ) → (xs ++ y ∷ []) ++ ys ≡ xs ++ y ∷ ys
append-snoc [] ys y = refl
append-snoc (x ∷ xs) ys y = ap (λ z. x ∷ z) (append-snoc xs ys y)

-- Whether the last byte is a line feed.
abbrev pub ends_line : Bytes → Bool
ends_line [] = false
ends_line (byte ∷ []) = byte == 10
ends_line (byte ∷ next ∷ more) = ends_line (next ∷ more)

pub ends_line-snoc : (bytes : Bytes) (byte : ℕ) → ends_line (bytes ++ byte ∷ []) ≡ (byte == 10)
ends_line-snoc [] byte = refl
ends_line-snoc (b ∷ []) byte = refl
ends_line-snoc (b ∷ c ∷ bytes) byte = ends_line-snoc (c ∷ bytes) byte

pub ends_line-newlines : (bytes : Bytes) → ends_line bytes ≡ true → 1 ≤ newlines bytes
ends_line-newlines [] e = cc
ends_line-newlines (b ∷ []) e = ground (arith, e)
ends_line-newlines (b ∷ c ∷ bytes) e = ground (arith, e, ends_line-newlines (c ∷ bytes))

-- A text that ends in a line feed which ends fewer bytes than the bound is shorter than it.
pub ends_line-below :
    (bound at : ℕ) (bytes : Bytes)
    → all_below bound at bytes ≡ true
    → ends_line bytes ≡ true
    → at + length bytes < bound
ends_line-below bound at [] h e = cc
ends_line-below bound at (b ∷ []) h e = ground (arith, e, h)
ends_line-below bound at (b ∷ c ∷ bytes) h e =
    let rest =
      and_parts (not (b == 10) || ltb (at + 1) bound) (all_below bound (at + 1) (c ∷ bytes)) h in
    omega (arith, ends_line-below bound (at + 1) (c ∷ bytes) rest.1 e)

-- A text up to the end of its last line feed.
abbrev pub longer : ℕ → Bytes → Bytes
longer byte [] = if byte == 10 then byte ∷ [] else []
longer byte (next ∷ more) = byte ∷ next ∷ more

abbrev pub through_newline : Bytes → Bytes
through_newline [] = []
through_newline (byte ∷ more) = longer byte (through_newline more)

-- A text without its last line.
abbrev pub but_last_line : Bytes → Bytes
but_last_line bytes = through_newline (but_last bytes)

longer-below :
    (bound at byte : ℕ) (rest : Bytes)
    → (not (byte == 10) || ltb (at + 1) bound) ≡ true
    → (length rest ≡ 0) ⊎ (at + 1 + length rest < bound)
    → (length (longer byte rest) ≡ 0) ⊎ (at + length (longer byte rest) < bound)
longer-below bound at byte [] h k = elim (Bool-cases (byte == 10)) [
  | inl e ↦ rw e (inr (ground (arith, e, h)))
  | inr e ↦ rw e (inl refl)
]
longer-below bound at byte (next ∷ more) h (inl e) = cc
longer-below bound at byte (next ∷ more) h (inr l) = inr (omega (arith, l))

through_newline-below :
    (bound at : ℕ) (bytes : Bytes)
    → all_below bound at bytes ≡ true
    → (length (through_newline bytes) ≡ 0) ⊎ (at + length (through_newline bytes) < bound)
through_newline-below bound at [] h = inl refl
through_newline-below bound at (byte ∷ more) h =
    let parts = and_parts _ _ h in
    longer-below bound at byte (through_newline more) parts.0
      (through_newline-below bound (at + 1) more parts.1)

pub but_last_line-below :
    (bound : ℕ) (bytes : Bytes)
    → 1 ≤ bound
    → all_below bound 0 (but_last bytes) ≡ true
    → length (but_last_line bytes) < bound
but_last_line-below bound bytes h k = elim (through_newline-below bound 0 (but_last bytes) k) [
  | inl e ↦ omega (arith, e, h)
  | inr l ↦ omega (arith, l)
]
