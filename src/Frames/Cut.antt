-- ===== src/Frames/Cut.antt =====
-- The first line of a stream, and what an addition to the stream changes.
use cbr.Prelude.{
  ℕ, zero, suc, ◌+◌, ◌≤◌, ◌<◌, ◌≡◌, refl, sym, ◌∙◌, ap, arith, Option, some, none, Option-cases, [],
  ◌∷◌, ◌++◌, Bytes, length, length-append, take, drop, ltb, Bool-cases, inl, inr, if◌then◌else◌,
  ◌==◌,
}
use cbr.Prelude.Partial.{eq_of_some}
use cbr.Frames.{Frame, too_large, eof, newline_in, finish}

abbrev lead : ℕ → Option (Bytes × Bytes) → Option (Bytes × Bytes)
lead byte none = none
lead byte (some (line, rest)) = some (byte ∷ line, rest)

-- A stream as its first line and what follows its line feed.
abbrev pub cut : Bytes → Option (Bytes × Bytes)
cut [] = none
cut (byte ∷ bytes) = if byte == 10 then some ([], bytes) else lead byte (cut bytes)

abbrev pub follow : Bytes → Option (Bytes × Bytes) → Option (Bytes × Bytes)
follow xs none = none
follow xs (some (line, rest)) = some (xs ++ line, rest)

-- The first frame of a stream that is there at once.
abbrev pub first_frame : ℕ → Bytes → Frame
first_frame limit stream = elim (cut stream) [
  | some (line, rest) ↦ finish limit line
  | none ↦ if ltb limit (length stream) then too_large else eof
]

pub cut-newline_none : (s : Bytes) → newline_in s ≡ none → cut s ≡ none
cut-newline_none [] e = refl
cut-newline_none (b ∷ s) e = elim (Bool-cases (b == 10)) [
  | inl t ↦ ground arith
  | inr f ↦ elim (Option-cases (newline_in s)) [
    | inl n ↦ rw f (ap (lead b) (cut-newline_none s n))
    | inr (i, n) ↦ ground arith
  ]
]

one_add : (i : ℕ) → 1 + i ≡ suc i
one_add i = omega arith

zero_add : (i : ℕ) → 0 + i ≡ i
zero_add i = omega arith

take-suc : (i : ℕ) (b : ℕ) (s : Bytes) → take (1 + i) (b ∷ s) ≡ b ∷ take i s
take-suc i b s = ap (λ k. take k (b ∷ s)) (one_add i)

drop-suc : (i : ℕ) (b : ℕ) (s : Bytes) → drop (1 + i) (b ∷ s) ≡ drop i s
drop-suc i b s = ap (λ k. drop k (b ∷ s)) (one_add i)

pub cut-newline_some :
    (s : Bytes) (i : ℕ) → newline_in s ≡ some i → cut s ≡ some (take i s, drop (i + 1) s)
cut-newline_some [] i e = ground arith
cut-newline_some (b ∷ s) i e = elim (Bool-cases (b == 10)) [
  | inl t ↦ let z : 0 ≡ i = eq_of_some (rw t at e) in rw (t, sym z) refl
  | inr f ↦ elim (Option-cases (newline_in s)) [
    | inl n ↦ ground arith
    | inr (j, n) ↦
        let z : 1 + j ≡ i = eq_of_some (rw (f, n) at e) in
        rw (f, sym z, take-suc j b s, cut-newline_some s j n)
          (ap (λ d. some (b ∷ take j s, d)) (sym (drop-suc (j + 1) b s))
            ∙ ap (λ k. some (b ∷ take j s, drop k (b ∷ s))) (omega arith))
  ]
]

pub cut-append_some :
    (s t line rest : Bytes) → cut s ≡ some (line, rest) → cut (s ++ t) ≡ some (line, rest ++ t)
cut-append_some [] t line rest e = ground arith
cut-append_some (b ∷ s) t line rest e = elim (Bool-cases (b == 10)) [
  | inl g ↦
      let z = eq_of_some (rw g at e) in rw (g, sym (ap (λ p. p.0) z), sym (ap (λ p. p.1) z)) refl
  | inr f ↦ elim (Option-cases (cut s)) [
    | inl n ↦ ground arith
    | inr ((l, q), n) ↦
        let z = eq_of_some (rw (f, n) at e) in
        rw (f, cut-append_some s t l q n, sym (ap (λ p. p.0) z), sym (ap (λ p. p.1) z)) refl
  ]
]

pub cut-append_none : (s t : Bytes) → cut s ≡ none → cut (s ++ t) ≡ follow s (cut t)
cut-append_none [] t e = elim (Option-cases (cut t)) [
  | inl n ↦ rw n refl
  | inr ((l, q), n) ↦ rw n refl
]
cut-append_none (b ∷ s) t e = elim (Bool-cases (b == 10)) [
  | inl g ↦ ground arith
  | inr f ↦ elim (Option-cases (cut s)) [
    | inl n ↦
        rw (f, cut-append_none s t n)
          (elim (Option-cases (cut t)) [ inl m ↦ rw m refl | inr ((l, q), m) ↦ rw m refl ])
    | inr ((l, q), n) ↦ ground arith
  ]
]

pub drop-length : (s : Bytes) → drop (length s) s ≡ []
drop-length [] = refl
drop-length (b ∷ s) = drop-length s

pub newline_in-lt : (s : Bytes) (i : ℕ) → newline_in s ≡ some i → i < length s
newline_in-lt [] i e = ground arith
newline_in-lt (b ∷ s) i e = elim (Bool-cases (b == 10)) [
  | inl t ↦ let z : 0 ≡ i = eq_of_some (rw t at e) in omega (arith, z)
  | inr f ↦ elim (Option-cases (newline_in s)) [
    | inl n ↦ ground arith
    | inr (j, n) ↦
        let z : 1 + j ≡ i = eq_of_some (rw (f, n) at e) in omega (arith, z, newline_in-lt s j n)
  ]
]

drop-nil : (n : ℕ) → drop {A = ℕ} n [] ≡ []
drop-nil zero = refl
drop-nil (suc n) = refl

pub drop-drop : (i j : ℕ) (xs : Bytes) → drop (i + j) xs ≡ drop j (drop i xs)
drop-drop zero j xs = ap (λ k. drop k xs) (zero_add j)
drop-drop (suc i) j [] = drop-nil (suc i + j) ∙ sym (drop-nil j)
drop-drop (suc i) j (x ∷ xs) =
    ap (λ k. drop k (x ∷ xs)) (omega arith) ∙ drop-suc (i + j) x xs ∙ drop-drop i j xs

pub first_frame-some :
    (limit : ℕ) (s line rest : Bytes)
    → cut s ≡ some (line, rest)
    → first_frame limit s ≡ finish limit line
first_frame-some limit s line rest e = rw (e, first_frame) refl

pub first_frame-none :
    (limit : ℕ) (s : Bytes)
    → cut s ≡ none
    → first_frame limit s ≡ (if ltb limit (length s) then too_large else eof)
first_frame-none limit s e = rw (e, first_frame) refl

finish-long : (limit : ℕ) (line : Bytes) → limit < length line → finish limit line ≡ too_large
unfolding finish
finish-long limit line g = ground arith

-- A line that is already too long when the rest of the stream is read is too large all the same.
pub first_frame-long :
    (limit : ℕ) (p s : Bytes)
    → cut p ≡ none
    → limit < length p
    → first_frame limit (p ++ s) ≡ too_large
first_frame-long limit p s n g = elim (Option-cases (cut s)) [
  | inl m ↦
      first_frame-none limit (p ++ s) (cut-append_none p s n ∙ ap (follow p) m)
      ∙ (let e = length-append p s in ground arith)
  | inr ((l, q), m) ↦
      first_frame-some limit (p ++ s) (p ++ l) q (cut-append_none p s n ∙ ap (follow p) m)
      ∙ (finish-long limit (p ++ l) (omega (arith, length-append p l)))
]

pub no_rest : (s : Bytes) → cut s ≡ none → (line rest : Bytes) → cut s ≡ some (line, rest) → ⊥
no_rest s n line rest e = cc

pub too_short :
    (limit : ℕ) (p s : Bytes)
    → cut p ≡ none
    → limit < length p
    → (line rest : Bytes) → cut (p ++ s) ≡ some (line, rest)
    → length line ≤ limit
    → ⊥
too_short limit p s n g line rest e le = elim (Option-cases (cut s)) [
  | inl m ↦ no_rest (p ++ s) (cut-append_none p s n ∙ ap (follow p) m) line rest e
  | inr ((l, q), m) ↦
      let z : p ++ l ≡ line =
        ap (λ x. x.0) (eq_of_some (sym (cut-append_none p s n ∙ ap (follow p) m) ∙ e)) in
      let k : length (p ++ l) ≡ length line = ap length z in omega (arith, length-append p l, k)
]
