-- ===== src/Encoding/Parse/Containers.antt =====
-- What one step of the reader of objects and arrays ensures.
use cbr.Prelude.{
  ℕ, suc, ◌+◌, ◌*◌, ◌≤◌, ◌<◌, ◌≡◌, ◌≢◌, refl, inl, inr, false, Option, none, some, List, [], ◌∷◌,
  Text, arith, Bool-cases, All, any, text_eq,
}
use cbr.Encoding.Errors.{Error}
use cbr.Encoding.Value.{Value, Items, Fields, item, field, no_items, no_fields}
use cbr.Encoding.Domain.{InDomain, ItemsInDomain, FieldsInDomain, AreFresh, IsChar}
use cbr.Encoding.Parse.Steps.{Cursor, ok, fail, ◌>>=◌, err, peek, sees, advance, skip_whitespace}
use cbr.Encoding.Parse.Ensures.{Ensures, holds, rejected, Ensures-bind}
use cbr.Encoding.Parse.Progress.{
  left, left-advance, skip_whitespace-le, expect-Ensures, peek-of-sees,
}
use cbr.Encoding.Parse.Tokens.{string_value-Ensures}
use cbr.Encoding.Parse.{
  After, comma, close, stray, stop, after, value, object_value, members, array_value, elements,
}

-- What the three loops read from `c`.
abbrev pub ReadsValue : ℕ → ℕ → Cursor → Value → Cursor → Type 0
ReadsValue max_depth depth c v c' = InDomain max_depth depth v × (left c' < left c)

abbrev pub ReadsMembers : ℕ → ℕ → List Text → Cursor → Fields → Cursor → Type 0
ReadsMembers max_depth depth seen c fields c' =
    FieldsInDomain max_depth (depth + 1) fields × AreFresh seen fields × (left c' < left c)

abbrev pub ReadsElements : ℕ → ℕ → Cursor → Items → Cursor → Type 0
ReadsElements max_depth depth c items c' =
    ItemsInDomain max_depth (depth + 1) items × (left c' < left c)

some_byte : (closing : ℕ) (o : Option ℕ) → after closing o ≢ stop → (b : ℕ) × (o ≡ some b)
unfolding after
some_byte closing none h = absurd (h refl)
some_byte closing (some b) h = (b, refl)

-- The loops with their recursive calls sound.
module _ (max_depth fuel : ℕ)
    (ih : (depth : ℕ) (c : Cursor)
      → 3 * left c < fuel
      → Ensures (ReadsValue max_depth depth c) (value fuel max_depth depth c))
    (ihs : (depth : ℕ) (c : Cursor)
      → 3 * left c + 1 < fuel
      → Ensures (ReadsElements max_depth depth c) (elements fuel max_depth depth c)) where
  elements-after :
      (depth : ℕ) (c : Cursor) (element : Value)
      → InDomain max_depth (depth + 1) element
      → (c₂ : Cursor) → suc (left c₂) ≤ left c
      → 3 * left c + 1 < suc fuel
      → (n : After) → after b']' (peek c₂) ≡ n
      → Ensures (ReadsElements max_depth depth c) (elim n [
        | comma ↦
            elements fuel max_depth depth (advance 1 c₂) >>= λ more c₃. ok (item element more) c₃
        | close ↦ ok (item element no_items) (advance 1 c₂)
        | stray ↦ fail (err cbr.Encoding.Errors.not_json c₂)
        | stop ↦ fail (err cbr.Encoding.Errors.unexpected_end c₂)
      ])
  elements-after depth c element good c₂ shorter h comma e =
      let (b, f) = some_byte b']' (peek c₂) (λ q. cc) in
      let one = left-advance c₂ b f in
      Ensures-bind (ihs depth (advance 1 c₂) (omega arith))
        λ more c₃ h₃. holds ((good, h₃.0), omega arith)
  elements-after depth c element good c₂ shorter h close e =
      let (b, f) = some_byte b']' (peek c₂) (λ q. cc) in
      holds ((good, tt), omega (arith, left-advance c₂ b f))
  elements-after depth c element good c₂ shorter h stray e = rejected
  elements-after depth c element good c₂ shorter h stop e = rejected

  pub elements-step :
      (depth : ℕ) (c : Cursor)
      → 3 * left c + 1 < suc fuel
      → Ensures (ReadsElements max_depth depth c) (elements (suc fuel) max_depth depth c)
  unfolding value
  elements-step depth c h =
      Ensures-bind (ih (depth + 1) (skip_whitespace c) (omega (arith, skip_whitespace-le c)))
        λ element c₁ h₁.
          elements-after depth c element h₁.0 (skip_whitespace c₁)
            (omega (arith, skip_whitespace-le c, skip_whitespace-le c₁)) h
            (after b']' (peek (skip_whitespace c₁))) refl

module _ (max_depth fuel : ℕ)
    (ih : (depth : ℕ) (c : Cursor)
      → 3 * left c < fuel
      → Ensures (ReadsValue max_depth depth c) (value fuel max_depth depth c))
    (ihs : (depth : ℕ) (seen : List Text) (c : Cursor)
      → 3 * left c + 1 < fuel
      → Ensures (ReadsMembers max_depth depth seen c) (members fuel max_depth depth seen c)) where
  members-after :
      (depth : ℕ) (seen : List Text) (c : Cursor) (name : Text) (member : Value)
      → All IsChar name
      → any (text_eq name) seen ≡ false
      → InDomain max_depth (depth + 1) member
      → (c₅ : Cursor) → suc (left c₅) ≤ left c
      → 3 * left c + 1 < suc fuel
      → (n : After) → after b'}' (peek c₅) ≡ n
      → Ensures (ReadsMembers max_depth depth seen c) (elim n [
        | comma ↦ members fuel max_depth depth (name ∷ seen) (advance 1 c₅) >>= λ more c₆.
            ok (field name member more) c₆
        | close ↦ ok (field name member no_fields) (advance 1 c₅)
        | stray ↦ fail (err cbr.Encoding.Errors.not_json c₅)
        | stop ↦ fail (err cbr.Encoding.Errors.unexpected_end c₅)
      ])
  members-after depth seen c name member chars fresh good c₅ shorter h comma e =
      let (b, f) = some_byte b'}' (peek c₅) (λ q. cc) in
      let one = left-advance c₅ b f in
      Ensures-bind (ihs depth (name ∷ seen) (advance 1 c₅) (omega arith))
        λ more c₆ h₆. holds ((chars, good, h₆.0), (fresh, h₆.1), omega arith)
  members-after depth seen c name member chars fresh good c₅ shorter h close e =
      let (b, f) = some_byte b'}' (peek c₅) (λ q. cc) in
      holds ((chars, good, tt), (fresh, tt), omega (arith, left-advance c₅ b f))
  members-after depth seen c name member chars fresh good c₅ shorter h stray e = rejected
  members-after depth seen c name member chars fresh good c₅ shorter h stop e = rejected

  pub members-step :
      (depth : ℕ) (seen : List Text) (c : Cursor)
      → 3 * left c + 1 < suc fuel
      → Ensures (ReadsMembers max_depth depth seen c) (members (suc fuel) max_depth depth seen c)
  unfolding value
  members-step depth seen c h = elim (Bool-cases (sees 0x22 (skip_whitespace c))) [
    | inr e ↦ rw (e, members) rejected
    | inl e ↦
        rw (e, members)
          (Ensures-bind (string_value-Ensures (skip_whitespace c)) λ name c₂ h₂.
            elim (Bool-cases (any (text_eq name) seen)) [
              | inl dup ↦ rw dup rejected
              | inr fresh ↦ rw fresh (
                  Ensures-bind (expect-Ensures b':' (skip_whitespace c₂)) λ _ c₃ h₃.
                    Ensures-bind
                      (ih (depth + 1) (skip_whitespace c₃) (
                        omega (
                          arith,
                          skip_whitespace-le c,
                          skip_whitespace-le c₂,
                          skip_whitespace-le c₃,
                        )))
                      λ member c₄ h₄.
                        members-after depth seen c name member h₂.0 fresh h₄.0 (skip_whitespace c₄)
                          (omega (
                            arith,
                            skip_whitespace-le c,
                            skip_whitespace-le c₂,
                            skip_whitespace-le c₃,
                            skip_whitespace-le c₄,
                          ))
                          h (after b'}' (peek (skip_whitespace c₄))) refl)
            ])
  ]

-- An object or an array whose loop is sound.
module _ (max_depth fuel depth : ℕ) (c : Cursor) (h : 3 * left c < suc (suc fuel))
    (shallow : depth ≤ max_depth) where
  pub object_value-step :
      ((c' : Cursor)
        → 3 * left c' + 1 < fuel
        → Ensures (ReadsMembers max_depth depth [] c') (members fuel max_depth depth [] c'))
      → Ensures (ReadsValue max_depth depth c) (object_value (suc fuel) max_depth depth c)
  unfolding value
  object_value-step ihs = Ensures-bind (expect-Ensures b'{' c) λ _ c₁ h₁.
      elim (Bool-cases (sees b'}' (skip_whitespace c₁))) [
        | inl e ↦ rw e (
            holds (
              (shallow, tt, tt),
              omega (
                arith,
                skip_whitespace-le c₁,
                left-advance (skip_whitespace c₁) b'}' (peek-of-sees (skip_whitespace c₁) b'}' e),
              ),
            ))
        | inr e ↦ rw e (
            Ensures-bind (ihs (skip_whitespace c₁) (omega (arith, skip_whitespace-le c₁)))
              λ fields c₃ h₃. holds ((shallow, h₃.1, h₃.0), omega (arith, skip_whitespace-le c₁)))
      ]

  pub array_value-step :
      ((c' : Cursor)
        → 3 * left c' + 1 < fuel
        → Ensures (ReadsElements max_depth depth c') (elements fuel max_depth depth c'))
      → Ensures (ReadsValue max_depth depth c) (array_value (suc fuel) max_depth depth c)
  unfolding value
  array_value-step ihs = Ensures-bind (expect-Ensures b'[' c) λ _ c₁ h₁.
      elim (Bool-cases (sees b']' (skip_whitespace c₁))) [
        | inl e ↦ rw e (
            holds (
              (shallow, tt),
              omega (
                arith,
                skip_whitespace-le c₁,
                left-advance (skip_whitespace c₁) b']' (peek-of-sees (skip_whitespace c₁) b']' e),
              ),
            ))
        | inr e ↦ rw e (
            Ensures-bind (ihs (skip_whitespace c₁) (omega (arith, skip_whitespace-le c₁)))
              λ items c₃ h₃. holds ((shallow, h₃.0), omega (arith, skip_whitespace-le c₁)))
      ]
