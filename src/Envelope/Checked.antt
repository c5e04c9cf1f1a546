-- ===== src/Envelope/Checked.antt =====
-- What each check of an envelope ensures.
use cbr.Prelude.Results.{Ensures, Ensures-bind, Ensures-weaken}
use cbr.Prelude.{
  ℕ, ◌≡◌, refl, arith, Bool, true, false, Bool-cases, inl, inr, List, [], ◌∷◌, ◌++◌, Text, codes,
  any, All,
}
use cbr.Encoding.Equality.{value_eq}
use cbr.Encoding.Value.{
  Value, null, int, string, array, object, Fields, no_fields, field, get, keys, field_names,
}
use cbr.Envelope.Members.{
  holds, is_present, all_known, all_present, closed_object, check_members, names_kind, names_id,
  check_subject,
}

-- No two elements are the same.
abbrev pub IsDistinct : {A : Type 0} → (A → A → Bool) → List A → Type 0
IsDistinct same [] = Unit
IsDistinct same (x ∷ xs) = All (λ y. same x y ≡ false) xs × IsDistinct same xs

-- The entries have one subject value. A subject whose members stand in another order is another
-- value.
abbrev pub same_subject_value : Value × ℕ → Value × ℕ → Bool
same_subject_value a b = value_eq a.0 b.0

module _ {A : Type 0} where
  pub All-snoc : (P : A → Type 0) (xs : List A) (x : A) → All P xs → P x → All P (xs ++ x ∷ [])
  All-snoc P [] x h p = (p, tt)
  All-snoc P (y ∷ ys) x h p = (h.0, All-snoc P ys x h.1 p)

  pub IsDistinct-snoc :
      (same : A → A → Bool) (xs : List A) (x : A)
      → IsDistinct same xs
      → any (λ y. same y x) xs ≡ false
      → IsDistinct same (xs ++ x ∷ [])
  IsDistinct-snoc same [] x d e = (tt, tt)
  IsDistinct-snoc same (y ∷ ys) x d e = (
    All-snoc (λ z. same y z ≡ false) ys x d.0 (ground arith),
    IsDistinct-snoc same ys x d.1 (ground arith),
  )

pub all_known-Ensures :
    (path : Text) (allowed : List Text) (members : Fields)
    → Ensures
        (λ done. All (λ name. holds allowed name ≡ true) (field_names members))
        (all_known path allowed members)
unfolding all_known field_names
all_known-Ensures path allowed no_fields = tt
all_known-Ensures path allowed (field name value more) = elim (Bool-cases (holds allowed name)) [
  | inl e ↦
      rw (e, all_known)
        (Ensures-weaken _ _ (all_known path allowed more) (λ done h. (refl, h))
          (all_known-Ensures path allowed more))
  | inr e ↦ rw (e, all_known) tt
]

all_present-Ensures :
    (path : Text) (envelope : Value) (names : List Text)
    → Ensures
        (λ done. All (λ name. is_present (get envelope name) ≡ true) names)
        (all_present path envelope names)
unfolding all_present
all_present-Ensures path envelope [] = tt
all_present-Ensures path envelope (name ∷ names) =
    elim (Bool-cases (is_present (get envelope name))) [
      | inl e ↦
          rw (e, all_present)
            (Ensures-weaken _ _ (all_present path envelope names) (λ done h. (refl, h))
              (all_present-Ensures path envelope names))
      | inr e ↦ rw (e, all_present) tt
    ]

-- A closed object: no member but those allowed, and every member that is required.
pub record IsClosed (allowed required : List Text) (envelope : Value) : Type 0 where
  pub known : All (λ name. holds allowed name ≡ true) (keys envelope)
  pub complete : All (λ name. is_present (get envelope name) ≡ true) required

pub check_members-IsClosed :
    (envelope : Value) (allowed required : List Text)
    → Ensures (λ done. IsClosed allowed required envelope) (check_members envelope allowed required)
unfolding check_members closed_object keys
check_members-IsClosed (object members) allowed required =
    Ensures-bind _ _ (all_known (codes "/") allowed members) _
      (all_known-Ensures (codes "/") allowed members)
      (λ done known.
        Ensures-weaken _ _ (all_present (codes "/") (object members) required)
          (λ done complete. record { known = known; complete = complete })
          (all_present-Ensures (codes "/") (object members) required))
check_members-IsClosed null allowed required = tt
check_members-IsClosed (Value.bool b) allowed required = tt
check_members-IsClosed (int n) allowed required = tt
check_members-IsClosed (string text) allowed required = tt
check_members-IsClosed (array items) allowed required = tt

-- A subject has a kind and an identifier, and no other member.
pub record IsSubject (subject : Value) : Type 0 where
  pub known : All (λ name. holds (codes "kind" ∷ codes "id" ∷ []) name ≡ true) (keys subject)
  pub kind : names_kind (get subject (codes "kind")) ≡ true
  pub id : names_id (get subject (codes "id")) ≡ true

pub check_subject-IsSubject :
    (subject : Value) (path : Text)
    → Ensures (λ done. IsSubject subject) (check_subject subject path)
unfolding check_subject keys
check_subject-IsSubject (object members) path =
    Ensures-bind _ _ (all_known (path ++ codes "/") (codes "kind" ∷ codes "id" ∷ []) members) _
      (all_known-Ensures (path ++ codes "/") (codes "kind" ∷ codes "id" ∷ []) members)
      (λ done known. elim (Bool-cases (names_kind (get (object members) (codes "kind")))) [
        | inr e ↦ rw e tt
        | inl e ↦ elim (Bool-cases (names_id (get (object members) (codes "id")))) [
          | inr f ↦ rw e (rw f tt)
          | inl f ↦ rw e (rw f (record { known = known; kind = e; id = f }))
        ]
      ])
check_subject-IsSubject null path = tt
check_subject-IsSubject (Value.bool b) path = tt
check_subject-IsSubject (int n) path = tt
check_subject-IsSubject (string text) path = tt
check_subject-IsSubject (array items) path = tt
