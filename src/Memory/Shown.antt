-- ===== src/Memory/Shown.antt =====
-- What of its candidates a page shows.
use cbr.Prelude.Results.{Result, ok, err}
use cbr.Prelude.{
  ℕ, ◌+◌, ◌≤◌, ◌≡◌, refl, sym, ap, ◌∙◌, arith, Bool, true, false, ◌&&◌, ◌||◌, not, Bool-cases, inl,
  inr, Option, none, some, List, [], ◌∷◌, ◌++◌, append_assoc, append-nil, Text, Bytes, All, length,
  length-append, all, any, leb, ltb, if◌then◌else◌, pos, ◌+ℤ◌,
}
use cbr.Memory.Canonical.{with_contents}
use cbr.Memory.Retrieval.{Source, Order, is_greater, Found, Bounds, Truncation, saturating_add}
use cbr.Memory.Search.{is_empty, insert, sort, clip, span_of, page, answers_for, is_declared}

-- What holds of both branches holds of the branch that is taken.
pub pick :
    {B : Type 0} (P : B → Type 0) (b : Bool) (x y : B)
    → P x
    → P y
    → P (elim b [ true ↦ x | false ↦ y ])
pick P true x y h k = h
pick P false x y h k = k

pub pick_if :
    {B : Type 0} (P : B → Type 0) (b : Bool) (x y : B) → P x → P y → P (if b then x else y)
pick_if P true x y h k = h
pick_if P false x y h k = k

pub pick_contents :
    {A : Type 0} (P : Result A Text → Type 0) (contents : Result (Option Bytes) Text)
    (read : Bytes → Result A Text) (skip : Result A Text)
    → ((bytes : Bytes) → P (read bytes))
    → P skip
    → ((error : Text) → P (err error))
    → P (with_contents contents read skip)
pick_contents P (err error) read skip f h e = e error
pick_contents P (ok none) read skip f h e = h
pick_contents P (ok (some bytes)) read skip f h e = f bytes

pub row_declares : (a b c d : Bool) → b ≡ true → c ≡ true → (a || (false || ((b && c) || d))) ≡ true
row_declares a b c d h k = ground arith

pub or-true : (a : Bool) → (a || true) ≡ true
or-true true = refl
or-true false = refl

swapped : (a b c d : Bool) → d ≡ (a || c) → (b || d) ≡ (a || (b || c))
swapped a b c d h = ground arith

module _ {A : Type 0} where
  pub any-append : (p : A → Bool) (xs ys : List A) → any p (xs ++ ys) ≡ (any p xs || any p ys)
  any-append p [] ys = refl
  any-append p (x ∷ xs) ys = ground (arith, any-append p xs ys)

  any-insert :
      (cmp : A → A → Order) (p : A → Bool) (x : A) (xs : List A)
      → any p (insert cmp x xs) ≡ (p x || any p xs)
  any-insert cmp p x [] = refl
  any-insert cmp p x (y ∷ xs) =
      pick (λ r. any p r ≡ (p x || any p (y ∷ xs))) (is_greater (cmp x y)) (y ∷ insert cmp x xs)
        (x ∷ y ∷ xs)
        (swapped (p x) (p y) (any p xs) (any p (insert cmp x xs)) (any-insert cmp p x xs)) refl

  pub any-sort : (cmp : A → A → Order) (p : A → Bool) (xs : List A) → any p (sort cmp xs) ≡ any p xs
  any-sort cmp p [] = refl
  any-sort cmp p (x ∷ xs) =
      any-insert cmp p x (sort cmp xs) ∙ ap (λ b. p x || b) (any-sort cmp p xs)

  pub All-implied : {P Q : A → Type 0} → ((a : A) → P a → Q a) → (xs : List A) → All P xs → All Q xs
  All-implied f [] h = tt
  All-implied f (x ∷ xs) h = (f x h.0, All-implied f xs h.1)

  pub All-snoc : (P : A → Type 0) (xs : List A) (x : A) → All P xs → P x → All P (xs ++ x ∷ [])
  All-snoc P [] x h p = (p, tt)
  All-snoc P (y ∷ ys) x h p = (h.0, All-snoc P ys x h.1 p)

pub all-of : {A : Type 0} (p : A → Bool) (xs : List A) → All (λ x. p x ≡ true) xs → all p xs ≡ true
all-of p [] h = refl
all-of p (x ∷ xs) h = rw (h.0, all-of p xs h.1) refl

module _ {Score : Type 0} where
  pub is_declared-more :
      (source : Source) (xs ys : List (Found Score))
      → (any (answers_for source) xs ≡ true → any (answers_for source) ys ≡ true)
      → is_declared xs source ≡ true
      → is_declared ys source ≡ true
  is_declared-more source xs ys f h = elim (Bool-cases (any (answers_for source) xs)) [
    | inl e ↦ ground (arith, f e)
    | inr e ↦ ground (arith, e, h)
  ]

  abbrev pub clips : ℕ → List (Found Score) → List (Found Score)
  clips span_bytes [] = []
  clips span_bytes (x ∷ xs) = clip span_bytes x ∷ clips span_bytes xs

  answers_for-clip :
      (source : Source) (n : ℕ) (x : Found Score)
      → answers_for source (clip n x) ≡ answers_for source x
  answers_for-clip source n x =
      pick_if (λ r. answers_for source r ≡ answers_for source x) (ltb n (span_of x))
        (record x { end_byte = x.start_byte +ℤ pos n; clipped = true }) x refl refl

  pub any-clips :
      (source : Source) (n : ℕ) (xs : List (Found Score))
      → any (answers_for source) (clips n xs) ≡ any (answers_for source) xs
  any-clips source n [] = refl
  any-clips source n (x ∷ xs) = rw (answers_for-clip source n x, any-clips source n xs) refl

  abbrev is_over : Bounds Score → Found Score → List (Found Score) → ℕ → Bool
  is_over bounds x found bytes =
      not (is_empty found)
      && ltb bounds.batch_bytes (saturating_add bytes (span_of (clip bounds.span_bytes x)))

  -- A page that is as long as what it was made of is all of it.
  abbrev IsWhole :
      Bounds Score
      → List (Found Score)
      → List (Found Score)
      → List (Found Score) × Option Truncation
      → Type 0
  IsWhole bounds xs found r =
      length found + length xs ≤ length r.0 → r.0 ≡ found ++ clips bounds.span_bytes xs

  abbrev IsLonger : List (Found Score) → List (Found Score) × Option Truncation → Type 0
  IsLonger found r = length found ≤ length r.0

  pub page-length :
      (bounds : Bounds Score) (xs found : List (Found Score)) (bytes : ℕ)
      → length found ≤ length (page bounds xs found bytes).0
  unfolding page
  page-length bounds [] found bytes = omega arith
  page-length bounds (x ∷ xs) found bytes =
      pick (IsLonger found) (leb bounds.rows (length found)) _ _ (omega arith) (
        pick (IsLonger found) (is_over bounds x found bytes) _ _ (omega arith) (
          omega (
            arith,
            length-append found (clip bounds.span_bytes x ∷ []),
            page-length bounds xs (found ++ clip bounds.span_bytes x ∷ [])
                (bytes + span_of (clip bounds.span_bytes x)),
          )))

  pub page-IsWhole :
      (bounds : Bounds Score) (xs found : List (Found Score)) (bytes : ℕ)
      → IsWhole bounds xs found (page bounds xs found bytes)
  unfolding page
  page-IsWhole bounds [] found bytes = λ h. sym (append-nil found)
  page-IsWhole bounds (x ∷ xs) found bytes =
      pick (IsWhole bounds (x ∷ xs) found) (leb bounds.rows (length found)) _ _
        (λ h. absurd (omega (arith, h)))
        (pick (IsWhole bounds (x ∷ xs) found) (is_over bounds x found bytes) _ _
          (λ h. absurd (omega (arith, h)))
          (λ h.
            page-IsWhole bounds xs (found ++ clip bounds.span_bytes x ∷ [])
              (bytes + span_of (clip bounds.span_bytes x))
              (omega (arith, h, length-append found (clip bounds.span_bytes x ∷ [])))
            ∙ append_assoc found (clip bounds.span_bytes x ∷ []) (clips bounds.span_bytes xs)))
