-- ===== src/Budget/Spend.antt =====
-- Sums over the ledger's rows.
use cbr.Prelude.{◌+◌, ◌≤◌, ◌≡◌, refl, arith, Bool, true, false, List, [], ◌∷◌, ◌++◌, any, text_eq}
use cbr.Budget.Rows.{Row, Rows, total, is_spent}
use cbr.Budget.Refusals.{Refusal, window_exhausted, reason}
use cbr.Budget.Ledger.{folded_kind}

pub total-append :
    (test : Row → Bool) (xs ys : Rows) → total test (xs ++ ys) ≡ total test xs + total test ys
unfolding total
total-append test [] ys = omega arith
total-append test (x ∷ xs) ys = omega (arith, total-append test xs ys)

-- A row that spends adds its tokens at most.
pub total-row-le : (test : Row → Bool) (row : Row) → total test (row ∷ []) ≤ row.tokens
unfolding total
total-row-le test row = ground arith

pub any-append {ℓ} :
    {A : Type ℓ} (p : A → Bool) (xs ys : List A) → any p xs ≡ true → any p (xs ++ ys) ≡ true
any-append p [] ys h = cc
any-append p (x ∷ xs) ys h = ground (arith, any-append p xs ys)

-- No reason of a refusal names a kind that spends.
pub refusal-spends_nothing : (r : Refusal) → is_spent (folded_kind (reason r)) ≡ false
unfolding is_spent reason text_eq
refusal-spends_nothing window_exhausted = refl
refusal-spends_nothing _ = refl
