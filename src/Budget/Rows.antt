-- ===== src/Budget/Rows.antt =====
-- crates/cbr-provider/src/budget.rs: the table `model_ledger` and its queries. Amounts are below
-- 2 ^ 63, where the casts between `u64` and `i64` keep them.
use cbr.Prelude.{
  ℕ, ◌+◌, Bool, true, ◌&&◌, List, [], ◌∷◌, Text, codes, text_eq, any, take, if◌then◌else◌, ℤ, pos,
  ◌-ℤ◌, ltb_ℤ,
}
use cbr.Budget.Refusals.{window_seconds}

pub record Row : Type 0 where
  pub id : ℕ
  pub job : Text
  pub request : Text
  pub kind : Text
  pub tokens : ℕ
  pub estimate : ℕ
  pub recorded_at : Text
  pub seconds : ℤ

abbrev pub Rows : Type 0
Rows = List Row

-- The kinds that count as spend.
abbrev pub spent_kinds : List Text
spent_kinds =
    codes "reservation"
    ∷ codes "usage"
    ∷ codes "unknown"
    ∷ codes "provider_exhausted"
    ∷ codes "not_sent"
    ∷ []

unfoldable pub is_spent : Text → Bool
is_spent kind = any (text_eq kind) spent_kinds

-- `SUM(tokens) … WHERE <spent> AND <test>`
unfoldable pub total : (Row → Bool) → Rows → ℕ
unfolding is_spent
total test [] = 0
total test (row ∷ rows) =
    (if is_spent row.kind && test row then row.tokens else 0) + total test rows

abbrev pub in_window : ℤ → Row → Bool
in_window now row = ltb_ℤ (now -ℤ pos window_seconds) row.seconds

abbrev pub in_month : Text → Row → Bool
in_month now row = text_eq (take 7 row.recorded_at) (take 7 now)

abbrev pub of_job : Text → Row → Bool
of_job job row = text_eq row.job job

abbrev pub every : Row → Bool
every row = true

-- Whether a row of this kind was ever recorded.
unfoldable pub recorded : Text → Rows → Bool
recorded kind rows = any (λ row. text_eq row.kind kind) rows
