-- ===== src/Memo/Durability.antt =====
-- crates/cbr-memory/src/evaluator.rs: how often an input changes.
use cbr.Prelude.{ℕ, ◌≤◌, Bool, arith, leb, if◌then◌else◌}

pub data Durability : Type 0 where
  low medium high : Durability

abbrev pub level : Durability → ℕ
level low = 0
level medium = 1
level high = 2

-- `left >= right`
abbrev pub at_least : Durability → Durability → Bool
at_least left right = leb (level right) (level left)

-- `Ord::min`
abbrev pub least : Durability → Durability → Durability
least left right = if leb (level left) (level right) then left else right

pub least-le : (a b : Durability) → (level (least a b) ≤ level a) × (level (least a b) ≤ level b)
least-le a b = ground arith
