-- ===== src/Memo/Store.antt =====
-- crates/cbr-memory/src/evaluator.rs: the tables, and `set_input`. The four SQLite tables are one
-- record: a row is found by its key, and the edges of a node stand in its row, in order. A call of
-- the database that fails is not modelled.
use cbr.Prelude.{
  ℕ, ◌+◌, Bool, true, false, ◌&&◌, Option, none, some, List, Text, Bytes, text_eq, max, leb,
  if◌then◌else◌,
}
use cbr.Memo.Durability.{Durability, level}

pub record Input : Type 0 where
  pub value : Bytes
  pub changed_at : ℕ
  pub durability : Durability

pub record Row : Type 0 where
  pub value : Bytes
  pub changed_at : ℕ
  pub verified_at : ℕ
  pub durability : Durability
  pub untracked : Bool
  pub dependencies : List Text

-- `changed l` is the row `changed_at_or_above_<l>` of `memo_meta`, 0 while it is missing.
pub record Store : Type 0 where
  pub revision : ℕ
  pub changed : ℕ → ℕ
  pub inputs : Text → Option Input
  pub memos : Text → Option Row

-- `INSERT … ON CONFLICT(key) DO UPDATE`
unfoldable pub update {ℓ} : {A : Type ℓ} → (Text → Option A) → Text → A → Text → Option A
update table key row other = if text_eq key other then some row else table other

unfoldable pub changed_at_or_above : Store → Durability → ℕ
changed_at_or_above store durability = store.changed (level durability)

unfoldable pub write_memo : Store → Text → Row → Store
unfolding update
write_memo store key row = record store { memos = update store.memos key row }

unfoldable pub mark_row : Option Row → ℕ → Option Row
mark_row none revision = none
mark_row (some row) revision = some (record row { verified_at = revision })

-- `UPDATE memo_node SET verified_at = ?2 WHERE key = ?1`
unfoldable pub mark_verified : Store → Text → ℕ → Store
unfolding mark_row
mark_verified store key revision = record store {
  memos = λ other.
      if text_eq key other then mark_row (store.memos other) revision else store.memos other;
}

-- The loop over `0..=announced`.
unfoldable pub announce : (ℕ → ℕ) → ℕ → ℕ → ℕ → ℕ
announce changed announced revision l = if leb l announced then revision else changed l

-- The level of the durability that an input had, 0 if there was none.
abbrev pub old_level : Option Input → ℕ
old_level none = 0
old_level (some input) = level input.durability

abbrev pub is_same : Option Input → Bytes → Durability → Bool
is_same none value durability = false
is_same (some input) value durability =
    text_eq input.value value
    && (leb (level input.durability) (level durability)
        && leb (level durability) (level input.durability))

unfoldable pub set_input : Store → Text → Bytes → Durability → Store × Bool
unfolding update announce
set_input store key value durability =
    let existing = store.inputs key in
    if is_same existing value durability
    then (store, false)
    else (let revision = store.revision + 1 in
        (
          record {
            revision = revision;
            changed = announce store.changed (max (level durability) (old_level existing)) revision;
            inputs =
                update store.inputs key
                  (record { value = value; changed_at = revision; durability = durability });
            memos = store.memos;
          },
          true,
        ))
