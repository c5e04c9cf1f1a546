-- ===== src/Memo/Rows.antt =====
-- What a computed memo records: its stamps and its durability, with the guards.
use cbr.Prelude.Results.{ok}
use cbr.Prelude.{
  ℕ, suc, ◌≤◌, ◌≡◌, refl, ◌⊎◌, inl, inr, true, false, Option, none, some, List, [], ◌∷◌, Text,
  Bytes, arith, text_eq→eq, Bool-cases, All, ◌≢◌,
}
use cbr.Memo.Durability.{Durability, low, high, level, least, least-le}
use cbr.Memo.Store.{Store, Row}
use cbr.Memo.Session.{
  Session, Frame, Functions, durability_of, least_durable, memo_durability, backdate, stamp,
  computed_row, contains, check, validate, give_up,
}

least_durable-le :
    (store : Store) (keys : List Text) (d : Durability)
    → level (least_durable store keys d) ≤ level d
unfolding least_durable
least_durable-le store [] d = omega arith
least_durable-le store (key ∷ keys) d = omega (
  arith,
  least_durable-le store keys (least d (durability_of store key)),
  (least-le d (durability_of store key)).0,
)

least_durable-All :
    (store : Store) (keys : List Text) (d : Durability)
    → All (λ key. level (least_durable store keys d) ≤ level (durability_of store key)) keys
unfolding least_durable
least_durable-All store [] d = tt
least_durable-All store (key ∷ keys) d = (
  omega (
    arith,
    least_durable-le store keys (least d (durability_of store key)),
    (least-le d (durability_of store key)).1,
  ),
  least_durable-All store keys (least d (durability_of store key)),
)

All-zero :
    (store : Store) (keys : List Text) → All (λ key. 0 ≤ level (durability_of store key)) keys
All-zero store [] = tt
All-zero store (key ∷ keys) = (omega arith, All-zero store keys)

-- The stamp of a recomputed value: the revision, or the old stamp behind the guard.
abbrev pub StampIs : Option Row → Bytes → Durability → ℕ → ℕ → Type 0
StampIs previous value durability revision changed_at =
    (changed_at ≡ revision)
    ⊎ ((old : Row) × (previous ≡ some old)
        × (old.value ≡ value)
        × (level old.durability ≤ level durability)
        × (changed_at ≡ old.changed_at))

stamp-StampIs :
    (previous : Option Row) (value : Bytes) (d : Durability) (revision : ℕ)
    → StampIs previous value d revision (stamp previous value d revision)
unfolding stamp
stamp-StampIs none value d revision = inl refl
stamp-StampIs (some old) value d revision = elim (Bool-cases (backdate (some old) value d)) [
  | inr e ↦ inl (rw e)
  | inl e ↦ inr (
    old,
    refl,
    text_eq→eq old.value value (unfold backdate in ground arith),
    unfold backdate in ground arith,
    rw e,
  )
]

-- A computed memo keeps an old stamp only for an equal value that has not become less durable; it
-- is no more durable than anything it read, and not durable at all when it read something
-- untracked; and it counts as verified now.
pub computed_row_sound :
    (store : Store) (previous : Option Row) (value : Bytes) (frame : Frame) (revision : ℕ)
    → let row = computed_row store previous value frame revision in
      StampIs previous value row.durability revision row.changed_at
      × All (λ key. level row.durability ≤ level (durability_of store key)) row.dependencies
      × ((row.untracked ≡ false) ⊎ (row.durability ≡ low))
      × (row.verified_at ≡ revision)
unfolding computed_row
computed_row_sound store previous value frame revision = (
  stamp-StampIs previous value (memo_durability store frame) revision,
  elim (Bool-cases frame.untracked) [
    | inl e ↦ rw e (All-zero store frame.dependencies)
    | inr e ↦ rw e (least_durable-All store frame.dependencies high)
  ],
  elim (Bool-cases frame.untracked) [ inl e ↦ inr (rw e) | inr e ↦ inl e ],
  refl,
)

-- A memo that read something untracked is not validated without executing again, unless it was
-- verified or computed in this very revision.
pub untracked-not_validated :
    (fuel : ℕ) (functions : Functions) (key : Text) (memo : Row) (s : Session)
    → memo.untracked ≡ true
    → memo.verified_at ≢ s.revision
    → contains s.settled key ≡ false
    → validate (suc fuel) functions key memo s ≡ (ok false, s)
untracked-not_validated fuel functions key memo s u v n =
    let e : check s key memo ≡ give_up = unfold check in ground (arith, u, v, n) in
    unfold validate in rw (e, validate)
