-- ===== src/Budget/Overruns.antt =====
-- The rows that a bill above its reservation leaves.
use cbr.Prelude.{
  ℕ, suc, ◌≡◌, refl, inl, inr, arith, true, false, [], ◌∷◌, ◌++◌, Text, codes, any, text_eq,
  text_eq→eq, ℤ, length, Bool-cases, ◌==◌,
}
use cbr.Budget.Rows.{Row, Rows, recorded}
use cbr.Budget.Refusals.{Settlement}
use cbr.Budget.Ledger.{
  Reservation, is_open, settle_rows, overrun_rows, settle_locked, bill_above, bill,
}
use cbr.Budget.Spend.{any-append}

-- Rows that stop the store stay, and stay what they are.
pub stop_kind :
    (row : Row) (kind : Text)
    → text_eq row.kind kind ≡ true
    → text_eq kind (codes "reservation") ≡ false
    → (id : ℕ) → is_open id row ≡ false
stop_kind row kind e f id = elim (Bool-cases (is_open id row)) [
  | inr g ↦ g
  | inl g ↦ absurd (clash (ground arith))
]
  where
    clash : text_eq row.kind (codes "reservation") ≡ true → ⊥
    clash g = cc (text_eq→eq row.kind kind e, f)

module _ (kind : Text) (other : text_eq kind (codes "reservation") ≡ false) where
  recorded-settle_rows :
      (id : ℕ) (now : Text) (seconds : ℤ) (settlement : Settlement) (rows : Rows)
      → recorded kind rows ≡ true
      → recorded kind (settle_rows id now seconds settlement rows) ≡ true
  unfolding recorded settle_rows
  recorded-settle_rows id now seconds settlement [] h = cc
  recorded-settle_rows id now seconds settlement (row ∷ rows) h =
      elim (Bool-cases (text_eq row.kind kind)) [
        | inl e ↦ rw (stop_kind row kind e other id, e)
        | inr e ↦ ground (arith, recorded-settle_rows id now seconds settlement rows)
      ]

  pub recorded-settle_locked :
      (rows : Rows) (now : Text) (seconds : ℤ) (r : Reservation) (settlement : Settlement)
      → recorded kind rows ≡ true
      → recorded kind (settle_locked rows now seconds r settlement) ≡ true
  unfolding settle_locked
  recorded-settle_locked rows now seconds r settlement h =
      let kept = recorded-settle_rows r.id now seconds settlement rows h in
      let settled = settle_rows r.id now seconds settlement rows in
      let appended : recorded kind
            (settled ++ overrun_rows r now seconds (bill settlement) (suc (length rows)) settled)
          ≡ true =
        (unfold recorded in
          any-append (λ row. text_eq row.kind kind) settled
            (overrun_rows r now seconds (bill settlement) (suc (length rows)) settled) kept) in
      elim (Bool-cases (any (is_open r.id) rows)) [
        | inr e ↦ rw e h
        | inl e ↦ elim (Bool-cases (bill_above settlement r.estimate)) [
          | inl f ↦ rw (e, f) appended
          | inr f ↦ rw (e, f) kept
        ]
      ]

-- An open reservation leaves a row of its id when it is settled, so its overrun is recorded.
settled-id :
    (id : ℕ) (now : Text) (seconds : ℤ) (settlement : Settlement) (rows : Rows)
    → any (is_open id) rows ≡ true
    → any (λ row. row.id == id) (settle_rows id now seconds settlement rows) ≡ true
unfolding settle_rows
settled-id id now seconds settlement [] h = cc
settled-id id now seconds settlement (row ∷ rows) h =
    ground (arith, settled-id id now seconds settlement rows)

overrun_rows-recorded :
    (r : Reservation) (now : Text) (seconds : ℤ) (tokens next : ℕ) (rows : Rows)
    → any (λ row. row.id == r.id) rows ≡ true
    → recorded (codes "overrun") (overrun_rows r now seconds tokens next rows) ≡ true
unfolding overrun_rows recorded text_eq
overrun_rows-recorded r now seconds tokens next [] h = cc
overrun_rows-recorded r now seconds tokens next (row ∷ rows) h =
    elim (Bool-cases (row.id == r.id)) [
      | inl e ↦ rw e
      | inr e ↦ rw e (overrun_rows-recorded r now seconds tokens next rows (ground arith))
    ]

recorded-append_right :
    (kind : Text) (xs ys : Rows) → recorded kind ys ≡ true → recorded kind (xs ++ ys) ≡ true
unfolding recorded
recorded-append_right kind [] ys h = h
recorded-append_right kind (x ∷ xs) ys h = ground (arith, recorded-append_right kind xs ys h)

pub settle_locked-overrun :
    (rows : Rows) (now : Text) (seconds : ℤ) (r : Reservation) (settlement : Settlement)
    → any (is_open r.id) rows ≡ true
    → bill_above settlement r.estimate ≡ true
    → recorded (codes "overrun") (settle_locked rows now seconds r settlement) ≡ true
unfolding settle_locked
settle_locked-overrun rows now seconds r settlement e f =
    let settled = settle_rows r.id now seconds settlement rows in
    rw (e, f)
      (recorded-append_right (codes "overrun") settled
        (overrun_rows r now seconds (bill settlement) (suc (length rows)) settled)
        (overrun_rows-recorded r now seconds (bill settlement) (suc (length rows)) settled
          (settled-id r.id now seconds settlement rows e)))

-- Every operation keeps a stop.
pub overrun_other : text_eq (codes "overrun") (codes "reservation") ≡ false
unfolding text_eq
overrun_other = refl

pub unsound_other : text_eq (codes "bound_unsound") (codes "reservation") ≡ false
unfolding text_eq
unsound_other = refl
