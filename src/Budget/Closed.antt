-- ===== src/Budget/Closed.antt =====
-- Rows without an open reservation of one identifier, through writes and settlements.
use cbr.Prelude.{
  ℕ, suc, ◌≤◌, ◌≡◌, refl, inl, inr, arith, false, [], ◌∷◌, ◌++◌, Text, codes, any, text_eq, ℤ,
  length, length-append, Bool-cases, ◌==◌,
}
use cbr.Budget.Rows.{Rows}
use cbr.Budget.Refusals.{Settlement, usage, usage_unknown, nothing_spent, provider_exhausted}
use cbr.Budget.Ledger.{
  Reservation, write, new_row, is_open, settle_row, settle_rows, overrun_rows, settle_locked,
  settled_kind, bill_above, bill,
}

-- The identifier is of a row that was written, and no open row has it.
pub record IsClosed (id : ℕ) (rows : Rows) : Type 0 where
  pub old : id ≤ length rows
  pub closed : any (is_open id) rows ≡ false

module _ (id : ℕ) where
  closed-append :
      (xs ys : Rows)
      → any (is_open id) xs ≡ false
      → any (is_open id) ys ≡ false
      → any (is_open id) (xs ++ ys) ≡ false
  closed-append [] ys h k = k
  closed-append (x ∷ xs) ys h k = ground (arith, closed-append xs ys)

  pub write-IsClosed :
      (rows : Rows) (now : Text) (seconds : ℤ) (job request kind : Text) (tokens estimate : ℕ)
      → IsClosed id rows
      → IsClosed id (write rows now seconds job request kind tokens estimate)
  unfolding write new_row
  write-IsClosed rows now seconds job request kind tokens estimate h =
      let row = new_row rows now seconds job request kind tokens estimate in
      record {
        old = omega (arith, h.old, length-append rows (row ∷ []));
        closed = closed-append rows (row ∷ []) h.closed (ground (arith, h.old));
      }

  settled-closed :
      (settlement : Settlement) → text_eq (settled_kind settlement) (codes "reservation") ≡ false
  unfolding text_eq
  settled-closed (usage tokens) = refl
  settled-closed usage_unknown = refl
  settled-closed nothing_spent = refl
  settled-closed provider_exhausted = refl

  module _ (now : Text) (seconds : ℤ) (settlement : Settlement) where
    settle_rows-length :
        (other : ℕ) (rows : Rows)
        → length (settle_rows other now seconds settlement rows) ≡ length rows
    unfolding settle_rows
    settle_rows-length other [] = refl
    settle_rows-length other (row ∷ rows) = omega (arith, settle_rows-length other rows)

    pub settle_rows-closes :
        (rows : Rows) → any (is_open id) (settle_rows id now seconds settlement rows) ≡ false
    unfolding settle_rows settle_row
    settle_rows-closes [] = refl
    settle_rows-closes (row ∷ rows) = elim (Bool-cases (is_open id row)) [
      | inl e ↦ rw e (ground (arith, settled-closed settlement, settle_rows-closes rows))
      | inr e ↦ rw (e, e) (settle_rows-closes rows)
    ]

    pub settle_rows-closed :
        (other : ℕ) (rows : Rows)
        → any (is_open id) rows ≡ false
        → any (is_open id) (settle_rows other now seconds settlement rows) ≡ false
    unfolding settle_rows settle_row
    settle_rows-closed other [] h = refl
    settle_rows-closed other (row ∷ rows) h = elim (Bool-cases (is_open other row)) [
      | inl e ↦ rw e (ground (arith, settled-closed settlement, settle_rows-closed other rows))
      | inr e ↦ rw e (ground (arith, settle_rows-closed other rows))
    ]

    overrun_rows-closed :
        (r : Reservation) (tokens next : ℕ) (rows : Rows)
        → any (is_open id) (overrun_rows r now seconds tokens next rows) ≡ false
    unfolding overrun_rows text_eq
    overrun_rows-closed r tokens next [] = refl
    overrun_rows-closed r tokens next (row ∷ rows) = elim (Bool-cases (row.id == r.id)) [
      | inl e ↦ rw e (ground (arith, overrun_rows-closed r tokens (suc next) rows))
      | inr e ↦ rw e (overrun_rows-closed r tokens next rows)
    ]

    -- What a settlement leaves is closed when what the `UPDATE` leaves is.
    pub landed-IsClosed :
        (r : Reservation) (rows : Rows)
        → id ≤ length rows
        → (any (is_open r.id) rows ≡ false → any (is_open id) rows ≡ false)
        → any (is_open id) (settle_rows r.id now seconds settlement rows) ≡ false
        → IsClosed id (settle_locked rows now seconds r settlement)
    unfolding settle_locked
    landed-IsClosed r rows o k h =
        let after = settle_rows r.id now seconds settlement rows in
        let overruns = overrun_rows r now seconds (bill settlement) (suc (length rows)) after in
        let n = settle_rows-length r.id rows in
        elim (Bool-cases (any (is_open r.id) rows)) [
          | inr e ↦ rw e (record { old = o; closed = k e })
          | inl e ↦ elim (Bool-cases (bill_above settlement r.estimate)) [
            | inr f ↦ rw (e, f) (record { old = omega (arith, n, o); closed = h })
            | inl f ↦
                rw (e, f)
                  (record {
                    old = omega (arith, n, o, length-append after overruns);
                    closed =
                        closed-append after overruns h
                          (overrun_rows-closed r (bill settlement) (suc (length rows)) after);
                  })
          ]
        ]
