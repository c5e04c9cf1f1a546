-- ===== src/Budget/Once.antt =====
-- A settlement that the store has taken lands once.
use cbr.Prelude.{
  ℕ, ◌≤◌, ◌≡◌, refl, sym, subst, inl, inr, arith, Bool, true, false, some, List, [], ◌∷◌, Text,
  codes, any, ℤ, length, Option-cases, Bool-cases,
}
use cbr.Clock.Instants.{epoch_seconds}
use cbr.Budget.Refusals.{Settlement, usage, reason}
use cbr.Budget.Ledger.{
  Ledger, Reservation, Unwritten, is_open, settle_locked, keep, settle, write_kept, write_unwritten,
  admit_locked, admit,
}
use cbr.Budget.Admission.{admit_locked-cases}
use cbr.Budget.Stops.{Ops, here, admitted, settled, noted}
use cbr.Budget.Closed.{
  IsClosed, write-IsClosed, settle_rows-closes, settle_rows-closed, landed-IsClosed,
}

module _ (id : ℕ) where
  keep-rows :
      (l : Ledger) (now : Text) (r : Reservation) (settlement : Settlement)
      → (keep l now r settlement).0.rows ≡ l.rows
  unfolding keep
  keep-rows l now r settlement = ground arith

  settle-IsClosed :
      (l : Ledger) (takes : Bool) (now : Text) (r : Reservation) (settlement : Settlement)
      → IsClosed id l.rows
      → IsClosed id (settle l takes now r settlement).0.rows
  unfolding settle
  settle-IsClosed l takes now r settlement h =
      let kept = subst (IsClosed id) (sym (keep-rows l now r settlement)) h in
      elim (Option-cases (epoch_seconds now)) [
        | inl e ↦ rw (e, settle) kept
        | inr (seconds, e) ↦ elim (Bool-cases takes) [
          | inl f ↦
              rw (e, settle)
                (rw f (
                  landed-IsClosed id now seconds settlement r l.rows h.old (λ k. h.closed)
                    (settle_rows-closed id now seconds settlement r.id l.rows h.closed)))
          | inr f ↦ rw (e, settle) (rw f kept)
        ]
      ]

  write_kept-IsClosed :
      (l : Ledger) (takes : ℕ → Bool) (entries : List Unwritten)
      → IsClosed id l.rows
      → IsClosed id (write_kept l takes entries).0.rows
  unfolding write_kept
  write_kept-IsClosed l takes [] h = h
  write_kept-IsClosed l takes (entry ∷ more) h =
      let r = entry.reservation in
      write_kept-IsClosed (settle l (takes r.id) entry.now r (usage entry.tokens)).0 takes more
        (settle-IsClosed l (takes r.id) entry.now r (usage entry.tokens) h)

  write_unwritten-IsClosed :
      (l : Ledger) (takes : ℕ → Bool)
      → IsClosed id l.rows
      → IsClosed id (write_unwritten l takes).rows
  unfolding write_unwritten
  write_unwritten-IsClosed l takes h = elim (Option-cases l.kept) [
    | inl e ↦ rw (e, write_unwritten) h
    | inr (kept, e) ↦ rw (e, write_unwritten) (write_kept-IsClosed l takes kept h)
  ]

  admit_locked-IsClosed :
      (l : Ledger) (now : Text) (seconds : ℤ) (job request : Text) (estimate : ℕ)
      → IsClosed id l.rows
      → IsClosed id (admit_locked l now seconds job request estimate).0.rows
  admit_locked-IsClosed l now seconds job request estimate h =
      elim (admit_locked-cases l now seconds job request estimate) [
        | inl (no_stop, within, e) ↦ rw e (
            write-IsClosed id l.rows now seconds job request (codes "reservation") estimate estimate
              h)
        | inr (refusal, e) ↦
            rw e (write-IsClosed id l.rows now seconds job request (reason refusal) 0 estimate h)
      ]

  admit-IsClosed :
      (l : Ledger) (takes : ℕ → Bool) (admits : Bool) (now job request : Text) (estimate : ℕ)
      → IsClosed id l.rows
      → IsClosed id (admit l takes admits now job request estimate).0.rows
  unfolding admit
  admit-IsClosed l takes false now job request estimate h = write_unwritten-IsClosed l takes h
  admit-IsClosed l takes true now job request estimate h =
      let h₁ = write_unwritten-IsClosed l takes h in
      elim (Option-cases (epoch_seconds now)) [
        | inl e ↦ rw (e, admit) h₁
        | inr (seconds, e) ↦
            rw (e, admit)
              (admit_locked-IsClosed (write_unwritten l takes) now seconds job request estimate h₁)
      ]

  Ops-IsClosed : {l m : Ledger} → IsClosed id l.rows → Ops l m → IsClosed id m.rows
  Ops-IsClosed h here = h
  Ops-IsClosed h (admitted {m} ops takes admits now job request estimate) =
      admit-IsClosed m takes admits now job request estimate (Ops-IsClosed h ops)
  Ops-IsClosed h (settled {m} ops takes now r settlement) =
      settle-IsClosed m takes now r settlement (Ops-IsClosed h ops)
  Ops-IsClosed h (noted {m} ops now seconds job request kind tokens estimate) =
      write-IsClosed id m.rows now seconds job request kind tokens estimate (Ops-IsClosed h ops)

settle-closed :
    (l : Ledger) (takes : Bool) (now : Text) (r : Reservation) (settlement : Settlement)
    → any (is_open r.id) l.rows ≡ false
    → (settle l takes now r settlement).0.rows ≡ l.rows
unfolding settle settle_locked
settle-closed l takes now r settlement h = elim (Option-cases (epoch_seconds now)) [
  | inl e ↦ rw (e, settle) (keep-rows 0 l now r settlement)
  | inr (seconds, e) ↦ elim (Bool-cases takes) [
    | inl f ↦ rw (e, settle) (rw f (rw h refl))
    | inr f ↦ rw (e, settle) (rw f (keep-rows 0 l now r settlement))
  ]
]

taken-IsClosed :
    (l : Ledger) (now : Text) (seconds : ℤ) (r : Reservation) (settlement : Settlement)
    → epoch_seconds now ≡ some seconds
    → r.id ≤ length l.rows
    → IsClosed r.id (settle l true now r settlement).0.rows
unfolding settle
taken-IsClosed l now seconds r settlement e old =
    rw (e, settle)
      (landed-IsClosed r.id now seconds settlement r l.rows old (λ k. k)
        (settle_rows-closes r.id now seconds settlement l.rows))

-- A settlement lands once. After the store has taken a settlement of a reservation, of an identifier
-- within the rows written so far and at an instant that can be read, every later settlement of that
-- identifier, with whatever bill, leaves the rows as they are, whatever was admitted, settled and
-- recorded in between.
pub settles_once :
    (l m : Ledger) (now : Text) (seconds : ℤ) (r : Reservation) (settlement : Settlement)
    → epoch_seconds now ≡ some seconds
    → r.id ≤ length l.rows
    → Ops (settle l true now r settlement).0 m
    → (takes : Bool) (later : Text) (r' : Reservation) (settlement' : Settlement) → r'.id ≡ r.id
    → (settle m takes later r' settlement').0.rows ≡ m.rows
settles_once l m now seconds r settlement e old ops takes later r' settlement' same =
    settle-closed m takes later r' settlement'
      (rw same (Ops-IsClosed r.id (taken-IsClosed l now seconds r settlement e old) ops).closed)
