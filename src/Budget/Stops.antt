-- ===== src/Budget/Stops.antt =====
-- A bill above its reservation stops the store for good.
use cbr.Prelude.Results.{Result, ok}
use cbr.Prelude.{
  ℕ, ◌<◌, ◌≡◌, ◌≢◌, inl, inr, arith, Bool, true, false, ◌||◌, none, List, [], ◌∷◌, Text, codes, any,
  text_eq, ℤ, Option-cases, Bool-cases,
}
use cbr.Clock.Instants.{epoch_seconds}
use cbr.Budget.Rows.{Row, Rows, recorded}
use cbr.Budget.Refusals.{Settlement, usage, reason}
use cbr.Budget.Ledger.{
  Ledger, LedgerError, Reservation, Unwritten, Unsettled, write, stop, is_kept, holds_a_stop,
  any_stop, is_open, settle_row, settle_rows, overrun_rows, settle_locked, settled_kind,
  settled_tokens, bill_above, bill, keep, unsettled, settle, write_kept, write_unwritten, retain,
  retained, not_admitted, answered, refuse, admit_locked, admit, Admitted,
}
use cbr.Budget.Spend.{any-append}
use cbr.Budget.Admission.{admit_locked-cases}
use cbr.Budget.Overruns.{
  recorded-settle_locked, settle_locked-overrun, overrun_other, unsound_other,
}

-- The store has recorded a stop, or this process holds one.
abbrev pub has_stop_row : Rows → Bool
has_stop_row rows = recorded (codes "bound_unsound") rows || recorded (codes "overrun") rows

unfoldable pub is_stopped : Ledger → Bool
is_stopped l = has_stop_row l.rows || is_kept l.kept

any_stop-stopped : (l : Ledger) → is_stopped l ≡ true → any_stop l ≢ none
unfolding is_stopped any_stop
any_stop-stopped l h = ground arith

stopped_by_rows : (l : Ledger) → has_stop_row l.rows ≡ true → is_stopped l ≡ true
unfolding is_stopped
stopped_by_rows l h = ground arith

stopped_by_process : (l : Ledger) → is_kept l.kept ≡ true → is_stopped l ≡ true
unfolding is_stopped
stopped_by_process l h = ground arith

has_stop_row-settle_locked :
    (rows : Rows) (now : Text) (seconds : ℤ) (r : Reservation) (settlement : Settlement)
    → has_stop_row rows ≡ true
    → has_stop_row (settle_locked rows now seconds r settlement) ≡ true
has_stop_row-settle_locked rows now seconds r settlement h = ground (
  arith,
  recorded-settle_locked (codes "overrun") overrun_other rows now seconds r settlement,
  recorded-settle_locked (codes "bound_unsound") unsound_other rows now seconds r settlement,
)

keep-stopped :
    (l : Ledger) (now : Text) (r : Reservation) (settlement : Settlement)
    → is_stopped l ≡ true
    → is_stopped (keep l now r settlement).0 ≡ true
unfolding keep is_stopped
keep-stopped l now r settlement h = ground arith

settle-stopped :
    (l : Ledger) (takes : Bool) (now : Text) (r : Reservation) (settlement : Settlement)
    → is_stopped l ≡ true
    → is_stopped (settle l takes now r settlement).0 ≡ true
unfolding settle
settle-stopped l takes now r settlement h = elim (Option-cases (epoch_seconds now)) [
  | inl e ↦ rw (e, settle) (keep-stopped l now r settlement h)
  | inr (seconds, e) ↦ elim (Bool-cases takes) [
    | inl f ↦ rw (e, settle) (rw f (taken seconds))
    | inr f ↦ rw (e, settle) (rw f (keep-stopped l now r settlement h))
  ]
]
  where
    taken :
        (seconds : ℤ)
        → is_stopped (record l { rows = settle_locked l.rows now seconds r settlement }) ≡ true
    taken seconds =
        unfold is_stopped in
        ground (arith, has_stop_row-settle_locked l.rows now seconds r settlement, h)

write-stopped :
    (l : Ledger) (now : Text) (seconds : ℤ) (job request kind : Text) (tokens estimate : ℕ)
    → is_stopped l ≡ true
    → is_stopped (record l { rows = write l.rows now seconds job request kind tokens estimate })
      ≡ true
unfolding is_stopped write recorded
write-stopped l now seconds job request kind tokens estimate h =
    let row = cbr.Budget.Ledger.new_row l.rows now seconds job request kind tokens estimate in
    ground (
      arith,
      any-append (λ (x : Row). text_eq x.kind (codes "overrun")) l.rows (row ∷ []),
      any-append (λ (x : Row). text_eq x.kind (codes "bound_unsound")) l.rows (row ∷ []),
    )

write_kept-stopped :
    (l : Ledger) (takes : ℕ → Bool) (entries : List Unwritten)
    → is_stopped l ≡ true
    → is_stopped (write_kept l takes entries).0 ≡ true
unfolding write_kept
write_kept-stopped l takes [] h = h
write_kept-stopped l takes (entry ∷ more) h =
    let id = entry.reservation.id in
    write_kept-stopped (settle l (takes id) entry.now entry.reservation (usage entry.tokens)).0
      takes more (settle-stopped l (takes id) entry.now entry.reservation (usage entry.tokens) h)

retained-stopped :
    (l : Ledger) (written : List ℕ)
    → is_stopped l ≡ true
    → is_stopped (record l { kept = retained written l.kept }) ≡ true
unfolding is_stopped
retained-stopped l written h = ground arith

write_unwritten-stopped :
    (l : Ledger) (takes : ℕ → Bool)
    → is_stopped l ≡ true
    → is_stopped (write_unwritten l takes) ≡ true
unfolding write_unwritten
write_unwritten-stopped l takes h = elim (Option-cases l.kept) [
  | inl e ↦ rw (e, write_unwritten) h
  | inr (kept, e) ↦
      rw (e, write_unwritten)
        (retained-stopped (write_kept l takes kept).0 (write_kept l takes kept).1
          (write_kept-stopped l takes kept h))
]

admit_locked-keeps_stop :
    (l : Ledger) (now : Text) (seconds : ℤ) (job request : Text) (estimate : ℕ)
    → is_stopped l ≡ true
    → is_stopped (admit_locked l now seconds job request estimate).0 ≡ true
admit_locked-keeps_stop l now seconds job request estimate h =
    elim (admit_locked-cases l now seconds job request estimate) [
      | inl (no_stop, within, e) ↦ absurd (any_stop-stopped l h no_stop)
      | inr (refusal, e) ↦
          rw e (write-stopped l now seconds job request (reason refusal) 0 estimate h)
    ]

-- Every answer to an admission behind a stop is a refusal or an error.
abbrev IsRefused : Result Admitted LedgerError → Type 0
IsRefused answer = (r : Reservation) → answer ≢ ok (ok r)

not_admitted-IsRefused : (l : Ledger) (e : LedgerError) → IsRefused (not_admitted l e)
not_admitted-IsRefused l e r = elim (Bool-cases (holds_a_stop l)) [
  | inl h ↦ rw (h, not_admitted) (λ q. cc)
  | inr h ↦ rw (h, not_admitted) (λ q. cc)
]

-- A stopped ledger stays stopped through an admission, and grants nothing.
admit-stopped :
    (l : Ledger) (takes : ℕ → Bool) (admits : Bool) (now job request : Text) (estimate : ℕ)
    → is_stopped l ≡ true
    → let (l', answer) = admit l takes admits now job request estimate in
      (is_stopped l' ≡ true) × IsRefused answer
unfolding admit
admit-stopped l takes false now job request estimate h = (
  write_unwritten-stopped l takes h,
  not_admitted-IsRefused (write_unwritten l takes) cbr.Budget.Ledger.storage,
)
admit-stopped l takes true now job request estimate h =
    let l₁ = write_unwritten l takes in
    let h₁ = write_unwritten-stopped l takes h in
    elim (Option-cases (epoch_seconds now)) [
      | inl e ↦ rw (e, admit) (h₁, not_admitted-IsRefused l₁ (cbr.Budget.Ledger.instant now))
      | inr (seconds, e) ↦
          rw (e, admit)
            (
              admit_locked-keeps_stop l₁ now seconds job request estimate h₁,
              elim (admit_locked-cases l₁ now seconds job request estimate) [
                | inl (no_stop, within, f) ↦ absurd (any_stop-stopped l₁ h₁ no_stop)
                | inr (refusal, f) ↦ rw f (λ r q. cc)
              ],
            )
    ]

-- What a process does with its ledger, whatever the store takes.
pub data Ops (l : Ledger) : Ledger → Type 0 where
  here : Ops l l
  admitted :
      {m : Ledger}
      → Ops l m
      → (takes : ℕ → Bool) (admits : Bool) (now job request : Text) (estimate : ℕ)
      → Ops l (admit m takes admits now job request estimate).0
  settled :
      {m : Ledger}
      → Ops l m
      → (takes : Bool) (now : Text) (r : Reservation) (settlement : Settlement)
      → Ops l (settle m takes now r settlement).0
  noted :
      {m : Ledger}
      → Ops l m
      → (now : Text) (seconds : ℤ) (job request kind : Text) (tokens estimate : ℕ)
      → Ops l (record m { rows = write m.rows now seconds job request kind tokens estimate })

Ops-stopped : {l m : Ledger} → is_stopped l ≡ true → Ops l m → is_stopped m ≡ true
Ops-stopped h here = h
Ops-stopped h (admitted {m} ops takes admits now job request estimate) =
    (admit-stopped m takes admits now job request estimate (Ops-stopped h ops)).0
Ops-stopped h (settled {m} ops takes now r settlement) =
    settle-stopped m takes now r settlement (Ops-stopped h ops)
Ops-stopped h (noted {m} ops now seconds job request kind tokens estimate) =
    write-stopped m now seconds job request kind tokens estimate (Ops-stopped h ops)

-- A bill above its reservation, settled while the reservation is open, stops the ledger whether
-- the store takes the settlement or not.
overrun-stopped :
    (l : Ledger) (takes : Bool) (now : Text) (r : Reservation) (tokens : ℕ)
    → any (is_open r.id) l.rows ≡ true
    → r.estimate < tokens
    → is_stopped (settle l takes now r (usage tokens)).0 ≡ true
unfolding settle
overrun-stopped l takes now r tokens e above = elim (Option-cases (epoch_seconds now)) [
  | inl f ↦ rw (f, settle) unsettled_stop
  | inr (seconds, f) ↦ elim (Bool-cases takes) [
    | inl g ↦ rw (f, settle) (rw g (stopped_by_rows _ (recorded_stop seconds)))
    | inr g ↦ rw (f, settle) (rw g unsettled_stop)
  ]
]
  where
    unsettled_stop : is_stopped (keep l now r (usage tokens)).0 ≡ true
    unsettled_stop = unfold keep is_stopped in ground arith

    recorded_stop :
        (seconds : ℤ) → has_stop_row (settle_locked l.rows now seconds r (usage tokens)) ≡ true
    recorded_stop seconds =
        ground (arith, settle_locked-overrun l.rows now seconds r (usage tokens) e (ground arith))

-- After a call was billed above its open reservation nothing is granted any more, whatever the
-- process does in between and whether or not the store took the settlement.
pub overrun-stops :
    (l m : Ledger) (takes : Bool) (now : Text) (r : Reservation) (tokens : ℕ)
    → any (is_open r.id) l.rows ≡ true
    → r.estimate < tokens
    → Ops (settle l takes now r (usage tokens)).0 m
    → (takes' : ℕ → Bool) (admits : Bool) (now' job request : Text) (estimate : ℕ)
      (granted : Reservation)
    → (admit m takes' admits now' job request estimate).1 ≢ ok (ok granted)
overrun-stops l m takes now r tokens e above ops takes' admits now' job request estimate =
    (admit-stopped m takes' admits now' job request estimate
      (Ops-stopped (overrun-stopped l takes now r tokens e above) ops)).1
