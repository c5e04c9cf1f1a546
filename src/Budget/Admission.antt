-- ===== src/Budget/Admission.antt =====
-- What an admission guarantees, and what a refusal leaves alone.
use cbr.Prelude.Results.{ok}
use cbr.Prelude.{
  ℕ, suc, ◌+◌, ◌≤◌, ◌≡◌, ◌≢◌, refl, ap, subst, ◌⊎◌, inl, inr, arith, Bool, true, false, Option,
  none, some, [], ◌∷◌, Text, codes, ℤ, length, Option-cases,
}
use cbr.Clock.Instants.{epoch_seconds}
use cbr.Budget.Rows.{Row, Rows, total, in_window, in_month, of_job, every}
use cbr.Budget.Refusals.{
  Refusal, reason, window_tokens, month_tokens, per_request_tokens, per_job_tokens,
}
use cbr.Budget.Ledger.{
  Ledger, Reservation, Spend, spend, new_row, write, any_stop, over, answered, refuse, admit_locked,
  admit, Admitted, write_unwritten,
}
use cbr.Budget.Spend.{total-append, total-row-le}

-- The run ceiling of a launch, if it has one.
abbrev pub UnderCeiling : Option ℕ → ℕ → Type 0
UnderCeiling none amount = Unit
UnderCeiling (some ceiling) amount = amount ≤ ceiling

over-none :
    (ceiling : Option ℕ) (s : Spend) (run estimate : ℕ)
    → over ceiling s run estimate ≡ none
    → (estimate ≤ per_request_tokens)
      × (s.job + estimate ≤ per_job_tokens)
      × (s.window + estimate ≤ window_tokens)
      × (s.month + estimate ≤ month_tokens)
      × UnderCeiling ceiling (run + estimate)
unfolding over
over-none none s run estimate h = (ground arith, ground arith, ground arith, ground arith, tt)
over-none (some c) s run estimate h = ground arith

-- What an admission has made sure of, with the reservation counted.
pub record IsWithin (l l' : Ledger) (now : Text) (seconds : ℤ) (job : Text) (r : Reservation)
    : Type 0 where
  pub no_stop : any_stop l ≡ none
  pub request : r.estimate ≤ per_request_tokens
  pub job_total : (spend l'.rows now seconds job).job ≤ per_job_tokens
  pub window_total : (spend l'.rows now seconds job).window ≤ window_tokens
  pub month_total : (spend l'.rows now seconds job).month ≤ month_tokens
  pub run_total : UnderCeiling l.ceiling (total every l'.rows)

total-write :
    (test : Row → Bool) (rows : Rows) (now : Text) (seconds : ℤ) (job request kind : Text)
    (tokens estimate : ℕ)
    → total test (write rows now seconds job request kind tokens estimate)
      ≤ total test rows + tokens
unfolding write new_row
total-write test rows now seconds job request kind tokens estimate =
    let row = new_row rows now seconds job request kind tokens estimate in
    omega (arith, total-append test rows (row ∷ []), total-row-le test row)

UnderCeiling-le :
    (ceiling : Option ℕ) (a b : ℕ) → a ≤ b → UnderCeiling ceiling b → UnderCeiling ceiling a
UnderCeiling-le none a b h k = tt
UnderCeiling-le (some c) a b h k = omega arith

-- The three ways of an admission.
module _ (l : Ledger) (now : Text) (seconds : ℤ) (job request : Text) (estimate : ℕ) where
  abbrev pub limits : Option Refusal
  limits = over l.ceiling (spend l.rows now seconds job) (total every l.rows) estimate

  pub admit_locked-stopped :
      (refusal : Refusal)
      → any_stop l ≡ some refusal
      → admit_locked l now seconds job request estimate
        ≡ refuse l now seconds job request estimate refusal
  unfolding admit_locked
  admit_locked-stopped refusal e = rw (e, admit_locked)

  pub admit_locked-over :
      (refusal : Refusal)
      → any_stop l ≡ none
      → limits ≡ some refusal
      → admit_locked l now seconds job request estimate
        ≡ refuse l now seconds job request estimate refusal
  unfolding admit_locked
  admit_locked-over refusal e f = rw (e, admit_locked) (rw f)

  abbrev pub grant : Ledger × Admitted
  grant = (
    record l {
      rows = write l.rows now seconds job request (codes "reservation") estimate estimate;
    },
    ok (record { id = suc (length l.rows); estimate = estimate }),
  )

  pub admit_locked-granted :
      any_stop l ≡ none → limits ≡ none → admit_locked l now seconds job request estimate ≡ grant
  unfolding admit_locked
  admit_locked-granted e f = rw (e, admit_locked) (rw f)

  -- An answer is a grant behind no stop and under every limit, or a refusal.
  pub admit_locked-cases :
      ((any_stop l ≡ none)
        × (limits ≡ none)
        × (admit_locked l now seconds job request estimate ≡ grant))
      ⊎ ((refusal : Refusal) × (admit_locked l now seconds job request estimate
            ≡ refuse l now seconds job request estimate refusal))
  admit_locked-cases = elim (Option-cases (any_stop l)) [
    | inr (refusal, e) ↦ inr (refusal, admit_locked-stopped refusal e)
    | inl e ↦ elim (Option-cases limits) [
      | inr (refusal, f) ↦ inr (refusal, admit_locked-over refusal e f)
      | inl f ↦ inl (e, f, admit_locked-granted e f)
    ]
  ]

  grant-IsWithin :
      any_stop l ≡ none
      → limits ≡ none
      → IsWithin l grant.0 now seconds job
          (record { id = suc (length l.rows); estimate = estimate })
  unfolding spend
  grant-IsWithin e f =
      let (request_le, job_le, window_le, month_le, run_le) =
        over-none l.ceiling (spend l.rows now seconds job) (total every l.rows) estimate f in
      let grown = λ (test : Row → Bool).
        total-write test l.rows now seconds job request (codes "reservation") estimate estimate in
      record {
        no_stop = e;
        request = request_le;
        job_total = omega (arith, grown (of_job job));
        window_total = omega (arith, grown (in_window seconds));
        month_total = omega (arith, grown (in_month now));
        run_total = UnderCeiling-le l.ceiling _ _ (grown every) run_le;
      }

  -- A refusal changes no counter: no sum over the spent rows sees its row.
  refuse-total :
      (refusal : Refusal) (test : Row → Bool)
      → total test (refuse l now seconds job request estimate refusal).0.rows ≡ total test l.rows
  unfolding write new_row
  refuse-total refusal test =
      let row = new_row l.rows now seconds job request (reason refusal) 0 estimate in
      omega (arith, total-append test l.rows (row ∷ []), total-row-le test row)

admit-readable :
    (l : Ledger) (takes : ℕ → Bool) (now : Text) (seconds : ℤ) (job request : Text) (estimate : ℕ)
    → epoch_seconds now ≡ some seconds
    → admit l takes true now job request estimate
      ≡ answered (admit_locked (write_unwritten l takes) now seconds job request estimate)
unfolding admit
admit-readable l takes now seconds job request estimate e = rw (e, admit)

-- A reservation is granted only behind no stop, of the store or of the process, and only if with
-- it counted the request, its job, the window, the month and the run stay within their limits.
pub admit-IsWithin :
    (l : Ledger) (takes : ℕ → Bool) (now : Text) (seconds : ℤ) (job request : Text) (estimate : ℕ)
    (r : Reservation)
    → epoch_seconds now ≡ some seconds
    → (admit l takes true now job request estimate).1 ≡ ok (ok r)
    → IsWithin
        (write_unwritten l takes)
        (admit l takes true now job request estimate).0
        now
        seconds
        job
        r
admit-IsWithin l takes now seconds job request estimate r e =
    rw (admit-readable l takes now seconds job request estimate e)
      (elim (admit_locked-cases (write_unwritten l takes) now seconds job request estimate) [
        | inr (refusal, f) ↦ rw f (λ h. cc)
        | inl (no_stop, within, f) ↦ rw f λ h.
            let same : record {
              id = suc (length (write_unwritten l takes).rows);
              estimate = estimate;
            }
                ≡ r =
              cc in
            subst
              (IsWithin (write_unwritten l takes)
                (grant (write_unwritten l takes) now seconds job request estimate).0 now seconds
                job)
              same
              (grant-IsWithin (write_unwritten l takes) now seconds job request estimate no_stop
                within)
      ])

-- An answer without a reservation leaves every sum as it was.
admit_locked-spends_nothing :
    (l : Ledger) (now : Text) (seconds : ℤ) (job request : Text) (estimate : ℕ) (test : Row → Bool)
    → ((r : Reservation) → (admit_locked l now seconds job request estimate).1 ≢ ok r)
    → total test (admit_locked l now seconds job request estimate).0.rows ≡ total test l.rows
admit_locked-spends_nothing l now seconds job request estimate test =
    elim (admit_locked-cases l now seconds job request estimate) [
      | inr (refusal, f) ↦ rw f (λ h. refuse-total l now seconds job request estimate refusal test)
      | inl (no_stop, within, f) ↦
          rw f (λ h. absurd (h (record { id = suc (length l.rows); estimate = estimate }) refl))
    ]

-- An admission that grants nothing, because it is refused, its instant is unreadable or the store
-- does not take it, spends nothing: every sum over the spent rows is what it is once the bills
-- that the process kept are written, as each admission writes them first.
pub refused-spends_nothing :
    (l : Ledger) (takes : ℕ → Bool) (admits : Bool) (now job request : Text) (estimate : ℕ)
    (test : Row → Bool)
    → ((r : Reservation) → (admit l takes admits now job request estimate).1 ≢ ok (ok r))
    → total test (admit l takes admits now job request estimate).0.rows
      ≡ total test (write_unwritten l takes).rows
unfolding admit
refused-spends_nothing l takes false now job request estimate test = λ h. refl
refused-spends_nothing l takes true now job request estimate test =
    elim (Option-cases (epoch_seconds now)) [
      | inl e ↦ rw (e, admit) (λ h. refl)
      | inr (seconds, e) ↦
          rw (e, admit)
            (λ h.
              admit_locked-spends_nothing (write_unwritten l takes) now seconds job request estimate
                test (λ r k. h r (ap ok k)))
    ]
