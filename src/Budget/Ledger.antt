-- ===== src/Budget/Ledger.antt =====
-- crates/cbr-provider/src/budget.rs: admission and settlement. A ledger is the table of one store
-- with a file, and what this process keeps for that file (`UNWRITTEN`). Whether the store takes a
-- transaction is given by a Boolean from outside; a transaction that it does not take leaves the
-- table as it was.
use cbr.Prelude.Results.{Result, ok, err}
use cbr.Prelude.{
  ℕ, suc, ◌+◌, Bool, true, false, not, ◌&&◌, ◌||◌, Option, none, some, List, [], ◌∷◌, ◌++◌, Text,
  codes, text_eq, any, length, ltb, ◌==◌, if◌then◌else◌, ℤ,
}
use cbr.Clock.Instants.{epoch_seconds}
use cbr.Budget.Refusals.{
  Refusal, window_exhausted, month_exhausted, per_request, per_job, run_ceiling, overrun,
  bound_unsound, reason, Settlement, usage, usage_unknown, nothing_spent, provider_exhausted,
  window_tokens, month_tokens, per_request_tokens, per_job_tokens,
}
use cbr.Budget.Rows.{Row, Rows, total, in_window, in_month, of_job, every, recorded}

pub record Reservation : Type 0 where
  pub id : ℕ
  pub estimate : ℕ

-- A settlement above its reservation that the store did not take.
pub record Unwritten : Type 0 where
  pub now : Text
  pub reservation : Reservation
  pub tokens : ℕ

-- `kept` is the entry of `UNWRITTEN` at the store's file: `none` while there is none.
pub record Ledger : Type 0 where
  pub rows : Rows
  pub ceiling : Option ℕ
  pub kept : Option (List Unwritten)

pub data LedgerError : Type 0 where
  storage : LedgerError
  instant : Text → LedgerError

pub record Spend : Type 0 where
  pub window : ℕ
  pub month : ℕ
  pub job : ℕ

unfoldable pub spend : Rows → Text → ℤ → Text → Spend
unfolding total
spend rows now seconds job = record {
  window = total (in_window seconds) rows;
  month = total (in_month now) rows;
  job = total (of_job job) rows;
}

-- The kinds that `write` folds into one. `run_over_ceiling` is not among them.
abbrev pub folded_kind : Text → Text
folded_kind kind =
    if text_eq kind (codes "budget_exhausted")
      || (text_eq kind (codes "request_over_ceiling")
          || (text_eq kind (codes "job_over_ceiling")
              || (text_eq kind (codes "reservation_overrun")
                  || text_eq kind (codes "local_bound_unsound"))))
    then codes "refusal"
    else kind

-- Rows are never removed, so the next id is one past their number.
unfoldable pub new_row : Rows → Text → ℤ → Text → Text → Text → ℕ → ℕ → Row
new_row rows now seconds job request kind tokens estimate = record {
  id = suc (length rows);
  job = job;
  request = request;
  kind = folded_kind kind;
  tokens = tokens;
  estimate = estimate;
  recorded_at = now;
  seconds = seconds;
}

-- `write`, and so `note`, at an instant that can be read.
unfoldable pub write : Rows → Text → ℤ → Text → Text → Text → ℕ → ℕ → Rows
unfolding new_row
write rows now seconds job request kind tokens estimate =
    rows ++ new_row rows now seconds job request kind tokens estimate ∷ []

-- The stop that the store has recorded.
unfoldable pub stop : Rows → Option Refusal
unfolding recorded
stop rows =
    if recorded (codes "bound_unsound") rows
    then some bound_unsound
    else if recorded (codes "overrun") rows
    then some overrun
    else none

abbrev pub is_kept : Option (List Unwritten) → Bool
is_kept none = false
is_kept (some kept) = true

unfoldable pub holds_a_stop : Ledger → Bool
holds_a_stop l = is_kept l.kept

-- The store's stop, then the process's.
unfoldable pub any_stop : Ledger → Option Refusal
unfolding stop holds_a_stop
any_stop l = elim (stop l.rows) [
  | some refusal ↦ some refusal
  | none ↦ if holds_a_stop l then some overrun else none
]

abbrev pub over_ceiling : Option ℕ → ℕ → Bool
over_ceiling none amount = false
over_ceiling (some ceiling) amount = ltb ceiling amount

-- The ceilings, in their order.
unfoldable pub over : Option ℕ → Spend → ℕ → ℕ → Option Refusal
over ceiling spent run estimate =
    if ltb per_request_tokens estimate
    then some per_request
    else if ltb per_job_tokens (spent.job + estimate)
    then some per_job
    else if ltb window_tokens (spent.window + estimate)
    then some window_exhausted
    else if ltb month_tokens (spent.month + estimate)
    then some month_exhausted
    else if over_ceiling ceiling (run + estimate)
    then some run_ceiling
    else none

abbrev pub Admitted : Type 0
Admitted = Result Reservation Refusal

-- A refusal is recorded as an event that spends nothing.
abbrev pub refuse : Ledger → Text → ℤ → Text → Text → ℕ → Refusal → Ledger × Admitted
refuse l now seconds job request estimate refusal = (
  record l { rows = write l.rows now seconds job request (reason refusal) 0 estimate },
  err refusal,
)

unfoldable pub admit_locked : Ledger → Text → ℤ → Text → Text → ℕ → Ledger × Admitted
admit_locked l now seconds job request estimate = elim (any_stop l) [
  | some refusal ↦ refuse l now seconds job request estimate refusal
  | none ↦ elim (over l.ceiling (spend l.rows now seconds job) (total every l.rows) estimate) [
    | some refusal ↦ refuse l now seconds job request estimate refusal
    | none ↦ (
      record l {
        rows = write l.rows now seconds job request (codes "reservation") estimate estimate;
      },
      ok (record { id = suc (length l.rows); estimate = estimate }),
    )
  ]
]

-- The settled row of a reservation, and the tokens that a settlement names.
abbrev pub settled_kind : Settlement → Text
settled_kind (usage tokens) = codes "usage"
settled_kind usage_unknown = codes "unknown"
settled_kind nothing_spent = codes "not_sent"
settled_kind provider_exhausted = codes "provider_exhausted"

abbrev pub settled_tokens : Settlement → ℕ → ℕ
settled_tokens (usage tokens) estimate = tokens
settled_tokens usage_unknown estimate = estimate
settled_tokens nothing_spent estimate = 0
settled_tokens provider_exhausted estimate = 0

-- `WHERE id = ?5 AND kind = 'reservation'`
abbrev pub is_open : ℕ → Row → Bool
is_open id row = row.id == id && text_eq row.kind (codes "reservation")

unfoldable pub settle_row : Text → ℤ → Settlement → Row → Row
settle_row now seconds settlement row = record row {
  kind = settled_kind settlement;
  tokens = settled_tokens settlement row.tokens;
  recorded_at = now;
  seconds = seconds;
}

-- The `UPDATE`, over the rows that it fits.
unfoldable pub settle_rows : ℕ → Text → ℤ → Settlement → Rows → Rows
unfolding settle_row
settle_rows id now seconds settlement [] = []
settle_rows id now seconds settlement (row ∷ rows) =
    (if is_open id row then settle_row now seconds settlement row else row)
    ∷ settle_rows id now seconds settlement rows

-- The bill above its reservation, if the settlement is one.
abbrev pub bill_above : Settlement → ℕ → Bool
bill_above (usage tokens) estimate = ltb estimate tokens
bill_above _ estimate = false

abbrev pub bill : Settlement → ℕ
bill (usage tokens) = tokens
bill _ = 0

-- `INSERT … SELECT job, request, 'overrun', … WHERE id = ?5`: one row for each row of that id.
unfoldable pub overrun_rows : Reservation → Text → ℤ → ℕ → ℕ → Rows → Rows
overrun_rows reservation now seconds tokens next [] = []
overrun_rows reservation now seconds tokens next (row ∷ rows) =
    let more = overrun_rows reservation now seconds tokens (suc next) rows in
    if row.id == reservation.id
    then record {
      id = next;
      job = row.job;
      request = row.request;
      kind = codes "overrun";
      tokens = tokens;
      estimate = reservation.estimate;
      recorded_at = now;
      seconds = seconds;
    }
      ∷ more
    else overrun_rows reservation now seconds tokens next rows

unfoldable pub settle_locked : Rows → Text → ℤ → Reservation → Settlement → Rows
settle_locked rows now seconds reservation settlement =
    if not (any (is_open reservation.id) rows)
    then rows
    else (let settled = settle_rows reservation.id now seconds settlement rows in
        if bill_above settlement reservation.estimate
        then settled
          ++ overrun_rows reservation now seconds (bill settlement) (suc (length rows)) settled
        else settled)

abbrev pub kept_list : Option (List Unwritten) → List Unwritten
kept_list none = []
kept_list (some kept) = kept

abbrev pub is_for : ℕ → Unwritten → Bool
is_for id entry = entry.reservation.id == id

-- A bill above its reservation is kept once; any other settlement is not kept.
unfoldable pub keep : Ledger → Text → Reservation → Settlement → Ledger × Bool
keep l now reservation settlement =
    if bill_above settlement reservation.estimate
    then (let kept = kept_list l.kept in
        (
          record l {
            kept = some (
                if any (is_for reservation.id) kept
                then kept
                else kept
                  ++ record { now = now; reservation = reservation; tokens = bill settlement }
                    ∷ []);
          },
          true,
        ))
    else (l, false)

-- The error of a settlement that was not taken, with whether it was kept.
pub record Unsettled : Type 0 where
  pub error : LedgerError
  pub is_kept : Bool

unfoldable pub unsettled :
    Ledger → Text → Reservation → Settlement → LedgerError → Ledger × Result (Unit {0}) Unsettled
unfolding keep
unsettled l now reservation settlement error =
    let (l', kept) = keep l now reservation settlement in
    (l', err (record { error = error; is_kept = kept }))

unfoldable pub settle :
    Ledger → Bool → Text → Reservation → Settlement → Ledger × Result (Unit {0}) Unsettled
unfolding unsettled
settle l takes now reservation settlement = elim (epoch_seconds now) [
  | none ↦ unsettled l now reservation settlement (instant now)
  | some seconds ↦
      if takes
      then (record l { rows = settle_locked l.rows now seconds reservation settlement }, ok tt)
      else unsettled l now reservation settlement storage
]

abbrev written_id : ℕ → Ledger × Result (Unit {0}) Unsettled → List ℕ
written_id id (l, ok done) = id ∷ []
written_id id (l, err e) = []

-- The pass over what is kept: the ledger behind it, and the reservations that were written.
unfoldable pub write_kept : Ledger → (ℕ → Bool) → List Unwritten → Ledger × List ℕ
write_kept l takes [] = (l, [])
write_kept l takes (entry ∷ more) =
    let id = entry.reservation.id in
    let r = settle l (takes id) entry.now entry.reservation (usage entry.tokens) in
    let (l', written) = write_kept r.0 takes more in (l', written_id id r ++ written)

-- `kept.retain(|kept| !written.contains(&kept.reservation.id))`
unfoldable pub retain : List ℕ → List Unwritten → List Unwritten
retain written [] = []
retain written (entry ∷ more) =
    if any (λ id. id == entry.reservation.id) written
    then retain written more
    else entry ∷ retain written more

abbrev pub retained : List ℕ → Option (List Unwritten) → Option (List Unwritten)
retained written none = none
retained written (some kept) = some (retain written kept)

unfoldable pub write_unwritten : Ledger → (ℕ → Bool) → Ledger
unfolding write_kept retain
write_unwritten l takes = elim l.kept [
  | none ↦ l
  | some kept ↦
      let (l', written) = write_kept l takes kept in record l' { kept = retained written l'.kept }
]

-- An admission that the store could not make: the process's stop stands in for its error.
abbrev pub not_admitted : Ledger → LedgerError → Result Admitted LedgerError
not_admitted l e = elim (holds_a_stop l) [ true ↦ ok (err overrun) | false ↦ err e ]

abbrev pub answered : Ledger × Admitted → Ledger × Result Admitted LedgerError
answered (l, admitted) = (l, ok admitted)

-- `takes` is given for each kept settlement, by its reservation, and `admits` for the admission
-- itself.
unfoldable pub admit :
    Ledger → (ℕ → Bool) → Bool → Text → Text → Text → ℕ → Ledger × Result Admitted LedgerError
admit l takes admits now job request estimate =
    let l₁ = write_unwritten l takes in
    if not admits then (l₁, not_admitted l₁ storage) else elim (epoch_seconds now) [
      | none ↦ (l₁, not_admitted l₁ (instant now))
      | some seconds ↦ answered (admit_locked l₁ now seconds job request estimate)
    ]
