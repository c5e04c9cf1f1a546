-- ===== src/Examples/Tokens.antt =====
-- Runs of the ledger.
use cbr.Prelude.Results.{ok, err}
use cbr.Prelude.{
  ℕ, ◌≡◌, ◌≢◌, refl, Bool, true, false, some, none, [], ◌∷◌, Text, codes, any, text_eq, arith, pos,
  ◌+ℤ◌, scale, ◌-ℤ◌, div_euclid,
}
use cbr.Clock.Instants.{epoch_seconds, day_of_era}
use cbr.Budget.Refusals.{per_request, usage}
use cbr.Budget.Rows.{total, every}
use cbr.Budget.Ledger.{
  Ledger, Reservation, admit, admit_locked, settle, is_open, write_unwritten, any_stop, over, spend,
}
use cbr.Budget.Admission.{IsWithin, admit-IsWithin, refused-spends_nothing}
use cbr.Budget.Stops.{here, admitted, overrun-stops}
use cbr.Budget.Once.{settles_once}

abbrev empty_ledger : Ledger
empty_ledger = record { rows = []; ceiling = some 5000; kept = none }

abbrev an_instant : Text
an_instant = codes "2026-01-02T00:00:00Z"

instant_read : epoch_seconds an_instant ≡ some (pos 1767312000)
unfolding epoch_seconds ◌+ℤ◌ scale ◌-ℤ◌ div_euclid day_of_era
instant_read = refl

abbrev granted : Reservation
granted = record { id = 1; estimate = 1000 }

abbrev takes_all : ℕ → Bool
takes_all id = true

is_granted :
    (admit empty_ledger takes_all true an_instant (codes "j") (codes "r") 1000).1 ≡ ok (ok granted)
unfolding admit epoch_seconds admit_locked any_stop write_unwritten over spend
is_granted = refl

admit-IsWithin_example :
    IsWithin
      (write_unwritten empty_ledger takes_all)
      (admit empty_ledger takes_all true an_instant (codes "j") (codes "r") 1000).0
      an_instant
      (pos 1767312000)
      (codes "j")
      granted
admit-IsWithin_example =
    admit-IsWithin empty_ledger takes_all an_instant (pos 1767312000) (codes "j") (codes "r") 1000
      granted instant_read is_granted

is_refused :
    (admit empty_ledger takes_all true an_instant (codes "j") (codes "r") 10000000).1
    ≡ ok (err per_request)
unfolding admit epoch_seconds admit_locked any_stop write_unwritten over
is_refused = refl

is_not_granted :
    (r : Reservation)
    → (admit empty_ledger takes_all true an_instant (codes "j") (codes "r") 10000000).1 ≢ ok (ok r)
is_not_granted r = rw is_refused (λ h. cc)

refused-spends_nothing_example :
    total every
      (admit empty_ledger takes_all true an_instant (codes "j") (codes "r") 10000000).0.rows
    ≡ total every (write_unwritten empty_ledger takes_all).rows
refused-spends_nothing_example =
    refused-spends_nothing empty_ledger takes_all true an_instant (codes "j") (codes "r") 10000000
      every is_not_granted

-- A ledger with one open reservation, which is then billed above its estimate.
abbrev open_ledger : Ledger
open_ledger = record {
  rows =
      record {
        id = 1;
        job = codes "j";
        request = codes "r";
        kind = codes "reservation";
        tokens = 1000;
        estimate = 1000;
        recorded_at = an_instant;
        seconds = pos 1767312000;
      }
      ∷ [];
  ceiling = none;
  kept = none;
}

is_open_row : any (is_open 1) open_ledger.rows ≡ true
unfolding text_eq
is_open_row = refl

overrun-stops_example :
    (admit
      (settle open_ledger false an_instant granted (usage 2000)).0
      takes_all
      true
      an_instant
      (codes "j")
      (codes "s")
      1).1
    ≢ ok (ok granted)
overrun-stops_example =
    overrun-stops open_ledger (settle open_ledger false an_instant granted (usage 2000)).0 false
      an_instant granted 2000 is_open_row (omega arith) here takes_all true an_instant (codes "j")
      (codes "s") 1 granted

-- The same reservation is settled within its estimate, and billed again after another admission.
abbrev settled_ledger : Ledger
settled_ledger = (settle open_ledger true an_instant granted (usage 500)).0

abbrev busy_ledger : Ledger
busy_ledger = (admit settled_ledger takes_all true an_instant (codes "j") (codes "s") 1).0

settles_once_example :
    (settle busy_ledger true an_instant granted (usage 2000)).0.rows ≡ busy_ledger.rows
settles_once_example =
    settles_once open_ledger busy_ledger an_instant (pos 1767312000) granted (usage 500)
      instant_read (omega arith) (admitted here takes_all true an_instant (codes "j") (codes "s") 1)
      true an_instant granted (usage 2000) refl
