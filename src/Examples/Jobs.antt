-- ===== src/Examples/Jobs.antt =====
-- Runs of the work pool and of the effect records.
use cbr.Prelude.{
  ℕ, ◌≡◌, ◌≤◌, refl, true, false, some, none, List, [], ◌∷◌, codes, All, text_eq, starts_with,
}
use cbr.Encoding.Value.{Value, get, Items, item, no_items, array}
use cbr.Work.{
  Pool, settled_done, produced, Event, asks, ends, releases, releases_all, running, step,
  thread_ends, settle, progress, run, new_pool, concurrency,
}
use cbr.Work.Bound.{running-bounded}
use cbr.Work.Answers.{HasSettled, Spares, reported, settled-kept}
use cbr.Effects.{
  non_repeatable, new_record, observation, status, abort, obligation_waiting, mark_overdue, observe,
  is_settled, any_item, items_at,
}
use cbr.Effects.Waits.{
  awaits_outcome, abort-ends_wait, mark_overdue-keeps_waits, observe-status, observe-satisfies,
  observe-keeps_waits,
}

abbrev three_asks : List (Event ℕ)
three_asks = asks (codes "a") false ∷ asks (codes "b") false ∷ asks (codes "c") false ∷ []

running-bounded_example : running (run (new_pool ℕ concurrency) three_asks).slots ≤ concurrency
running-bounded_example = running-bounded ℕ concurrency three_asks

-- One unit was asked for, ended with 7, and was asked for again.
abbrev finished_pool : Pool ℕ
finished_pool =
    run (new_pool ℕ concurrency)
      (asks (codes "a") false ∷ ends (codes "a") (produced 7) ∷ asks (codes "a") false ∷ [])

finished_pool-HasSettled : HasSettled finished_pool (codes "a") (settled_done 7)
unfolding run step progress thread_ends text_eq settle
finished_pool-HasSettled = record {
  slot = record { handle = none; settled = some (settled_done 7) };
  found = refl;
  settled_eq = refl;
}

abbrev later_events : List (Event ℕ)
later_events = asks (codes "b") false ∷ releases (codes "b") ∷ releases_all (codes "x") ∷ []

later_events-Spares : All (Spares (codes "a")) later_events
unfolding text_eq starts_with
later_events-Spares = (tt, (refl, (refl, tt)))

settled-kept_example :
    (progress (run finished_pool later_events) (codes "a") true).0 ≡ reported (settled_done 7)
settled-kept_example =
    settled-kept ℕ finished_pool (codes "a") (settled_done 7) later_events true
      finished_pool-HasSettled later_events-Spares

abbrev model_call : Value
model_call =
    new_record
      (record {
        kind = codes "cbr.model_call";
        target = record { kind = codes "subject"; id = codes "s-1" };
        payload_digest = codes "sha256:00";
        retry_class = non_repeatable;
        idempotency_key = none;
        obligations =
            record { id = codes "o-1"; expects = codes "outcome"; deadline = some (codes "2030") }
            ∷ [];
      })
      (codes "op-1.e1") (codes "op-1") (codes "owner") none (codes "2029")

abbrev first_observation : Items
first_observation =
    item
      (observation (codes "pending") (codes "provider")
        (codes "recorded before any external action") (codes "2029"))
      no_items

has_observations : get model_call (codes "observations") ≡ some (array first_observation)
unfolding get text_eq
has_observations = refl

abort-ends_wait_example :
    (obligation_waiting (abort model_call (codes "o-1")) (codes "o-1") ≡ false)
    × (status (abort model_call (codes "o-1")) ≡ status model_call)
abort-ends_wait_example = abort-ends_wait model_call (codes "o-1")

mark_overdue-keeps_waits_example :
    (obligation_waiting (mark_overdue model_call (codes "2031")).0 (codes "o-1")
      ≡ obligation_waiting model_call (codes "o-1"))
    × (status (mark_overdue model_call (codes "2031")).0 ≡ status model_call)
mark_overdue-keeps_waits_example = mark_overdue-keeps_waits model_call (codes "2031") (codes "o-1")

observe-status_example :
    status (observe model_call (codes "failed") (codes "provider") (codes "exit") (codes "2030"))
    ≡ codes "failed"
observe-status_example =
    observe-status model_call first_observation (codes "failed") (codes "provider") (codes "exit")
      (codes "2030") has_observations

failed_is_settled : is_settled (codes "failed") ≡ true
unfolding text_eq
failed_is_settled = refl

observe-satisfies_example :
    any_item awaits_outcome (
      items_at
        (observe model_call (codes "failed") (codes "provider") (codes "exit") (codes "2030"))
        (codes "obligations"))
    ≡ false
observe-satisfies_example =
    observe-satisfies model_call (codes "failed") (codes "provider") (codes "exit") (codes "2030")
      failed_is_settled

unknown_is_open : is_settled (codes "unknown") ≡ false
unfolding text_eq
unknown_is_open = refl

observe-keeps_waits_example :
    obligation_waiting
      (observe model_call (codes "unknown") (codes "provider") (codes "exit") (codes "2030"))
      (codes "o-1")
    ≡ obligation_waiting model_call (codes "o-1")
observe-keeps_waits_example =
    observe-keeps_waits model_call (codes "unknown") (codes "provider") (codes "exit")
      (codes "2030") (codes "o-1") unknown_is_open
