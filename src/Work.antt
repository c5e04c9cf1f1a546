-- ===== src/Work.antt =====
-- crates/cbr-provider/src/work.rs: the pool of work that left the preparation tick. The map is an
-- association list; what the threads do is events of the model, and a value is any type's.
pub mod Branches
pub mod Bound
pub mod Answers
use cbr.Prelude.{
  ℕ, zero, suc, ◌+◌, Bool, true, false, ◌&&◌, not, Option, none, some, List, [], ◌∷◌, ◌++◌, Text,
  codes, text_eq, starts_with, leb, if◌then◌else◌,
}

-- `CONCURRENCY`
abbrev pub concurrency : ℕ
concurrency = 2

module _ (A : Type 0) where
  pub data Progress : Type 0 where
    is_running deferred timed_out : Progress
    done : A → Progress
    failed : Text → Progress

  pub data Settled : Type 0 where
    settled_done : A → Settled
    settled_failed : Text → Settled
    settled_timed_out : Settled

  -- How a thread ended: its result, or a panic.
  pub data Ending : Type 0 where
    produced : A → Ending
    refused : Text → Ending
    panicked : Ending

  pub data Thread : Type 0 where
    alive : Thread
    ended : Ending → Thread

  pub record Slot : Type 0 where
    pub handle : Option Thread
    pub settled : Option Settled

  pub record Pool : Type 0 where
    pub bound : ℕ
    pub slots : List (Text × Slot)

module _ {A : Type 0} where
  -- `Slot::running`: in flight.
  abbrev pub in_flight : Slot A → Bool
  in_flight slot = elim slot.settled [
    | some answer ↦ false
    | none ↦ elim slot.handle [
      | none ↦ false
      | some thread ↦ elim thread [ alive ↦ true | ended ending ↦ false ]
    ]
  ]

  -- `Pool::running`: how many are.
  abbrev pub running : List (Text × Slot A) → ℕ
  running [] = 0
  running ((key, slot) ∷ slots) = if in_flight slot then suc (running slots) else running slots

  abbrev pub join : Ending A → Settled A
  join (produced value) = settled_done value
  join (refused reason) = settled_failed reason
  join panicked = settled_failed (codes "work_panicked")

  -- What asking does to a slot: a thread that has finished settles, and one whose deadline has
  -- passed is let go of.
  unfoldable pub settle : Bool → Slot A → Slot A
  settle late slot = elim slot.settled [
    | some answer ↦ slot
    | none ↦
        let let_go =
          if late then record { handle = none; settled = some settled_timed_out } else slot in
        elim slot.handle [
          | none ↦ let_go
          | some thread ↦ elim thread [
            | ended ending ↦ record { handle = none; settled = some (join ending) }
            | alive ↦ let_go
          ]
        ]
  ]

  abbrev pub answer : Slot A → Progress A
  answer slot = elim slot.settled [
    | none ↦ is_running
    | some settled ↦ elim settled [
      | settled_done value ↦ done value
      | settled_failed reason ↦ failed reason
      | settled_timed_out ↦ timed_out
    ]
  ]

  abbrev pub find : List (Text × Slot A) → Text → Option (Slot A)
  find [] key = none
  find ((k, slot) ∷ slots) key = if text_eq k key then some slot else find slots key

  abbrev pub replace : List (Text × Slot A) → Text → Slot A → List (Text × Slot A)
  replace [] key new = []
  replace ((k, slot) ∷ slots) key new =
      if text_eq k key then (k, new) ∷ slots else (k, slot) ∷ replace slots key new

  abbrev pub retain : (Text → Bool) → List (Text × Slot A) → List (Text × Slot A)
  retain p [] = []
  retain p ((k, slot) ∷ slots) = if p k then (k, slot) ∷ retain p slots else retain p slots

  -- `late` is that the deadline, if there is one, has passed.
  unfoldable pub progress : Pool A → Text → Bool → Progress A × Pool A
  progress pool key late = elim (find pool.slots key) [
    | some slot ↦ (
      answer (settle late slot),
      record pool { slots = replace pool.slots key (settle late slot) },
    )
    | none ↦ if leb pool.bound (running pool.slots) then (deferred, pool) else (
      is_running,
      record pool {
        slots = pool.slots ++ (key, record { handle = some alive; settled = none }) ∷ [];
      },
    )
  ]

  -- `release`, and `cancel`, which is the same.
  unfoldable pub release : Pool A → Text → Pool A
  release pool key = record pool { slots = retain (λ k. not (text_eq k key)) pool.slots }

  unfoldable pub release_all : Pool A → Text → Pool A
  release_all pool prefix = record pool {
    slots = retain (λ k. not (starts_with prefix k)) pool.slots;
  }

  -- The thread of a slot ends.
  abbrev ends_in : Ending A → Slot A → Slot A
  ends_in ending slot = elim slot.handle [
    | none ↦ slot
    | some thread ↦ elim thread [
      | alive ↦ record slot { handle = some (ended ending) }
      | ended before ↦ slot
    ]
  ]

  unfoldable pub thread_ends : Pool A → Text → Ending A → Pool A
  thread_ends pool key ending = elim (find pool.slots key) [
    | none ↦ pool
    | some slot ↦ record pool { slots = replace pool.slots key (ends_in ending slot) }
  ]

module _ (A : Type 0) where
  pub data Event : Type 0 where
    asks : Text → Bool → Event
    ends : Text → Ending A → Event
    releases : Text → Event
    releases_all : Text → Event

module _ {A : Type 0} where
  unfoldable pub step : Pool A → Event A → Pool A
  step pool (asks key late) = let (answered, after) = progress pool key late in after
  step pool (ends key ending) = thread_ends pool key ending
  step pool (releases key) = release pool key
  step pool (releases_all prefix) = release_all pool prefix

  unfoldable pub run : Pool A → List (Event A) → Pool A
  run pool [] = pool
  run pool (event ∷ events) = run (step pool event) events

-- `Pool::new`
abbrev pub new_pool : (A : Type 0) → ℕ → Pool A
new_pool A bound = record { bound = bound; slots = [] }
