-- ===== src/Work/Bound.antt =====
-- The pool's bound.
use cbr.Prelude.{
  ℕ, suc, ◌≤◌, ◌<◌, ◌≡◌, refl, arith, Bool, true, not, Option, none, some, Option-cases, List, [],
  ◌∷◌, ◌++◌, Text, text_eq, starts_with, leb, Bool-cases, inl, inr,
}
use cbr.Prelude.Partial.{eq_of_some}
use cbr.Work.Branches.{
  progress-found, progress-deferred, progress-started, thread_ends-absent, thread_ends-found,
}
use cbr.Work.{
  Settled, Ending, Thread, alive, ended, Slot, Pool, in_flight, running, settle, find, replace,
  retain, progress, release, release_all, ends_in, thread_ends, Event, asks, ends, releases,
  releases_all, step, run, new_pool,
}

module _ {A : Type 0} where
  -- Asking starts nothing in a slot that is there, and the end of a thread does not either.
  settle_fields :
      (late : Bool) (h : Option (Thread A)) (s : Option (Settled A))
      → let slot : Slot A = record { handle = h; settled = s } in
        in_flight (settle late slot) ≡ true → in_flight slot ≡ true
  unfolding settle
  settle_fields late h (some a) e = e
  settle_fields late none none e = ground arith
  settle_fields late (some (ended x)) none e = ground arith
  settle_fields late (some alive) none e = refl

  settle-in_flight :
      (late : Bool) (slot : Slot A) → in_flight (settle late slot) ≡ true → in_flight slot ≡ true
  settle-in_flight late slot = settle_fields late slot.handle slot.settled

  ends_fields :
      (x : Ending A) (h : Option (Thread A)) (s : Option (Settled A))
      → let slot : Slot A = record { handle = h; settled = s } in
        in_flight (ends_in x slot) ≡ true → in_flight slot ≡ true
  ends_fields x h (some a) e = ground arith
  ends_fields x none none e = e
  ends_fields x (some (ended y)) none e = e
  ends_fields x (some alive) none e = refl

  ends_in-in_flight :
      (x : Ending A) (slot : Slot A) → in_flight (ends_in x slot) ≡ true → in_flight slot ≡ true
  ends_in-in_flight x slot = ends_fields x slot.handle slot.settled

  running-head :
      (k : Text) (old new : Slot A) (slots : List (Text × Slot A))
      → (in_flight new ≡ true → in_flight old ≡ true)
      → running ((k, new) ∷ slots) ≤ running ((k, old) ∷ slots)
  running-head k old new slots keep = elim (Bool-cases (in_flight new)) [
    | inl n ↦ simp (n, keep n) (omega arith)
    | inr n ↦ simp n (ground arith)
  ]

  running-replace :
      (slots : List (Text × Slot A)) (key : Text) (old new : Slot A)
      → find slots key ≡ some old
      → (in_flight new ≡ true → in_flight old ≡ true)
      → running (replace slots key new) ≤ running slots
  running-replace [] key old new e keep = omega arith
  running-replace ((k, slot) ∷ slots) key old new e keep = elim (Bool-cases (text_eq k key)) [
    | inl t ↦
        let o : slot ≡ old = eq_of_some (rw t at e) in
        rw t (running-head k slot new slots (λ n. rw o (keep n)))
    | inr f ↦ rw f (let below = running-replace slots key old new (rw f at e) keep in ground arith)
  ]

  running-retain :
      (p : Text → Bool) (slots : List (Text × Slot A)) → running (retain p slots) ≤ running slots
  running-retain p [] = omega arith
  running-retain p ((k, slot) ∷ slots) = ground (arith, running-retain p slots)

  running-append :
      (slots : List (Text × Slot A)) (key : Text) (slot : Slot A)
      → running (slots ++ (key, slot) ∷ []) ≤ suc (running slots)
  running-append [] key slot = ground arith
  running-append ((k, s) ∷ slots) key slot = ground (arith, running-append slots key slot)

  -- The units in flight are within the bound, which nothing changes.
  pub record IsWithin (bound : ℕ) (pool : Pool A) : Type 0 where
    pub bound_eq : pool.bound ≡ bound
    pub running_le : running pool.slots ≤ bound

  progress-IsWithin :
      (bound : ℕ) (pool : Pool A) (key : Text) (late : Bool)
      → IsWithin bound pool
      → IsWithin bound (progress pool key late).1
  progress-IsWithin bound pool key late v = elim (Option-cases (find pool.slots key)) [
    | inr (slot, e) ↦ rw (progress-found pool key late slot e) (record {
      bound_eq = v.bound_eq;
      running_le =
          let below =
            running-replace pool.slots key slot (settle late slot) e (settle-in_flight late slot) in
          omega (arith, below, v.running_le);
    })
    | inl e ↦ elim (Bool-cases (leb pool.bound (running pool.slots))) [
      | inl full ↦ rw (progress-deferred pool key late e full) v
      | inr room ↦ rw (progress-started pool key late e room) (record {
        bound_eq = v.bound_eq;
        running_le =
            let new =
              running-append pool.slots key (record { handle = some alive; settled = none }) in
            let below : running pool.slots < pool.bound = ground arith in
            omega (arith, new, below, v.bound_eq);
      })
    ]
  ]

  thread_ends-IsWithin :
      (bound : ℕ) (pool : Pool A) (key : Text) (x : Ending A)
      → IsWithin bound pool
      → IsWithin bound (thread_ends pool key x)
  thread_ends-IsWithin bound pool key x v = elim (Option-cases (find pool.slots key)) [
    | inl e ↦ rw (thread_ends-absent pool key x e) v
    | inr (slot, e) ↦ rw (thread_ends-found pool key x slot e) (record {
      bound_eq = v.bound_eq;
      running_le =
          let below =
            running-replace pool.slots key slot (ends_in x slot) e (ends_in-in_flight x slot) in
          omega (arith, below, v.running_le);
    })
  ]

  step-IsWithin :
      (bound : ℕ) (pool : Pool A) (event : Event A)
      → IsWithin bound pool
      → IsWithin bound (step pool event)
  unfolding step release release_all
  step-IsWithin bound pool (asks key late) v = progress-IsWithin bound pool key late v
  step-IsWithin bound pool (ends key x) v = thread_ends-IsWithin bound pool key x v
  step-IsWithin bound pool (releases key) v = record {
    bound_eq = v.bound_eq;
    running_le = omega (arith, running-retain (λ k. not (text_eq k key)) pool.slots, v.running_le);
  }
  step-IsWithin bound pool (releases_all prefix) v = record {
    bound_eq = v.bound_eq;
    running_le =
        omega (arith, running-retain (λ k. not (starts_with prefix k)) pool.slots, v.running_le);
  }

  run-IsWithin :
      (bound : ℕ) (pool : Pool A) (events : List (Event A))
      → IsWithin bound pool
      → IsWithin bound (run pool events)
  unfolding run
  run-IsWithin bound pool [] v = v
  run-IsWithin bound pool (event ∷ events) v =
      run-IsWithin bound (step pool event) events (step-IsWithin bound pool event v)

-- Whatever is asked, released and finished, in any order, a pool never has more units of work in
-- flight than its bound.
pub running-bounded :
    (A : Type 0) (bound : ℕ) (events : List (Event A))
    → running (run (new_pool A bound) events).slots ≤ bound
running-bounded A bound events =
    (run-IsWithin bound (new_pool A bound) events
      (record { bound_eq = refl; running_le = omega arith })).running_le
