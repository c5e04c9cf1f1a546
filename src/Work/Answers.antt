-- ===== src/Work/Answers.antt =====
-- What a caller may rely on between two ticks.
use cbr.Prelude.{
  ◌≡◌, refl, sym, ◌∙◌, ap, arith, Bool, true, false, not, Option, none, some, Option-cases, List,
  [], ◌∷◌, ◌++◌, Text, text_eq, text_eq→eq, starts_with, leb, Bool-cases, inl, inr, All,
}
use cbr.Prelude.Partial.{eq_of_some}
use cbr.Work.Branches.{
  progress-found, progress-deferred, progress-started, thread_ends-absent, thread_ends-found,
}
use cbr.Work.{
  Progress, done, failed, timed_out, Settled, settled_done, settled_failed, settled_timed_out,
  running, Ending, Thread, alive, ended, Slot, Pool, settle, answer, find, replace, retain,
  progress, release, release_all, ends_in, thread_ends, Event, asks, ends, releases, releases_all,
  step, run,
}

-- The events that do not release a key.
abbrev pub Spares : {A : Type 0} → Text → Event A → Type 0
Spares key (asks k late) = Unit
Spares key (ends k x) = Unit
Spares key (releases k) = text_eq key k ≡ false
Spares key (releases_all prefix) = starts_with prefix key ≡ false

module _ {A : Type 0} where
  -- A key whose answer has settled.
  pub record HasSettled (pool : Pool A) (key : Text) (s : Settled A) : Type 0 where
    pub slot : Slot A
    pub found : find pool.slots key ≡ some slot
    pub settled_eq : slot.settled ≡ some s

  -- What a settled answer is told as.
  abbrev pub reported : Settled A → Progress A
  reported (settled_done value) = done value
  reported (settled_failed reason) = failed reason
  reported settled_timed_out = timed_out

  answer-settled :
      (slot : Slot A) (s : Settled A) → slot.settled ≡ some s → answer slot ≡ reported s
  answer-settled slot (settled_done value) e = rw (e, answer) refl
  answer-settled slot (settled_failed reason) e = rw (e, answer) refl
  answer-settled slot settled_timed_out e = rw (e, answer) refl

  find-replace_same :
      (slots : List (Text × Slot A)) (key : Text) (old new : Slot A)
      → find slots key ≡ some old
      → find (replace slots key new) key ≡ some new
  find-replace_same [] key old new e = ground arith
  find-replace_same ((k, slot) ∷ slots) key old new e = elim (Bool-cases (text_eq k key)) [
    | inl t ↦ rw t (rw t refl)
    | inr f ↦ rw f (rw f (find-replace_same slots key old new (rw f at e)))
  ]

  find-replace_other :
      (slots : List (Text × Slot A)) (other key : Text) (new : Slot A)
      → text_eq other key ≡ false
      → find (replace slots other new) key ≡ find slots key
  find-replace_other [] other key new d = refl
  find-replace_other ((k, slot) ∷ slots) other key new d = elim (Bool-cases (text_eq k other)) [
    | inl t ↦
        let e : text_eq k key ≡ false = ap (λ x. text_eq x key) (text_eq→eq k other t) ∙ d in
        rw t (rw e refl)
    | inr f ↦ elim (Bool-cases (text_eq k key)) [
      | inl t ↦ rw f (rw t refl)
      | inr g ↦ rw f (rw g (find-replace_other slots other key new d))
    ]
  ]

  find-append :
      (slots more : List (Text × Slot A)) (key : Text) (slot : Slot A)
      → find slots key ≡ some slot
      → find (slots ++ more) key ≡ some slot
  find-append [] more key slot e = ground arith
  find-append ((k, s) ∷ slots) more key slot e = elim (Bool-cases (text_eq k key)) [
    | inl t ↦ rw t (rw t at e)
    | inr f ↦ rw f (find-append slots more key slot (rw f at e))
  ]

  find-retain :
      (p : Text → Bool) (slots : List (Text × Slot A)) (key : Text)
      → p key ≡ true
      → find (retain p slots) key ≡ find slots key
  find-retain p [] key kept = refl
  find-retain p ((k, s) ∷ slots) key kept = elim (Bool-cases (text_eq k key)) [
    | inl t ↦ let here : p k ≡ true = ap p (text_eq→eq k key t) ∙ kept in rw here (rw t refl)
    | inr f ↦ elim (Bool-cases (p k)) [
      | inl h ↦ rw h (rw f (find-retain p slots key kept))
      | inr h ↦ rw h (rw f (find-retain p slots key kept))
    ]
  ]

  settle_fields :
      (late : Bool) (h : Option (Thread A)) (o : Option (Settled A)) (s : Settled A)
      → o ≡ some s
      → settle late (record { handle = h; settled = o }) ≡ record { handle = h; settled = o }
  unfolding settle
  settle_fields late h (some a) s e = refl
  settle_fields late h none s e = cc

  settle-settled :
      (late : Bool) (slot : Slot A) (s : Settled A)
      → slot.settled ≡ some s
      → settle late slot ≡ slot
  settle-settled late slot s e = settle_fields late slot.handle slot.settled s e

  ends_in-settled :
      (x : Ending A) (h : Option (Thread A)) (s : Option (Settled A))
      → let slot : Slot A = record { handle = h; settled = s } in (ends_in x slot).settled ≡ s
  ends_in-settled x none s = refl
  ends_in-settled x (some alive) s = refl
  ends_in-settled x (some (ended y)) s = refl

  -- A slot that is changed, but not in its answer, leaves every answer.
  replace-HasSettled :
      (pool : Pool A) (key k : Text) (s : Settled A) (old new : Slot A)
      → HasSettled pool key s
      → find pool.slots k ≡ some old
      → (old.settled ≡ some s → new.settled ≡ some s)
      → HasSettled (record pool { slots = replace pool.slots k new }) key s
  replace-HasSettled pool key k s old new v e keep = elim (Bool-cases (text_eq k key)) [
    | inl t ↦
        let same : k ≡ key = text_eq→eq k key t in
        let z : old ≡ v.slot = eq_of_some (sym e ∙ ap (find pool.slots) same ∙ v.found) in
        record {
          slot = new;
          found =
              ap (λ x. find (replace pool.slots x new) key) same
              ∙ find-replace_same pool.slots key old new (ap (find pool.slots) (sym same) ∙ e);
          settled_eq = keep (ap (λ x. x.settled) z ∙ v.settled_eq);
        }
    | inr f ↦ record {
      slot = v.slot;
      found = find-replace_other pool.slots k key new f ∙ v.found;
      settled_eq = v.settled_eq;
    }
  ]

  progress-HasSettled :
      (pool : Pool A) (key k : Text) (late : Bool) (s : Settled A)
      → HasSettled pool key s
      → HasSettled (progress pool k late).1 key s
  progress-HasSettled pool key k late s v = elim (Option-cases (find pool.slots k)) [
    | inr (old, e) ↦ rw (progress-found pool k late old e) (
        replace-HasSettled pool key k s old (settle late old) v e
          (λ z. ap (λ x. x.settled) (settle-settled late old s z) ∙ z))
    | inl e ↦ elim (Bool-cases (leb pool.bound (running pool.slots))) [
      | inl full ↦ rw (progress-deferred pool k late e full) v
      | inr room ↦ rw (progress-started pool k late e room) (record {
        slot = v.slot;
        found = find-append pool.slots _ key v.slot v.found;
        settled_eq = v.settled_eq;
      })
    ]
  ]

  thread_ends-HasSettled :
      (pool : Pool A) (key k : Text) (x : Ending A) (s : Settled A)
      → HasSettled pool key s
      → HasSettled (thread_ends pool k x) key s
  thread_ends-HasSettled pool key k x s v = elim (Option-cases (find pool.slots k)) [
    | inl e ↦ rw (thread_ends-absent pool k x e) v
    | inr (old, e) ↦ rw (thread_ends-found pool k x old e) (
        replace-HasSettled pool key k s old (ends_in x old) v e
          (λ z. ends_in-settled x old.handle old.settled ∙ z))
  ]

  step-HasSettled :
      (pool : Pool A) (key : Text) (s : Settled A) (event : Event A)
      → HasSettled pool key s
      → Spares key event
      → HasSettled (step pool event) key s
  unfolding step release release_all
  step-HasSettled pool key s (asks k late) v spares = progress-HasSettled pool key k late s v
  step-HasSettled pool key s (ends k x) v spares = thread_ends-HasSettled pool key k x s v
  step-HasSettled pool key s (releases k) v spares = record {
    slot = v.slot;
    found = find-retain (λ x. not (text_eq x k)) pool.slots key (ap not spares) ∙ v.found;
    settled_eq = v.settled_eq;
  }
  step-HasSettled pool key s (releases_all prefix) v spares = record {
    slot = v.slot;
    found = find-retain (λ x. not (starts_with prefix x)) pool.slots key (ap not spares) ∙ v.found;
    settled_eq = v.settled_eq;
  }

  run-HasSettled :
      (pool : Pool A) (key : Text) (s : Settled A) (events : List (Event A))
      → HasSettled pool key s
      → All (Spares key) events
      → HasSettled (run pool events) key s
  unfolding run
  run-HasSettled pool key s [] v spares = v
  run-HasSettled pool key s (event ∷ events) v (spare, spares) =
      run-HasSettled (step pool event) key s events (step-HasSettled pool key s event v spare)
        spares

  progress-settled :
      (pool : Pool A) (key : Text) (late : Bool) (s : Settled A)
      → HasSettled pool key s
      → (progress pool key late).0 ≡ reported s
  progress-settled pool key late s v =
      ap (λ out. out.0) (progress-found pool key late v.slot v.found)
      ∙ ap answer (settle-settled late v.slot s v.settled_eq)
      ∙ answer-settled v.slot s v.settled_eq

-- An answer that has settled, be it a value, a failure or a passed deadline, is what every later
-- ask for its key is told, whatever else is asked, finished and released, until its own key is
-- released.
pub settled-kept :
    (A : Type 0) (pool : Pool A) (key : Text) (s : Settled A) (events : List (Event A))
    (late : Bool)
    → HasSettled pool key s
    → All (Spares key) events
    → (progress (run pool events) key late).0 ≡ reported s
settled-kept A pool key s events late v spares =
    progress-settled (run pool events) key late s (run-HasSettled pool key s events v spares)
