-- ===== src/Work/Branches.antt =====
-- The branches of the pool's operations.
use cbr.Prelude.{◌≡◌, refl, Bool, true, false, none, some, [], ◌∷◌, ◌++◌, Text, leb}
use cbr.Work.{
  is_running, deferred, Ending, alive, Slot, Pool, running, settle, answer, find, replace, progress,
  ends_in, thread_ends,
}

module _ {A : Type 0} (pool : Pool A) (key : Text) where
  pub progress-found :
      (late : Bool) (slot : Slot A)
      → find pool.slots key ≡ some slot
      → progress pool key late ≡ (
        answer (settle late slot),
        record pool { slots = replace pool.slots key (settle late slot) },
      )
  unfolding progress
  progress-found late slot e = rw (e, progress) refl

  pub progress-deferred :
      (late : Bool)
      → find pool.slots key ≡ none
      → leb pool.bound (running pool.slots) ≡ true
      → progress pool key late ≡ (deferred, pool)
  unfolding progress
  progress-deferred late e full = rw (e, progress) (rw (full, progress) refl)

  pub progress-started :
      (late : Bool)
      → find pool.slots key ≡ none
      → leb pool.bound (running pool.slots) ≡ false
      → progress pool key late ≡ (
        is_running,
        record pool {
          slots = pool.slots ++ (key, record { handle = some alive; settled = none }) ∷ [];
        },
      )
  unfolding progress
  progress-started late e room = rw (e, progress) (rw (room, progress) refl)

  pub thread_ends-absent :
      (x : Ending A) → find pool.slots key ≡ none → thread_ends pool key x ≡ pool
  unfolding thread_ends
  thread_ends-absent x e = rw (e, thread_ends) refl

  pub thread_ends-found :
      (x : Ending A) (slot : Slot A)
      → find pool.slots key ≡ some slot
      → thread_ends pool key x ≡ record pool { slots = replace pool.slots key (ends_in x slot) }
  unfolding thread_ends
  thread_ends-found x slot e = rw (e, thread_ends) refl
