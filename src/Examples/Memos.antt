-- ===== src/Examples/Memos.antt =====
-- Runs of the evaluator.
use cbr.Prelude.Results.{ok}
use cbr.Prelude.{
  ◌≡◌, ◌≢◌, ◌≤◌, ◌⊎◌, refl, true, false, some, none, [], ◌∷◌, codes, All, arith, text_eq,
  if◌then◌else◌,
}
use cbr.Memo.Durability.{low, high, level}
use cbr.Memo.Store.{Store, Input, Row, set_input, announce}
use cbr.Memo.Session.{
  Session, Frame, Functions, durability_of, computed_row, read, return, evaluate, check,
  finish_execute,
}
use cbr.Memo.Balance.{evaluate-Keeps}
use cbr.Memo.Stamps.{here, next, IsStamped, shallow_verification_sound}
use cbr.Memo.Rows.{StampIs, computed_row_sound}
use cbr.Memo.Untracked.{opened, IsComputed, evaluate-IsComputed}

-- A store with one durable input, and with a memo that read something untracked.
abbrev an_input : Input
an_input = record { value = codes "v"; changed_at = 1; durability = high }

abbrev a_memo : Row
a_memo = record {
  value = codes "w";
  changed_at = 1;
  verified_at = 1;
  durability = low;
  untracked = true;
  dependencies = [];
}

abbrev a_store : Store
a_store = record {
  revision = 1;
  changed = λ l. 1;
  inputs = λ key. if text_eq key (codes "k") then some an_input else none;
  memos = λ key. if text_eq key (codes "f") then some a_memo else none;
}

a_store-IsStamped : IsStamped a_store
a_store-IsStamped = record { levels = λ l. omega arith }

abbrev later_store : Store
later_store = (set_input a_store (codes "n") (codes "1") low).0

has_input : a_store.inputs (codes "k") ≡ some an_input
unfolding text_eq
has_input = refl

not_announced : later_store.changed (level high) ≤ a_store.revision
unfolding set_input announce text_eq
not_announced = omega arith

shallow_verification_sound_example : later_store.inputs (codes "k") ≡ some an_input
shallow_verification_sound_example =
    shallow_verification_sound {s = a_store} {t = later_store} (codes "k") an_input
      a_store-IsStamped (next here (codes "n") (codes "1") low) has_input not_announced

-- A function that reads the input `k`.
abbrev some_functions : Functions
some_functions name = some (λ argument. read (codes "k") (λ answer. return answer))

evaluate-Keeps_example :
    let after = (evaluate 5 a_store some_functions (codes "g")).1 in
    (after.store.inputs ≡ a_store.inputs)
    × (after.store.changed ≡ a_store.changed)
    × (after.store.revision ≡ a_store.revision)
    × (after.stack ≡ [])
    × (after.frames ≡ [])
evaluate-Keeps_example = evaluate-Keeps 5 some_functions a_store (codes "g")

abbrev a_frame : Frame
a_frame = record { dependencies = codes "k" ∷ []; untracked = false }

computed_row_sound_example :
    let row = computed_row a_store (some a_memo) (codes "w") a_frame 2 in
    StampIs (some a_memo) (codes "w") row.durability 2 row.changed_at
    × All (λ key. level row.durability ≤ level (durability_of a_store key)) row.dependencies
    × ((row.untracked ≡ false) ⊎ (row.durability ≡ low))
    × (row.verified_at ≡ 2)
computed_row_sound_example = computed_row_sound a_store (some a_memo) (codes "w") a_frame 2

-- The function of `f` runs again one revision later.
abbrev evaluated : Session
evaluated = (evaluate 7 later_store some_functions (codes "f")).1

has_no_input : later_store.inputs (codes "f") ≡ none
unfolding set_input text_eq
has_no_input = refl

has_memo : later_store.memos (codes "f") ≡ some a_memo
unfolding set_input text_eq
has_memo = refl

returns_input : evaluate 7 later_store some_functions (codes "f") ≡ (ok (codes "v"), evaluated)
unfolding set_input text_eq evaluate check finish_execute
returns_input = refl

is_later : 1 ≢ later_store.revision
unfolding set_input text_eq
is_later = omega arith

evaluate-IsComputed_example :
    IsComputed some_functions (codes "f") (opened later_store) (codes "v") evaluated
evaluate-IsComputed_example =
    evaluate-IsComputed 7 some_functions (codes "f") a_memo later_store (codes "v") evaluated
      has_no_input has_memo refl is_later returns_input
