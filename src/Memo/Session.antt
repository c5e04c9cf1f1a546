-- ===== src/Memo/Session.antt =====
-- crates/cbr-memory/src/evaluator.rs: one evaluation. A registered function is a `Program`: the
-- tree of what it does with the answer of each read. Every function of the session returns its
-- result with the session that it leaves, on errors too.
use cbr.Prelude.Results.{Result, ok, err}
use cbr.Prelude.{
  ℕ, zero, suc, Bool, true, false, ◌&&◌, ◌||◌, Option, none, some, List, [], ◌∷◌, ◌++◌, Text, Bytes,
  codes, text_eq, any, leb, ltb, ◌==◌, if◌then◌else◌,
}
use cbr.Encoding.Digest.{split_once}
use cbr.Memo.Durability.{Durability, low, high, at_least, least}
use cbr.Memo.Store.{Store, Row, changed_at_or_above, write_memo, mark_verified}

-- `out_of_fuel` has no counterpart in the program.
pub data EvalError : Type 0 where
  cycle : List Text → EvalError
  unknown_function : Text → EvalError
  function : Text → EvalError
  out_of_fuel : EvalError

abbrev pub Answer : Type 0
Answer = Result Bytes EvalError

pub data Program : Type 0 where
  return : Answer → Program
  read : Text → (Answer → Program) → Program
  report_untracked : Program → Program

-- The registered functions, by name; a function is given its argument.
abbrev pub Functions : Type 0
Functions = Text → Option (Text → Program)

pub record Frame : Type 0 where
  pub dependencies : List Text
  pub untracked : Bool

abbrev empty_frame : Frame
empty_frame = record { dependencies = []; untracked = false }

-- The innermost key and frame stand first, where the program has them last.
pub record Session : Type 0 where
  pub store : Store
  pub stack : List Text
  pub frames : List Frame
  pub revision : ℕ
  pub settled : List Text

-- `split(key)`
unfoldable pub split : Text → Text × Text
split key = elim (split_once b':' key) [ none ↦ (key, []) | some parts ↦ parts ]

abbrev pub contains : List Text → Text → Bool
contains keys key = any (λ other. text_eq other key) keys

-- The edge that a read records in the innermost frame.
unfoldable pub record_edge : List Frame → Text → List Frame
record_edge [] key = []
record_edge (frame ∷ frames) key =
    if contains frame.dependencies key
    then frame ∷ frames
    else record frame { dependencies = frame.dependencies ++ key ∷ [] } ∷ frames

unfoldable pub record_untracked : List Frame → List Frame
record_untracked [] = []
record_untracked (frame ∷ frames) = record frame { untracked = true } ∷ frames

abbrev settle : Text → Session → Session
settle key s = record s { settled = s.settled ++ key ∷ [] }

abbrev settle_verified : Text → Session → Session
settle_verified key s = record s {
  store = mark_verified s.store key s.revision;
  settled = s.settled ++ key ∷ [];
}

unfoldable pub durability_of : Store → Text → Durability
durability_of store key = elim (store.inputs key) [
  | some input ↦ input.durability
  | none ↦ elim (store.memos key) [ some memo ↦ memo.durability | none ↦ low ]
]

-- A memo is as durable as its least durable dependency.
unfoldable pub least_durable : Store → List Text → Durability → Durability
unfolding durability_of
least_durable store [] durability = durability
least_durable store (dependency ∷ more) durability =
    least_durable store more (least durability (durability_of store dependency))

abbrev pub memo_durability : Store → Frame → Durability
memo_durability store frame =
    if frame.untracked then low else least_durable store frame.dependencies high

-- Early cutoff, with its guard.
unfoldable pub backdate : Option Row → Bytes → Durability → Bool
backdate none value durability = false
backdate (some old) value durability = text_eq old.value value && at_least durability old.durability

unfoldable pub stamp : Option Row → Bytes → Durability → ℕ → ℕ
unfolding backdate
stamp none value durability revision = revision
stamp (some old) value durability revision =
    if backdate (some old) value durability then old.changed_at else revision

-- The row of a computed value.
unfoldable pub computed_row : Store → Option Row → Bytes → Frame → ℕ → Row
unfolding stamp
computed_row store previous value frame revision =
    let durability = memo_durability store frame in
    record {
      value = value;
      changed_at = stamp previous value durability revision;
      verified_at = revision;
      durability = durability;
      untracked = frame.untracked;
      dependencies = frame.dependencies;
    }

-- `frames.pop().unwrap_or_default()`
abbrev pub top_frame : List Frame → Frame
top_frame [] = empty_frame
top_frame (frame ∷ frames) = frame

abbrev pub tail {ℓ} : {A : Type ℓ} → List A → List A
tail [] = []
tail (x ∷ xs) = xs

abbrev pub pop : Session → Session
pop s = record s { stack = tail s.stack; frames = tail s.frames }

abbrev pub push : Text → Session → Session
push key s = record s { stack = key ∷ s.stack; frames = empty_frame ∷ s.frames }

-- What `execute` does with the outcome of the computation, whose session is `s`.
unfoldable pub finish_execute : Text → Option Row → Answer → Session → Answer × Session
finish_execute key previous (err e) s = (err e, pop s)
finish_execute key previous (ok value) s =
    let row = computed_row s.store previous value (top_frame s.frames) s.revision in
    (ok value, settle key (record (pop s) { store = write_memo s.store key row }))

-- `changed_after` when the dependency has been fetched.
unfoldable pub memo_changed_after : Text → ℕ → Answer × Session → Result Bool EvalError × Session
memo_changed_after key since (err e, s) = (err e, s)
memo_changed_after key since (ok value, s) = elim (s.store.memos key) [
  | none ↦ (err (function (codes "no memo for " ++ (key ++ codes " after fetching it"))), s)
  | some memo ↦ (ok (ltb since memo.changed_at), s)
]

-- The tests of `validate` that need no walk: whether it is settled already, and whether it has to
-- be given up.
pub data Check : Type 0 where
  current give_up shallow deep : Check

unfoldable pub check : Session → Text → Row → Check
check s key memo =
    if memo.verified_at == s.revision || contains s.settled key
    then current
    else if memo.untracked
    then give_up
    else if leb (changed_at_or_above s.store memo.durability) memo.verified_at
    then shallow
    else deep

unfoldable mutual
  pub fetch : ℕ → Functions → Text → Session → Answer × Session
  fetch zero functions key s = (err out_of_fuel, s)
  fetch (suc fuel) functions key s = elim (s.store.inputs key) [
    | some input ↦ (ok input.value, s)
    | none ↦ elim (contains s.stack key) [
      | true ↦ (err (cycle (key ∷ s.stack)), s)
      | false ↦ elim (s.store.memos key) [
        | none ↦ execute fuel functions key s
        | some existing ↦ reuse fuel functions key existing (validate fuel functions key existing s)
      ]
    ]
  ]

  -- What `fetch` does with the answer of `validate`.
  pub reuse : ℕ → Functions → Text → Row → Result Bool EvalError × Session → Answer × Session
  reuse zero functions key existing r = (err out_of_fuel, r.1)
  reuse (suc fuel) functions key existing (err e, s) = (err e, s)
  reuse (suc fuel) functions key existing (ok true, s) = (ok existing.value, s)
  reuse (suc fuel) functions key existing (ok false, s) = execute fuel functions key s

  pub validate : ℕ → Functions → Text → Row → Session → Result Bool EvalError × Session
  validate zero functions key memo s = (err out_of_fuel, s)
  validate (suc fuel) functions key memo s = elim (check s key memo) [
    | current ↦ (ok true, s)
    | give_up ↦ (ok false, s)
    | shallow ↦ (ok true, settle_verified key s)
    | deep ↦ walk fuel functions key memo.verified_at memo.dependencies s
  ]

  -- The recorded edges, in the order they were read.
  pub walk : ℕ → Functions → Text → ℕ → List Text → Session → Result Bool EvalError × Session
  walk zero functions key since dependencies s = (err out_of_fuel, s)
  walk (suc fuel) functions key since [] s = (ok true, settle_verified key s)
  walk (suc fuel) functions key since (dependency ∷ more) s =
      go_on fuel functions key since more (changed_after fuel functions dependency since s)

  pub go_on :
      ℕ
      → Functions
      → Text
      → ℕ
      → List Text
      → Result Bool EvalError × Session
      → Result Bool EvalError × Session
  go_on zero functions key since more r = (err out_of_fuel, r.1)
  go_on (suc fuel) functions key since more (err e, s) = (err e, s)
  go_on (suc fuel) functions key since more (ok true, s) = (ok false, s)
  go_on (suc fuel) functions key since more (ok false, s) = walk fuel functions key since more s

  pub changed_after : ℕ → Functions → Text → ℕ → Session → Result Bool EvalError × Session
  changed_after zero functions key since s = (err out_of_fuel, s)
  changed_after (suc fuel) functions key since s = elim (s.store.inputs key) [
    | some input ↦ (ok (ltb since input.changed_at), s)
    | none ↦ memo_changed_after key since (fetch fuel functions key s)
  ]

  pub execute : ℕ → Functions → Text → Session → Answer × Session
  execute zero functions key s = (err out_of_fuel, s)
  execute (suc fuel) functions key s = elim (functions (split key).0) [
    | none ↦ (err (unknown_function (split key).0), s)
    | some computation ↦
        let (answer, s') = run fuel functions (computation (split key).1) (push key s) in
        finish_execute key (s.store.memos key) answer s'
  ]

  -- A program's run through the session.
  pub run : ℕ → Functions → Program → Session → Answer × Session
  run zero functions program s = (err out_of_fuel, s)
  run (suc fuel) functions (return answer) s = (answer, s)
  run (suc fuel) functions (report_untracked rest) s =
      run fuel functions rest (record s { frames = record_untracked s.frames })
  run (suc fuel) functions (read key rest) s =
      resume fuel functions rest
        (fetch fuel functions key (record s { frames = record_edge s.frames key }))

  pub resume : ℕ → Functions → (Answer → Program) → Answer × Session → Answer × Session
  resume zero functions rest r = (err out_of_fuel, r.1)
  resume (suc fuel) functions rest (answer, s) = run fuel functions (rest answer) s

unfoldable pub evaluate : ℕ → Store → Functions → Text → Answer × Session
unfolding fetch
evaluate fuel store functions key =
    fetch fuel functions key
      (record { store = store; stack = []; frames = []; revision = store.revision; settled = [] })
