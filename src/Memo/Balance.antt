-- ===== src/Memo/Balance.antt =====
-- An evaluation leaves the inputs, the revision, the stack and the open frames as they were,
-- whatever it answers.
use cbr.Prelude.Results.{Result, ok, err}
use cbr.Prelude.{
  ℕ, zero, suc, ◌≡◌, refl, ◌∙◌, ◌⊎◌, inl, inr, ap, Bool, true, false, Option, List, [], ◌∷◌, ◌++◌,
  Text, arith, Bool-cases, Option-cases,
}
use cbr.Memo.Store.{Store, Row, write_memo, mark_verified}
use cbr.Memo.Session.{
  EvalError, Answer, Program, return, read, report_untracked, Functions, Frame, Session, split,
  contains, record_edge, record_untracked, tail, push, finish_execute, memo_changed_after, Check,
  current, give_up, shallow, deep, check, fetch, reuse, validate, walk, go_on, changed_after,
  execute, run, resume, evaluate,
}

-- `t` differs from `s` in its memos, in what is settled and in the innermost frame at most.
pub record KeepsOuter (s t : Session) : Type 0 where
  pub stack : t.stack ≡ s.stack
  pub outer : tail t.frames ≡ tail s.frames
  pub revision : t.revision ≡ s.revision
  pub inputs : t.store.inputs ≡ s.store.inputs
  pub changed : t.store.changed ≡ s.store.changed
  pub clock : t.store.revision ≡ s.store.revision

pub record Keeps (s t : Session) : Type 0 where
  pub outer : KeepsOuter s t
  pub frames : t.frames ≡ s.frames

Keeps-refl : (s : Session) → Keeps s s
Keeps-refl s = record {
  outer = record {
    stack = refl;
    outer = refl;
    revision = refl;
    inputs = refl;
    changed = refl;
    clock = refl;
  };
  frames = refl;
}

KeepsOuter-trans : {s t u : Session} → KeepsOuter s t → KeepsOuter t u → KeepsOuter s u
KeepsOuter-trans a b = record {
  stack = b.stack ∙ a.stack;
  outer = b.outer ∙ a.outer;
  revision = b.revision ∙ a.revision;
  inputs = b.inputs ∙ a.inputs;
  changed = b.changed ∙ a.changed;
  clock = b.clock ∙ a.clock;
}

Keeps-trans : {s t u : Session} → Keeps s t → Keeps t u → Keeps s u
Keeps-trans a b = record { outer = KeepsOuter-trans a.outer b.outer; frames = b.frames ∙ a.frames }

Check-cases : (c : Check) → ((c ≡ current) ⊎ (c ≡ give_up)) ⊎ ((c ≡ shallow) ⊎ (c ≡ deep))
Check-cases current = inl (inl refl)
Check-cases give_up = inl (inr refl)
Check-cases shallow = inr (inl refl)
Check-cases deep = inr (inr refl)

memo_changed_after-Keeps :
    (key : Text) (since : ℕ) (r : Answer × Session) (s : Session)
    → Keeps s r.1
    → Keeps s (memo_changed_after key since r).1
unfolding memo_changed_after
memo_changed_after-Keeps key since (err e, t) s h = h
memo_changed_after-Keeps key since (ok v, t) s h = elim (Option-cases (t.store.memos key)) [
  | inl e ↦ rw (e, memo_changed_after) h
  | inr (m, e) ↦ rw (e, memo_changed_after) h
]

settle_verified-Keeps :
    (key : Text) (s : Session)
    → Keeps s
        (record s { store = mark_verified s.store key s.revision; settled = s.settled ++ key ∷ [] })
unfolding mark_verified
settle_verified-Keeps key s = record {
  outer = record {
    stack = refl;
    outer = refl;
    revision = refl;
    inputs = refl;
    changed = refl;
    clock = refl;
  };
  frames = refl;
}

finish_execute-Keeps :
    (key : Text) (previous : Option Row) (answer : Answer) (s t : Session)
    → KeepsOuter (push key s) t
    → Keeps s (finish_execute key previous answer t).1
unfolding finish_execute write_memo
finish_execute-Keeps key previous (err e) s t h = record {
  outer = record {
    stack = ap tail h.stack;
    outer = ap tail h.outer;
    revision = h.revision;
    inputs = h.inputs;
    changed = h.changed;
    clock = h.clock;
  };
  frames = h.outer;
}
finish_execute-Keeps key previous (ok v) s t h = record {
  outer = record {
    stack = ap tail h.stack;
    outer = ap tail h.outer;
    revision = h.revision;
    inputs = h.inputs;
    changed = h.changed;
    clock = h.clock;
  };
  frames = h.outer;
}

record_edge-outer : (frames : List Frame) (key : Text) → tail (record_edge frames key) ≡ tail frames
unfolding record_edge
record_edge-outer [] key = refl
record_edge-outer (frame ∷ frames) key = ground arith

record_untracked-outer : (frames : List Frame) → tail (record_untracked frames) ≡ tail frames
unfolding record_untracked
record_untracked-outer [] = refl
record_untracked-outer (frame ∷ frames) = refl

with_frames :
    (s : Session) (frames : List Frame)
    → tail frames ≡ tail s.frames
    → KeepsOuter s (record s { frames = frames })
with_frames s frames h = record {
  stack = refl;
  outer = h;
  revision = refl;
  inputs = refl;
  changed = refl;
  clock = refl;
}

mutual
  unfolding fetch

  fetch-Keeps :
      (fuel : ℕ) (functions : Functions) (key : Text) (s : Session)
      → Keeps s (fetch fuel functions key s).1
  fetch-Keeps zero functions key s = Keeps-refl s
  fetch-Keeps (suc fuel) functions key s = elim (Option-cases (s.store.inputs key)) [
    | inr (input, e) ↦ rw (e, fetch) (Keeps-refl s)
    | inl e ↦ elim (Bool-cases (contains s.stack key)) [
      | inl f ↦ rw (e, fetch) (rw f (Keeps-refl s))
      | inr f ↦ elim (Option-cases (s.store.memos key)) [
        | inl g ↦ rw (e, fetch) (rw (f, g) (execute-Keeps fuel functions key s))
        | inr (row, g) ↦
            rw (e, fetch)
              (rw (f, g)
                (reuse-Keeps fuel functions key row (validate fuel functions key row s) s
                  (validate-Keeps fuel functions key row s)))
      ]
    ]
  ]

  reuse-Keeps :
      (fuel : ℕ) (functions : Functions) (key : Text) (row : Row)
      (r : Result Bool EvalError × Session) (s : Session)
      → Keeps s r.1
      → Keeps s (reuse fuel functions key row r).1
  reuse-Keeps zero functions key row r s h = h
  reuse-Keeps (suc fuel) functions key row (err e, t) s h = h
  reuse-Keeps (suc fuel) functions key row (ok true, t) s h = h
  reuse-Keeps (suc fuel) functions key row (ok false, t) s h =
      Keeps-trans h (execute-Keeps fuel functions key t)

  validate-Keeps :
      (fuel : ℕ) (functions : Functions) (key : Text) (row : Row) (s : Session)
      → Keeps s (validate fuel functions key row s).1
  validate-Keeps zero functions key row s = Keeps-refl s
  validate-Keeps (suc fuel) functions key row s = elim (Check-cases (check s key row)) [
    | inl (inl e) ↦ rw (e, validate) (Keeps-refl s)
    | inl (inr e) ↦ rw (e, validate) (Keeps-refl s)
    | inr (inl e) ↦ rw (e, validate) (settle_verified-Keeps key s)
    | inr (inr e) ↦
        rw (e, validate) (walk-Keeps fuel functions key row.verified_at row.dependencies s)
  ]

  walk-Keeps :
      (fuel : ℕ) (functions : Functions) (key : Text) (since : ℕ) (dependencies : List Text)
      (s : Session)
      → Keeps s (walk fuel functions key since dependencies s).1
  walk-Keeps zero functions key since dependencies s = Keeps-refl s
  walk-Keeps (suc fuel) functions key since [] s = settle_verified-Keeps key s
  walk-Keeps (suc fuel) functions key since (d ∷ more) s =
      go_on-Keeps fuel functions key since more (changed_after fuel functions d since s) s
        (changed_after-Keeps fuel functions d since s)

  go_on-Keeps :
      (fuel : ℕ) (functions : Functions) (key : Text) (since : ℕ) (more : List Text)
      (r : Result Bool EvalError × Session) (s : Session)
      → Keeps s r.1
      → Keeps s (go_on fuel functions key since more r).1
  go_on-Keeps zero functions key since more r s h = h
  go_on-Keeps (suc fuel) functions key since more (err e, t) s h = h
  go_on-Keeps (suc fuel) functions key since more (ok true, t) s h = h
  go_on-Keeps (suc fuel) functions key since more (ok false, t) s h =
      Keeps-trans h (walk-Keeps fuel functions key since more t)

  changed_after-Keeps :
      (fuel : ℕ) (functions : Functions) (key : Text) (since : ℕ) (s : Session)
      → Keeps s (changed_after fuel functions key since s).1
  changed_after-Keeps zero functions key since s = Keeps-refl s
  changed_after-Keeps (suc fuel) functions key since s = elim (Option-cases (s.store.inputs key)) [
    | inr (input, e) ↦ rw (e, changed_after) (Keeps-refl s)
    | inl e ↦
        rw (e, changed_after)
          (memo_changed_after-Keeps key since (fetch fuel functions key s) s
            (fetch-Keeps fuel functions key s))
  ]

  execute-Keeps :
      (fuel : ℕ) (functions : Functions) (key : Text) (s : Session)
      → Keeps s (execute fuel functions key s).1
  execute-Keeps zero functions key s = Keeps-refl s
  execute-Keeps (suc fuel) functions key s = elim (Option-cases (functions (split key).0)) [
    | inl e ↦ rw (e, execute) (Keeps-refl s)
    | inr (computation, e) ↦
        rw (e, execute)
          (finish_execute-Keeps key (s.store.memos key)
            (run fuel functions (computation (split key).1) (push key s)).0 s
            (run fuel functions (computation (split key).1) (push key s)).1
            (run-KeepsOuter fuel functions (computation (split key).1) (push key s)))
  ]

  pub run-KeepsOuter :
      (fuel : ℕ) (functions : Functions) (program : Program) (s : Session)
      → KeepsOuter s (run fuel functions program s).1
  run-KeepsOuter zero functions program s = (Keeps-refl s).outer
  run-KeepsOuter (suc fuel) functions (return answer) s = (Keeps-refl s).outer
  run-KeepsOuter (suc fuel) functions (report_untracked rest) s =
      KeepsOuter-trans (with_frames s (record_untracked s.frames) (record_untracked-outer s.frames))
        (run-KeepsOuter fuel functions rest (record s { frames = record_untracked s.frames }))
  run-KeepsOuter (suc fuel) functions (read key rest) s =
      let s₁ : Session = record s { frames = record_edge s.frames key } in
      resume-KeepsOuter fuel functions rest (fetch fuel functions key s₁) s (
        KeepsOuter-trans (with_frames s (record_edge s.frames key) (record_edge-outer s.frames key))
          (fetch-Keeps fuel functions key s₁).outer)

  resume-KeepsOuter :
      (fuel : ℕ) (functions : Functions) (rest : Answer → Program) (r : Answer × Session)
      (s : Session)
      → KeepsOuter s r.1
      → KeepsOuter s (resume fuel functions rest r).1
  resume-KeepsOuter zero functions rest r s h = h
  resume-KeepsOuter (suc fuel) functions rest (answer, t) s h =
      KeepsOuter-trans h (run-KeepsOuter fuel functions (rest answer) t)

-- An evaluation changes no input, no stamp and no revision, and closes every frame that it opens:
-- what it may change is the memos.
pub evaluate-Keeps :
    (fuel : ℕ) (functions : Functions) (store : Store) (key : Text)
    → let after = (evaluate fuel store functions key).1 in
      (after.store.inputs ≡ store.inputs)
      × (after.store.changed ≡ store.changed)
      × (after.store.revision ≡ store.revision)
      × (after.stack ≡ [])
      × (after.frames ≡ [])
unfolding evaluate
evaluate-Keeps fuel functions store key =
    let s : Session = record {
      store = store;
      stack = [];
      frames = [];
      revision = store.revision;
      settled = [];
    } in
    let k = fetch-Keeps fuel functions key s in
    (k.outer.inputs, k.outer.changed, k.outer.clock, k.outer.stack, k.frames)
