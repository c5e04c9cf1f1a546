-- ===== src/Memo/Untracked.antt =====
-- A memo that read something untracked is never served from the store in a later revision.
use cbr.Prelude.Results.{ok, err}
use cbr.Prelude.{
  ℕ, zero, suc, ◌≡◌, refl, sym, ◌∙◌, ap, inl, inr, true, false, Option, some, none, [], Text, Bytes,
  Bool-cases, Option-cases, ◌≢◌, text_eq_refl,
}
use cbr.Memo.Store.{Store, Row, update, write_memo}
use cbr.Memo.Session.{
  Session, Answer, Program, Functions, split, contains, push, top_frame, computed_row,
  finish_execute, execute, run, reuse, validate, fetch, evaluate,
}
use cbr.Memo.Balance.{run-KeepsOuter}
use cbr.Memo.Rows.{untracked-not_validated}

-- The session of an evaluation that begins.
abbrev pub opened : Store → Session
opened store = record {
  store = store;
  stack = [];
  frames = [];
  revision = store.revision;
  settled = [];
}

-- The function of `key` ran on its argument from `s`, `value` is what this run returned, and `t`
-- holds the memo of this run, verified in the revision of `s`.
pub record IsComputed (functions : Functions) (key : Text) (s : Session) (value : Bytes)
    (t : Session) : Type 0 where
  pub computation : Text → Program
  pub named : functions (split key).0 ≡ some computation
  pub fuel : ℕ
  pub after : Session
  pub ran : run fuel functions (computation (split key).1) (push key s) ≡ (ok value, after)
  pub memo :
      t.store.memos key
      ≡ some
          (computed_row after.store (s.store.memos key) value (top_frame after.frames) s.revision)

finish_execute-computed :
    (key : Text) (previous : Option Row) (answer : Answer) (s t : Session) (value : Bytes)
    → finish_execute key previous answer s ≡ (ok value, t)
    → (answer ≡ ok value)
      × (t.store.memos key
          ≡ some (computed_row s.store previous value (top_frame s.frames) s.revision))
unfolding finish_execute write_memo update
finish_execute-computed key previous (err e) s t value h = cc
finish_execute-computed key previous (ok v) s t value h =
    let same : v ≡ value = cc in
    let there = ap (λ (r : Answer × Session). r.1.store.memos key) h in
    (ap ok same, rw (sym there, text_eq_refl key, same) refl)

execute-IsComputed :
    (fuel : ℕ) (functions : Functions) (key : Text) (s t : Session) (value : Bytes)
    → execute fuel functions key s ≡ (ok value, t)
    → IsComputed functions key s value t
unfolding execute
execute-IsComputed zero functions key s t value = λ h. cc
execute-IsComputed (suc fuel) functions key s t value =
    elim (Option-cases (functions (split key).0)) [
      | inl e ↦ rw (e, execute) (λ h. cc)
      | inr (computation, e) ↦
          rw (e, execute)
            (λ h.
              let r = run fuel functions (computation (split key).1) (push key s) in
              let done = finish_execute-computed key (s.store.memos key) r.0 r.1 t value h in
              let kept = run-KeepsOuter fuel functions (computation (split key).1) (push key s) in
              record {
                computation = computation;
                named = e;
                fuel = fuel;
                after = r.1;
                ran = ap (λ (a : Answer). (a, r.1)) done.0;
                memo =
                    done.1
                    ∙ ap
                        (λ (n : ℕ). some (
                          computed_row r.1.store (s.store.memos key) value (top_frame r.1.frames)
                            n))
                        kept.revision;
              })
    ]

reuse-IsComputed :
    (fuel : ℕ) (functions : Functions) (key : Text) (memo : Row) (s t : Session) (value : Bytes)
    → memo.untracked ≡ true
    → memo.verified_at ≢ s.revision
    → contains s.settled key ≡ false
    → reuse fuel functions key memo (validate fuel functions key memo s) ≡ (ok value, t)
    → IsComputed functions key s value t
unfolding reuse
reuse-IsComputed zero functions key memo s t value u v n = λ h. cc
reuse-IsComputed (suc fuel) functions key memo s t value u v n =
    rw (untracked-not_validated fuel functions key memo s u v n)
      (λ h. execute-IsComputed fuel functions key s t value h)

-- A read of such a memo inside an evaluation runs its function too, unless this evaluation has
-- settled it.
pub fetch-IsComputed :
    (fuel : ℕ) (functions : Functions) (key : Text) (memo : Row) (s t : Session) (value : Bytes)
    → s.store.inputs key ≡ none
    → s.store.memos key ≡ some memo
    → memo.untracked ≡ true
    → memo.verified_at ≢ s.revision
    → contains s.settled key ≡ false
    → fetch fuel functions key s ≡ (ok value, t)
    → IsComputed functions key s value t
unfolding fetch
fetch-IsComputed zero functions key memo s t value i m u v n = λ h. cc
fetch-IsComputed (suc fuel) functions key memo s t value i m u v n =
    elim (Bool-cases (contains s.stack key)) [
      | inl f ↦ rw (i, fetch) (rw f (λ h. cc))
      | inr f ↦
          rw (i, fetch)
            (rw (f, m) (λ h. reuse-IsComputed fuel functions key memo s t value u v n h))
    ]

-- A key that is no input, whose memo read something untracked and was not verified in this very
-- revision, is not answered from that memo: an evaluation that returns a value, on whatever fuel,
-- got it from a run of the function of the key, and leaves in the store the memo of this run, with
-- what the run read and verified now.
pub evaluate-IsComputed :
    (fuel : ℕ) (functions : Functions) (key : Text) (memo : Row) (store : Store) (value : Bytes)
    (t : Session)
    → store.inputs key ≡ none
    → store.memos key ≡ some memo
    → memo.untracked ≡ true
    → memo.verified_at ≢ store.revision
    → evaluate fuel store functions key ≡ (ok value, t)
    → IsComputed functions key (opened store) value t
unfolding evaluate
evaluate-IsComputed fuel functions key memo store value t i m u v =
    fetch-IsComputed fuel functions key memo (opened store) t value i m u v refl
